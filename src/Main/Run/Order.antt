-- ===== src/Main/Run/Order.antt =====
-- In which order a run begins and ends.
use sparkwrangler.Base.{
  codes, subst, Bool, true, false, List, [], ◌∷◌, ◌++◌, ◌≡◌, refl, sym, ap, ◌∙◌, append_assoc,
  Bytes, ok, All, All-append, Bool-cases, inl, inr,
}
use sparkwrangler.Config.Load.{Config}
use sparkwrangler.Discovery.Device.{Device}
use sparkwrangler.Float.{Float}
use sparkwrangler.Main.Observe.{Round, Node, node}
use sparkwrangler.Main.Poll.{
  Action, sends, notifies, expires, releases, disconnects, sent, notified, Event, ticks, connects,
  drops, Loop, is_due, pass, after_pass, publication, start, poll,
}
use sparkwrangler.Main.Run.Inversion.{IsServing, run_ok}
use sparkwrangler.Main.Run.{World, Ending, greeted, closing, serve, run}
use sparkwrangler.Main.Setup.{node_device}
use sparkwrangler.Publisher.Mqtt.{Mqtt, Message, Delivery, announce, close, will}
use sparkwrangler.Sdnotify
use sparkwrangler.Sdnotify.{new, Notifier, enabled, send}

-- An action that leaves the socket and the connection open.
abbrev pub IsOpen : {F : Type 0} → Action F → Type 0
IsOpen (sends m t) = Unit
IsOpen (notifies d) = Unit
IsOpen (expires m) = Unit
IsOpen releases = ⊥
IsOpen disconnects = ⊥

sent-All : {F : Type 0} (d : Delivery F) (ms : List (Message F)) → All IsOpen (sent d ms)
unfolding sent
sent-All d [] = tt
sent-All d (m ∷ ms) = (tt, sent-All d ms)

notified-All : (F : Type 0) (ds : List Bytes) → All (IsOpen {F = F}) (notified ds)
unfolding notified
notified-All F [] = tt
notified-All F (d ∷ ds) = (tt, notified-All F ds)

module _ {F : Type 0} ⦃fl : Float F⦄ where
  pass-All : (n : Node) (r : Round F) (l : Loop F) → All IsOpen (pass n r l)
  unfolding pass publication
  pass-All n r l =
      let dog = notified-All F (Sdnotify.watchdog r.socket n.notifier).datagrams in
      elim (Bool-cases (is_due r.now l.next_publish)) [
        | inl due ↦ rw due (
            All-append IsOpen _ _ (All-append IsOpen _ _ (sent-All r.delivery _) (notified-All F _))
              dog)
        | inr early ↦ rw early dog
      ]

  -- A list of actions that ends in others, before which nothing is closed.
  abbrev pub EndsIn : List (Action F) → List (Action F) → Type 0
  EndsIn last acts = (front : List (Action F)) × (acts ≡ front ++ last) × All IsOpen front

  EndsIn-append :
      (last more acts : List (Action F))
      → All IsOpen more
      → EndsIn last acts
      → EndsIn last (more ++ acts)
  EndsIn-append last more acts h (front, e, k) = (
    more ++ front,
    ap (more ++◌) e ∙ sym (append_assoc more front last),
    All-append IsOpen more front h k,
  )

  EndsIn-poll :
      (n : Node) (dev : Device) (socket : Bytes → Bool) (es : List (Event F)) (l : Loop F)
      → EndsIn (notified (Sdnotify.stopping socket n.notifier).datagrams) (poll n dev socket l es)
  unfolding poll
  EndsIn-poll n dev socket [] l = ([], refl, tt)
  EndsIn-poll n dev socket (ticks r ∷ es) l =
      EndsIn-append _ (pass n r l) _ (pass-All n r l)
        (EndsIn-poll n dev socket es (after_pass n r l))
  EndsIn-poll n dev socket (connects d ∷ es) l =
      EndsIn-append _ (sent d (announce d dev n.mqtt).messages) _ (sent-All d _)
        (EndsIn-poll n dev socket es l)
  EndsIn-poll n dev socket (drops ∷ es) l =
      EndsIn-append _ (expires (will n.mqtt) ∷ []) _ (tt, tt) (EndsIn-poll n dev socket es l)

  EndsIn-more :
      (last more acts : List (Action F)) → EndsIn last acts → EndsIn (last ++ more) (acts ++ more)
  EndsIn-more last more acts (front, e, k) =
      (front, ap (◌++ more) e ∙ append_assoc front last more, k)

-- What a run says first and last, under systemd or not.
abbrev pub greeting : {F : Type 0} → Bool → List (Action F)
greeting true = notifies (codes "READY=1") ∷ []
greeting false = []

abbrev pub farewell : {F : Type 0} → Bool → Message F → Delivery F → List (Action F)
farewell true m d = notifies (codes "STOPPING=1") ∷ releases ∷ sends m (d m) ∷ disconnects ∷ []
farewell false m d = sends m (d m) ∷ disconnects ∷ []

module _ {F : Type 0} where
  ready-greeting :
      (writes : Bytes → Bool) (sd : Notifier)
      → notified {F = F} (Sdnotify.ready writes sd).datagrams ≡ greeting (enabled sd)
  unfolding Sdnotify.ready send notified
  ready-greeting writes sd = elim (Bool-cases (enabled sd)) [
    | inl on ↦ rw on refl
    | inr off ↦ rw off refl
  ]

  stopping-farewell :
      (e : Ending F) (mq : Mqtt) (sd : Notifier)
      → notified (Sdnotify.stopping e.socket sd).datagrams ++ closing e mq sd
        ≡ farewell (enabled sd) (will mq) e.delivery
  unfolding Sdnotify.stopping Sdnotify.close send notified closing close will sent
  stopping-farewell e mq sd = elim (Bool-cases (enabled sd)) [
    | inl on ↦ rw on refl
    | inr off ↦ rw off refl
  ]

module _ {F : Type 0} ⦃fl : Float F⦄ (w : World F) (es : List (Event F)) (e : Ending F) where
  -- What follows the readiness.
  abbrev rest_of : Config → Bytes → Mqtt → List (Action F)
  rest_of cfg mac mq =
      poll (node cfg mq (new w.env w.dial) mac) (node_device cfg mac) e.socket (start w.started) es
      ++ closing e mq (new w.env w.dial)

  serve-greeting :
      (cfg : Config) (mac : Bytes) (mq : Mqtt)
      → serve w es e cfg mac mq
        ≡ greeted w.early (node_device cfg mac) mq
          ++ (greeting (enabled (new w.env w.dial)) ++ rest_of cfg mac mq)
  unfolding serve
  serve-greeting cfg mac mq =
      ap (λ r. greeted w.early (node_device cfg mac) mq ++ (r ++ rest_of cfg mac mq))
        (ready-greeting w.socket (new w.env w.dial))

  EndsIn-served :
      (cfg : Config) (mac : Bytes) (mq : Mqtt)
      → EndsIn (farewell (enabled (new w.env w.dial)) (will mq) e.delivery) (rest_of cfg mac mq)
  unfolding node
  EndsIn-served cfg mac mq =
      let sd = new w.env w.dial in
      subst (λ last. EndsIn last (rest_of cfg mac mq)) (stopping-farewell e mq sd)
        (EndsIn-more (notified (Sdnotify.stopping e.socket sd).datagrams) (closing e mq sd) _
          (EndsIn-poll (node cfg mq sd mac) (node_device cfg mac) e.socket es (start w.started)))

  -- A run that serves first tells systemd that it is ready, behind an announcement at most, and last, in
  -- this order, tells systemd that it stops, releases the socket, gives the broker the message that is also
  -- its will, and disconnects; without systemd it does only the last two. Nothing is closed before, whatever
  -- happens.
  pub run-EndsIn :
      (args : List Bytes) {acts : List (Action F)}
      → run w es e args ≡ ok acts
      → (s : IsServing w es e args acts) × (rest : List (Action F)) × (acts
          ≡ greeted w.early (node_device s.cfg s.mac) s.mq
            ++ (greeting (enabled (new w.env w.dial)) ++ rest))
        × EndsIn (farewell (enabled (new w.env w.dial)) (will s.mq) e.delivery) rest
  run-EndsIn args h =
      let s = run_ok w es e args h in
      (
        s,
        rest_of s.cfg s.mac s.mq,
        s.served ∙ serve-greeting s.cfg s.mac s.mq,
        EndsIn-served s.cfg s.mac s.mq,
      )
