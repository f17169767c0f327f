-- ===== src/Main/Run/Contract.antt =====
-- What a whole run says to the broker, and under which topics.
use sparkwrangler.Base.Int.{◌-ℤ◌}
use sparkwrangler.Base.{
  Option, none, some, subst, Bool, true, false, not, List, [], ◌∷◌, ◌≡◌, refl, ◌∙◌, ap, sym, Bytes,
  ok, All, All-append, All-map, one_of, one_of-All, Bool-cases, inl, inr,
}
use sparkwrangler.Config.Load.{Config, worker_mode}
use sparkwrangler.Discovery.Device.{Device}
use sparkwrangler.Discovery.Sensors.Contract.{readers, readers-sensors}
use sparkwrangler.Discovery.Sensors.{sensors}
use sparkwrangler.Float.{Float}
use sparkwrangler.Main.Observation.{observe-worker}
use sparkwrangler.Main.Observe.{node, Round, observe}
use sparkwrangler.Main.Passes.{notified-All, poll-All}
use sparkwrangler.Main.Poll.{
  Action, sends, notifies, expires, releases, disconnects, Event, Loop, sent, notified, observed,
  start, poll,
}
use sparkwrangler.Main.Run.Inversion.{IsServing, run_ok}
use sparkwrangler.Main.Run.{World, Ending, greeted, closing, serve, run}
use sparkwrangler.Main.Setup.{node_device, node_options}
use sparkwrangler.Publisher.Json.Members.{members-document_keys}
use sparkwrangler.Publisher.Json.{Member, members, document_keys}
use sparkwrangler.Publisher.Mqtt.Contract.{
  IsConforming, announce-All, close-All, IsConforming-will, publish_state-All,
}
use sparkwrangler.Publisher.Mqtt.{Mqtt, Message, Delivery}
use sparkwrangler.Sdnotify
use sparkwrangler.Sdnotify.{Notifier, new}

module _ {F : Type 0} ⦃fl : Float F⦄ where
  abbrev pub IsAllowed : Mqtt → Action F → Type 0
  IsAllowed p (sends m t) = IsConforming p m
  IsAllowed p (expires m) = IsConforming p m
  IsAllowed p (notifies d) = Unit
  IsAllowed p releases = Unit
  IsAllowed p disconnects = Unit

  sent-All :
      (d : Delivery F) (p : Mqtt) (ms : List (Message F))
      → All (IsConforming p) ms
      → All (IsAllowed p) (sent d ms)
  unfolding sent
  sent-All d p [] h = tt
  sent-All d p (m ∷ ms) h = (h.0, sent-All d p ms h.1)

  greeted-All :
      (early : Option (Delivery F)) (dev : Device) (p : Mqtt)
      → All (IsAllowed p) (greeted early dev p)
  unfolding greeted
  greeted-All none dev p = tt
  greeted-All (some d) dev p = sent-All d p _ (announce-All d dev p)

  closing-All : (e : Ending F) (p : Mqtt) (sd : Notifier) → All (IsAllowed p) (closing e p sd)
  unfolding closing
  closing-All e p sd =
      let last =
        All-append (IsAllowed p) (sent e.delivery _) (disconnects ∷ [])
          (sent-All e.delivery p _ (close-All e.delivery p)) (tt, tt) in
      elim (Bool-cases (Sdnotify.close e.closes sd).released) [
        | inl open_ ↦ rw open_ (tt, last)
        | inr shut ↦ rw shut last
      ]

readers-document_keys :
    (F : Type 0) (id : Bytes) (with_vllm v : Bool) (ms : List (Member F))
    → with_vllm ≡ v
    → All (λ m. one_of m.0 (document_keys v) ≡ true) ms
    → All (λ m. readers m.0 (sensors id with_vllm) ≡ 1) ms
readers-document_keys F id with_vllm v ms e h =
    subst (λ w. All (λ (m : Member F). readers m.0 (sensors id w) ≡ 1) ms) (sym e)
      (All-map (λ m k. one_of-All _ m.0 (document_keys v) (readers-sensors id v) k) ms h)

module _ {F : Type 0} ⦃fl : Float F⦄ (cfg : Config) (mq : Mqtt) (sd : Notifier) (mac : Bytes)
    (engine : mq.with_vllm ≡ not (worker_mode cfg)) where
  -- Exactly one component of the catalog of such a node reads each member of what it observes.
  members-readers :
      (r : Round F) (l : Loop F)
      → All
          (λ m. readers m.0 (sensors mq.node_id mq.with_vllm) ≡ 1)
          (members (observed (node cfg mq sd mac) r l).0)
  unfolding observed
  members-readers r l = elim (Bool-cases (worker_mode cfg)) [
    | inl worker ↦
        readers-document_keys F mq.node_id mq.with_vllm false _ (engine ∙ ap not worker)
          (observe-worker cfg mq sd mac r l.prev (r.now -ℤ l.prev_at) worker).1
    | inr head ↦
        readers-document_keys F mq.node_id mq.with_vllm true _ (engine ∙ ap not head)
          (members-document_keys (observe (node cfg mq sd mac) r l.prev (r.now -ℤ l.prev_at)).0)
  ]

  polled-All :
      (dev : Device) (socket : Bytes → Bool) (es : List (Event F)) (l : Loop F)
      → All (IsAllowed mq) (poll (node cfg mq sd mac) dev socket l es)
  unfolding node
  polled-All dev socket es l =
      poll-All (IsAllowed mq) (λ d. tt) (node cfg mq sd mac) dev socket
        (λ r k. sent-All r.delivery mq _ (
          publish_state-All r.delivery mq (observed (node cfg mq sd mac) r k).0
            (members-readers r k)))
        es l (λ d. sent-All d mq _ (announce-All d dev mq)) (IsConforming-will mq _ refl)

module _ {F : Type 0} ⦃fl : Float F⦄ (w : World F) (es : List (Event F)) (e : Ending F) where
  serve-All :
      (cfg : Config) (mac : Bytes) (mq : Mqtt)
      → mq.with_vllm ≡ not (worker_mode cfg)
      → All (IsAllowed mq) (serve w es e cfg mac mq)
  unfolding serve
  serve-All cfg mac mq engine =
      let sd = new w.env w.dial in
      All-append (IsAllowed mq) _ _ (greeted-All w.early (node_device cfg mac) mq) (
        All-append (IsAllowed mq) (notified _) _ (notified-All (IsAllowed mq) (λ d. tt) _) (
          All-append (IsAllowed mq) _ _
            (polled-All cfg mq sd mac engine (node_device cfg mac) e.socket es (start w.started))
            (closing-All e mq sd)))

  -- Whatever happens to a run that serves, each message of it is retained and is the node's presence on
  -- its availability topic, a catalog on its discovery topic that names the two other topics, or on its
  -- state topic a document that the encoder accepts, of which exactly one component of that same catalog
  -- reads each member and fits the sort of its value.
  pub run-IsAllowed :
      (args : List Bytes) {acts : List (Action F)}
      → run w es e args ≡ ok acts
      → (s : IsServing w es e args acts) × All (IsAllowed s.mq) acts
  run-IsAllowed args h =
      let s = run_ok w es e args h in
      (
        s,
        subst (λ a. All (IsAllowed s.mq) a) (sym s.served)
            (serve-All s.cfg s.mac s.mq (unfold node_options in s.session.engine)),
      )
