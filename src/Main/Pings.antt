-- ===== src/Main/Pings.antt =====
-- The watchdog's pings.
use sparkwrangler.Base.{
  Bool, ℕ, suc, ◌+◌, true, List, [], ◌∷◌, ◌++◌, ◌≡◌, refl, ◌∙◌, arith, if◌then◌else◌, Bytes, codes,
  Bool-cases, inl, inr, equal,
}
use sparkwrangler.Discovery.Device.{Device}
use sparkwrangler.Float.{Float}
use sparkwrangler.Main.Observe.{Round, Node}
use sparkwrangler.Main.Poll.{
  Action, sends, notifies, expires, releases, disconnects, sent, notified, Loop, is_due, Event,
  ticks, connects, drops, pass, after_pass, publication, poll,
}
use sparkwrangler.Publisher.Mqtt.{Message, Delivery, will}
use sparkwrangler.Sdnotify
use sparkwrangler.Sdnotify.{Notifier, enabled}

abbrev ping : Bytes
ping = codes "WATCHDOG=1"

module _ {F : Type 0} where
  -- How often the watchdog is pinged, and how many passes there are.
  unfoldable pub count_pings : List (Action F) → ℕ
  unfolding equal
  count_pings [] = 0
  count_pings (sends m t ∷ acts) = count_pings acts
  count_pings (notifies d ∷ acts) = (if equal d ping then 1 else 0) + count_pings acts
  count_pings (expires m ∷ acts) = count_pings acts
  count_pings (releases ∷ acts) = count_pings acts
  count_pings (disconnects ∷ acts) = count_pings acts

  abbrev pub count_ticks : List (Event F) → ℕ
  count_ticks [] = 0
  count_ticks (ticks r ∷ es) = suc (count_ticks es)
  count_ticks (connects d ∷ es) = count_ticks es
  count_ticks (drops ∷ es) = count_ticks es

  count_pings-append :
      (acts bs : List (Action F)) → count_pings (acts ++ bs) ≡ count_pings acts + count_pings bs
  unfolding count_pings
  count_pings-append [] bs = omega arith
  count_pings-append (sends m t ∷ acts) bs = count_pings-append acts bs
  count_pings-append (notifies e ∷ acts) bs = ground (arith, count_pings-append acts bs)
  count_pings-append (expires m ∷ acts) bs = count_pings-append acts bs
  count_pings-append (releases ∷ acts) bs = count_pings-append acts bs
  count_pings-append (disconnects ∷ acts) bs = count_pings-append acts bs

  count_pings-expires :
      (m : Message F) (acts : List (Action F)) → count_pings (expires m ∷ acts) ≡ count_pings acts
  unfolding count_pings
  count_pings-expires m acts = refl

  count_pings-sent : (d : Delivery F) (ms : List (Message F)) → count_pings (sent d ms) ≡ 0
  unfolding count_pings sent
  count_pings-sent d [] = refl
  count_pings-sent d (m ∷ ms) = count_pings-sent d ms

module _ (F : Type 0) (writes : Bytes → Bool) (sd : Notifier) where
  count_pings-status :
      (text : Bytes) → count_pings {F = F} (notified (Sdnotify.status writes sd text).datagrams) ≡ 0
  unfolding Sdnotify.status Sdnotify.send count_pings notified
  count_pings-status text = elim (Bool-cases (enabled sd)) [ inl on ↦ rw on | inr off ↦ rw off ]

  count_pings-watchdog :
      enabled sd ≡ true → count_pings {F = F} (notified (Sdnotify.watchdog writes sd).datagrams) ≡ 1
  unfolding Sdnotify.watchdog Sdnotify.send count_pings notified
  count_pings-watchdog h = rw h

  count_pings-stopping : count_pings {F = F} (notified (Sdnotify.stopping writes sd).datagrams) ≡ 0
  unfolding Sdnotify.stopping Sdnotify.send count_pings notified
  count_pings-stopping = elim (Bool-cases (enabled sd)) [ inl on ↦ rw on | inr off ↦ rw off ]

module _ {F : Type 0} ⦃fl : Float F⦄ where
  count_pings-publication :
      (n : Node) (r : Round F) (l : Loop F) → count_pings (publication n r l) ≡ 0
  unfolding publication
  count_pings-publication n r l =
      count_pings-append (sent r.delivery _) (notified _)
      ∙ rw (count_pings-sent r.delivery _, count_pings-status F r.socket n.notifier _)

  count_pings-pass :
      (n : Node) (r : Round F) (l : Loop F)
      → enabled n.notifier ≡ true
      → count_pings (pass n r l) ≡ 1
  unfolding pass
  count_pings-pass n r l h =
      count_pings-append (if is_due r.now l.next_publish then publication n r l else [])
        (notified _)
      ∙ elim (Bool-cases (is_due r.now l.next_publish)) [
        | inl due ↦
            rw (due, count_pings-publication n r l, count_pings-watchdog F r.socket n.notifier h)
        | inr early ↦
            rw (early, count_pings-watchdog F r.socket n.notifier h) (unfold count_pings in refl)
      ]

  -- Under systemd the loop pings the watchdog once for each pass that it completes, whether the pass
  -- published or not and whether its publication succeeded, and never otherwise, as at a reconnection.
  pub poll-pings :
      (n : Node) (dev : Device) (socket : Bytes → Bool) (es : List (Event F)) (l : Loop F)
      → enabled n.notifier ≡ true
      → count_pings (poll n dev socket l es) ≡ count_ticks es
  unfolding poll
  poll-pings n dev socket [] l h = count_pings-stopping F socket n.notifier
  poll-pings n dev socket (connects d ∷ es) l h =
      count_pings-append (sent d _) (poll n dev socket l es)
      ∙ rw (count_pings-sent d _, poll-pings n dev socket es l h) (omega arith)
  poll-pings n dev socket (drops ∷ es) l h =
      count_pings-expires (will n.mqtt) (poll n dev socket l es) ∙ poll-pings n dev socket es l h
  poll-pings n dev socket (ticks r ∷ es) l h =
      count_pings-append (pass n r l) (poll n dev socket (after_pass n r l) es)
      ∙ rw (count_pings-pass n r l h, poll-pings n dev socket es (after_pass n r l) h) (omega arith)
