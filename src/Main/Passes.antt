-- ===== src/Main/Passes.antt =====
-- What holds of all actions of a pass, and of the loop, if it holds of its messages.
use sparkwrangler.Base.{Bool, List, [], ◌∷◌, map, Bytes, All, All-append, Bool-cases, inl, inr}
use sparkwrangler.Discovery.Device.{Device}
use sparkwrangler.Float.{Float}
use sparkwrangler.Main.Observe.{Round, Node}
use sparkwrangler.Main.Poll.{
  Action, notifies, expires, sent, notified, Loop, is_due, Event, ticks, connects, drops, observed,
  publication, pass, after_pass, poll,
}
use sparkwrangler.Publisher.Mqtt.{Delivery, announce, publish_state, will}
use sparkwrangler.Sdnotify

module _ {F : Type 0} ⦃fl : Float F⦄ (P : Action F → Type 0)
    (notifies-P : (d : Bytes) → P (notifies d)) where
  pub notified-All : (ds : List Bytes) → All P (notified ds)
  unfolding notified
  notified-All [] = tt
  notified-All (d ∷ ds) = (notifies-P d, notified-All ds)

  -- The messages of the state that a pass observes.
  abbrev pub PublishesAll : Node → Round F → Loop F → Type 0
  PublishesAll n r l =
      All P (sent r.delivery (publish_state r.delivery n.mqtt (observed n r l).0).messages)

  pub pass-All : (n : Node) (r : Round F) (l : Loop F) → PublishesAll n r l → All P (pass n r l)
  unfolding pass publication
  pass-All n r l h =
      let dog = notified-All (Sdnotify.watchdog r.socket n.notifier).datagrams in
      elim (Bool-cases (is_due r.now l.next_publish)) [
        | inl due ↦ rw due (All-append P _ _ (All-append P _ _ h (notified-All _)) dog)
        | inr early ↦ rw early dog
      ]

  module _ (n : Node) (dev : Device) (socket : Bytes → Bool)
      (publishes : (r : Round F) (l : Loop F) → PublishesAll n r l) where
    -- The loop without callbacks, and with them.
    pub ticks-All : (rs : List (Round F)) (l : Loop F) → All P (poll n dev socket l (map ticks rs))
    unfolding poll
    ticks-All [] l = notified-All _
    ticks-All (r ∷ rs) l =
        All-append P (pass n r l) _ (pass-All n r l (publishes r l))
          (ticks-All rs (after_pass n r l))

    pub poll-All :
        (es : List (Event F)) (l : Loop F)
        → ((d : Delivery F) → All P (sent d (announce d dev n.mqtt).messages))
        → P (expires (will n.mqtt))
        → All P (poll n dev socket l es)
    unfolding poll
    poll-All [] l h k = notified-All _
    poll-All (ticks r ∷ es) l h k =
        All-append P (pass n r l) _ (pass-All n r l (publishes r l))
          (poll-All es (after_pass n r l) h k)
    poll-All (connects d ∷ es) l h k = All-append P (sent d _) _ (h d) (poll-All es l h k)
    poll-All (drops ∷ es) l h k = (k, poll-All es l h k)
