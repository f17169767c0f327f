-- ===== src/Main/Interleaving.antt =====
-- The actions of the loop and those of the callbacks, message by message: the goroutine of the loop and
-- that of the broker's client take turns in any way.
pub mod Presence
pub mod View
use sparkwrangler.Base.{
  ◌&&◌, Bool, true, false, not, Option, none, some, List, [], ◌∷◌, ◌++◌, map, ◌≡◌, refl, ◌∙◌, ap,
  sym, if◌then◌else◌, Bytes, Dict, insert, lookup, lookup-insert, equal, All, All-map, Bool-cases,
  inl, inr,
}
use sparkwrangler.Discovery.Device.{Device}
use sparkwrangler.Float.{Float}
use sparkwrangler.Main.Callbacks.{Callback, connected, lost, event, called}
use sparkwrangler.Main.Observe.{Round, Node}
use sparkwrangler.Main.Passes.{PublishesAll, ticks-All}
use sparkwrangler.Main.Poll.{
  Action, sends, notifies, expires, releases, disconnects, sent, notified, Loop, is_due, Event,
  ticks, connects, drops, pass, after_pass, publication, observed, poll,
}
use sparkwrangler.Main.Presence.{
  keep, retained, retained-append, after_event, after_events, lookup-connects, lookup-drops,
}
use sparkwrangler.Publisher.Json.{Member, marshal_state}
use sparkwrangler.Publisher.Mqtt.Retained.{delivered}
use sparkwrangler.Publisher.Mqtt.Topics.{HasOwnTopic, topics-publish_state}
use sparkwrangler.Publisher.Mqtt.{Mqtt, Message, Payload, Delivery, announce, publish_state, will}
use sparkwrangler.Sdnotify

module _ {F : Type 0} where
  -- Two lists of actions in one, each in its own order.
  pub data Interleaves : List (Action F) → List (Action F) → List (Action F) → Type 0 where
    finished : Interleaves [] [] []
    left_first :
        {a : Action F} {xs ys zs : List (Action F)}
        → Interleaves xs ys zs
        → Interleaves (a ∷ xs) ys (a ∷ zs)
    right_first :
        {a : Action F} {xs ys zs : List (Action F)}
        → Interleaves xs ys zs
        → Interleaves xs (a ∷ ys) (a ∷ zs)

  pub swapped : {xs ys zs : List (Action F)} → Interleaves xs ys zs → Interleaves ys xs zs
  swapped finished = finished
  swapped (left_first i) = right_first (swapped i)
  swapped (right_first i) = left_first (swapped i)

  left_alone : (xs : List (Action F)) → Interleaves xs [] xs
  left_alone [] = finished
  left_alone (a ∷ xs) = left_first (left_alone xs)

  pub left_prefix :
      (front : List (Action F)) {xs ys zs : List (Action F)}
      → Interleaves xs ys zs
      → Interleaves (front ++ xs) ys (front ++ zs)
  left_prefix [] i = i
  left_prefix (a ∷ front) i = left_first (left_prefix front i)

  right_prefix :
      (front : List (Action F)) {xs ys zs : List (Action F)}
      → Interleaves xs ys zs
      → Interleaves xs (front ++ ys) (front ++ zs)
  right_prefix [] i = i
  right_prefix (a ∷ front) i = right_first (right_prefix front i)

  pub right_before : {xs : List (Action F)} (ys : List (Action F)) → Interleaves xs ys (ys ++ xs)
  right_before [] = left_alone _
  right_before (a ∷ ys) = right_first (right_before ys)

  -- The passes and the callbacks of a list of events.
  unfoldable pub rounds_of : List (Event F) → List (Round F)
  rounds_of [] = []
  rounds_of (ticks r ∷ es) = r ∷ rounds_of es
  rounds_of (connects d ∷ es) = rounds_of es
  rounds_of (drops ∷ es) = rounds_of es

  unfoldable pub callbacks_of : List (Event F) → List (Callback F)
  callbacks_of [] = []
  callbacks_of (ticks r ∷ es) = callbacks_of es
  callbacks_of (connects d ∷ es) = connected d ∷ callbacks_of es
  callbacks_of (drops ∷ es) = lost ∷ callbacks_of es

module _ {F : Type 0} ⦃fl : Float F⦄ where
  -- The sequence of a loop with its callbacks between the passes is one of the interleavings.
  pub poll-Interleaves :
      (n : Node) (dev : Device) (socket : Bytes → Bool) (es : List (Event F)) (l : Loop F)
      → Interleaves
          (poll n dev socket l (map ticks (rounds_of es)))
          (called dev n.mqtt (callbacks_of es))
          (poll n dev socket l es)
  unfolding poll called rounds_of callbacks_of
  poll-Interleaves n dev socket [] l = left_alone _
  poll-Interleaves n dev socket (ticks r ∷ es) l =
      left_prefix (pass n r l) (poll-Interleaves n dev socket es (after_pass n r l))
  poll-Interleaves n dev socket (connects d ∷ es) l =
      right_prefix (sent d (announce d dev n.mqtt).messages) (poll-Interleaves n dev socket es l)
  poll-Interleaves n dev socket (drops ∷ es) l = right_first (poll-Interleaves n dev socket es l)
