-- ===== src/Main/Poll.antt =====
-- `poll` of cmd/sparkwrangler/main.go: the passes of the loop, and what the broker's client does between
-- them, as one sequence of events.
use sparkwrangler.Base.Int.{ℤ, ltb_ℤ, ◌+ℤ◌, ◌-ℤ◌}
use sparkwrangler.Base.{
  Bool, true, not, Option, none, some, List, [], ◌∷◌, ◌++◌, if◌then◌else◌, Bytes,
}
use sparkwrangler.Discovery.Device.{Device}
use sparkwrangler.Float.{Float}
use sparkwrangler.Main.Observe.{Round, Node, observe}
use sparkwrangler.Main.Status.{status_line}
use sparkwrangler.Publisher.Mqtt.{Message, Token, Delivery, announce, publish_state, will}
use sparkwrangler.Publisher.State.{State}
use sparkwrangler.Sdnotify
use sparkwrangler.Vllm.Reading.{Reading}

-- What happens to the world, in order: a message is given to the broker's client, which completes it or
-- does not; a datagram is given to systemd's socket; the broker publishes the will; at the end the socket
-- is released and the client disconnects.
pub data Action (F : Type 0) : Type 0 where
  sends : Message F → Token → Action F
  notifies : Bytes → Action F
  expires : Message F → Action F
  releases : Action F
  disconnects : Action F

module _ {F : Type 0} where
  unfoldable pub sent : Delivery F → List (Message F) → List (Action F)
  sent d [] = []
  sent d (m ∷ ms) = sends m (d m) ∷ sent d ms

  unfoldable pub notified : List Bytes → List (Action F)
  notified [] = []
  notified (d ∷ ds) = notifies d ∷ notified ds

-- The variables of the loop; the zero time, which no present time is before, is `none`.
pub record Loop (F : Type 0) : Type 0 where
  pub prev : Option (Reading F)
  pub prev_at : ℤ
  pub next_publish : Option ℤ

abbrev pub start : {F : Type 0} → ℤ → Loop F
start now = record { prev = none; prev_at = now; next_publish = none }

-- `!now.Before(nextPublish)`
abbrev pub is_due : ℤ → Option ℤ → Bool
is_due now none = true
is_due now (some t) = not (ltb_ℤ now t)

-- A pass of the loop, with the answers that it gets; a connection of the client, which calls `OnConnect`;
-- and a connection that the broker finds lost.
pub data Event (F : Type 0) : Type 0 where
  ticks : Round F → Event F
  connects : Delivery F → Event F
  drops : Event F

module _ {F : Type 0} ⦃fl : Float F⦄ where
  -- The state that a pass publishes, with the reading that it keeps.
  unfoldable pub observed : Node → Round F → Loop F → State F × Reading F
  observed n r l = observe n r l.prev (r.now -ℤ l.prev_at)

  -- The branch of a pass that publishes.
  unfoldable pub publication : Node → Round F → Loop F → List (Action F)
  unfolding observed
  publication n r l =
      let s = (observed n r l).0 in
      sent r.delivery (publish_state r.delivery n.mqtt s).messages
      ++ notified (Sdnotify.status r.socket n.notifier (status_line s)).datagrams

  -- The actions of a pass of the loop, up to its `select`.
  unfoldable pub pass : Node → Round F → Loop F → List (Action F)
  unfolding publication
  pass n r l =
      (if is_due r.now l.next_publish then publication n r l else [])
      ++ notified (Sdnotify.watchdog r.socket n.notifier).datagrams

  -- The variables of the loop after a pass.
  unfoldable pub after_pass : Node → Round F → Loop F → Loop F
  unfolding observed
  after_pass n r l =
      if is_due r.now l.next_publish
      then record {
        prev = some (observed n r l).1;
        prev_at = r.now;
        next_publish = some (r.now +ℤ n.interval);
      }
      else l

  -- `poll`, with the calls of `OnConnect` among its passes: a pass at the start and at each tick, and the
  -- end once the context is done after the last.
  unfoldable pub poll : Node → Device → (Bytes → Bool) → Loop F → List (Event F) → List (Action F)
  unfolding pass after_pass
  poll n dev socket l [] = notified (Sdnotify.stopping socket n.notifier).datagrams
  poll n dev socket l (ticks r ∷ es) = pass n r l ++ poll n dev socket (after_pass n r l) es
  poll n dev socket l (connects d ∷ es) =
      sent d (announce d dev n.mqtt).messages ++ poll n dev socket l es
  poll n dev socket l (drops ∷ es) = expires (will n.mqtt) ∷ poll n dev socket l es
