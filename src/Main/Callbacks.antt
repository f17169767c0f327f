-- ===== src/Main/Callbacks.antt =====
-- The callbacks that internal/publisher/mqtt.go gives to the broker's client, which calls them on a
-- goroutine of its own.
use sparkwrangler.Base.{
  Bool, List, [], ◌∷◌, ◌++◌, map, ◌≡◌, refl, ap, sym, ◌∙◌, append_assoc, Bytes,
}
use sparkwrangler.Discovery.Device.{Device}
use sparkwrangler.Float.{Float}
use sparkwrangler.Main.Observe.{Node}
use sparkwrangler.Main.Poll.{Action, expires, sent, Event, connects, drops, Loop, poll}
use sparkwrangler.Publisher.Mqtt.{Mqtt, Delivery, announce, will}

-- `OnConnect`, and a loss, on which the broker publishes the will; `OnConnectionLost` itself only logs.
pub data Callback (F : Type 0) : Type 0 where
  connected : Delivery F → Callback F
  lost : Callback F

abbrev pub event : {F : Type 0} → Callback F → Event F
event (connected d) = connects d
event lost = drops

module _ {F : Type 0} (dev : Device) (p : Mqtt) where
  unfoldable pub called : List (Callback F) → List (Action F)
  called [] = []
  called (connected d ∷ cs) = sent d (announce d dev p).messages ++ called cs
  called (lost ∷ cs) = expires (will p) ∷ called cs

-- The callbacks of a loop are actions in front of those of the rest.
pub poll-called :
    {F : Type 0} ⦃fl : Float F⦄ (n : Node) (dev : Device) (socket : Bytes → Bool) (l : Loop F)
    (cs : List (Callback F)) (es : List (Event F))
    → poll n dev socket l (map event cs ++ es) ≡ called dev n.mqtt cs ++ poll n dev socket l es
unfolding poll called
poll-called n dev socket l [] es = refl
poll-called n dev socket l (connected d ∷ cs) es =
    ap (sent d (announce d dev n.mqtt).messages ++◌) (poll-called n dev socket l cs es)
    ∙ sym (append_assoc _ (called dev n.mqtt cs) _)
poll-called n dev socket l (lost ∷ cs) es =
    ap (expires (will n.mqtt) ∷◌) (poll-called n dev socket l cs es)
