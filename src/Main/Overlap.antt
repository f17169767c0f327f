-- ===== src/Main/Overlap.antt =====
-- A shutdown that an announcement of the broker's client overlaps.
use sparkwrangler.Base.{
  none, some, List, [], ◌∷◌, ◌++◌, ◌≡◌, refl, ◌∙◌, ap, if◌then◌else◌, Dict, lookup,
}
use sparkwrangler.Discovery.Device.{Device}
use sparkwrangler.Main.Interleaving.{Interleaves, left_prefix, right_before}
use sparkwrangler.Main.Poll.{Action, releases, disconnects, sent}
use sparkwrangler.Main.Presence.{retained, retained-append, lookup-connects}
use sparkwrangler.Main.Run.Shutdown.{lookup-closing}
use sparkwrangler.Main.Run.{Ending, closing}
use sparkwrangler.Publisher.Mqtt.Topics.{HasOwnTopic}
use sparkwrangler.Publisher.Mqtt.{
  Mqtt, Payload, raw, Delivery, announce, close, payload_online, payload_offline,
}
use sparkwrangler.Sdnotify
use sparkwrangler.Sdnotify.{Notifier}

module _ {F : Type 0} where
  retained-disconnects : (b : Dict (Payload F)) → retained b (disconnects ∷ []) ≡ b
  unfolding retained
  retained-disconnects b = refl

  -- The shutdown with an announcement between its offline message and its disconnection.
  abbrev pub overlapped : Ending F → Mqtt → Device → Delivery F → List (Action F)
  overlapped e p dev d =
      sent e.delivery (close e.delivery p).messages
      ++ (sent d (announce d dev p).messages ++ disconnects ∷ [])

  -- An announcement and a shutdown of which every message is delivered. One after the other they leave
  -- the node offline. But some interleaving of the two ends with the shutdown's offline message, then the
  -- announcement, then the shutdown's disconnection, and it leaves the node online.
  pub closing-overlapped :
      (e : Ending F) (p : Mqtt) (sd : Notifier) (dev : Device) (d : Delivery F)
      (b : Dict (Payload F))
      → HasOwnTopic p
      → (announce d dev p).error ≡ none
      → (close e.delivery p).error ≡ none
      → (lookup p.avail_topic (retained b (sent d (announce d dev p).messages ++ closing e p sd))
          ≡ some (raw payload_offline))
        × (front : List (Action F)) × Interleaves
            (closing e p sd)
            (sent d (announce d dev p).messages)
            (front ++ overlapped e p dev d)
        × (lookup p.avail_topic (retained b (front ++ overlapped e p dev d))
            ≡ some (raw payload_online))
  closing-overlapped e p sd dev d b own h shut =
      let freed = if (Sdnotify.close e.closes sd).released then releases ∷ [] else [] in
      let last = sent e.delivery (close e.delivery p).messages in
      let ms = sent d (announce d dev p).messages in
      (
        ap (lookup p.avail_topic) (retained-append ms (closing e p sd) b)
            ∙ lookup-closing e p sd (retained b ms)
            ∙ rw shut,
        freed,
        unfold closing in left_prefix freed (left_prefix last (right_before ms)),
        ap (lookup p.avail_topic) (
              retained-append freed (last ++ (ms ++ disconnects ∷ [])) b
              ∙ retained-append last (ms ++ disconnects ∷ []) (retained b freed)
              ∙ retained-append ms (disconnects ∷ []) (retained (retained b freed) last)
              ∙ retained-disconnects (retained (retained (retained b freed) last) ms))
            ∙ lookup-connects dev p d (retained (retained b freed) last) own
            ∙ rw h,
      )
