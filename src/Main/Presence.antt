-- ===== src/Main/Presence.antt =====
-- What the broker retains of the node's presence during a run, against an automaton that knows of
-- connections and losses alone.
use sparkwrangler.Base.{
  ◌&&◌, Option, some, List, [], ◌∷◌, ◌++◌, ◌≡◌, refl, ◌∙◌, ap, if◌then◌else◌, Bytes, Dict, insert,
  lookup, lookup-insert, equal_refl, inl, inr, Option-cases, is_some,
}
use sparkwrangler.Discovery.Device.{Device}
use sparkwrangler.Main.Poll.{
  Action, sends, notifies, expires, releases, disconnects, sent, notified, Event, ticks, connects,
  drops,
}
use sparkwrangler.Publisher.Mqtt.Retained.{
  delivered, retain_all, lookup-announce, lookup-announce_failed,
}
use sparkwrangler.Publisher.Mqtt.Topics.{HasOwnTopic}
use sparkwrangler.Publisher.Mqtt.{
  Mqtt, Message, Payload, raw, Delivery, announce, will, payload_online, payload_offline,
}

module _ {F : Type 0} where
  -- The retained messages of a broker after an action, and after some.
  unfoldable pub keep : Dict (Payload F) → Action F → Dict (Payload F)
  keep b (sends m t) = if m.retain && delivered t then insert m.topic m.payload b else b
  keep b (expires m) = if m.retain then insert m.topic m.payload b else b
  keep b (notifies d) = b
  keep b releases = b
  keep b disconnects = b

  unfoldable pub retained : Dict (Payload F) → List (Action F) → Dict (Payload F)
  unfolding keep
  retained b [] = b
  retained b (a ∷ acts) = retained (keep b a) acts

  pub retained-append :
      (acts bs : List (Action F)) (b : Dict (Payload F))
      → retained b (acts ++ bs) ≡ retained (retained b acts) bs
  unfolding retained
  retained-append [] bs b = refl
  retained-append (a ∷ acts) bs b = retained-append acts bs (keep b a)

  pub retained-sent :
      (d : Delivery F) (ms : List (Message F)) (b : Dict (Payload F))
      → retained b (sent d ms) ≡ retain_all d b ms
  unfolding retained sent retain_all
  retained-sent d [] b = refl
  retained-sent d (m ∷ ms) b =
      retained-sent d ms (if m.retain && delivered (d m) then insert m.topic m.payload b else b)

  pub retained-notified : (ds : List Bytes) (b : Dict (Payload F)) → retained b (notified ds) ≡ b
  unfolding retained notified
  retained-notified [] b = refl
  retained-notified (d ∷ ds) b = retained-notified ds b

  -- The automaton: what is retained on the availability topic after an event. A connection whose
  -- announcement succeeds makes it online, a loss makes it offline, and a pass changes nothing.
  abbrev pub after_event : Device → Mqtt → Option (Payload F) → Event F → Option (Payload F)
  after_event dev p o (ticks r) = o
  after_event dev p o (connects d) =
      if is_some (announce d dev p).error then o else some (raw payload_online)
  after_event dev p o drops = some (raw payload_offline)

  abbrev pub after_events : Device → Mqtt → Option (Payload F) → List (Event F) → Option (Payload F)
  after_events dev p o [] = o
  after_events dev p o (x ∷ es) = after_events dev p (after_event dev p o x) es

  pub lookup-connects :
      (dev : Device) (p : Mqtt) (d : Delivery F) (b : Dict (Payload F))
      → HasOwnTopic p
      → lookup p.avail_topic (retained b (sent d (announce d dev p).messages))
        ≡ after_event dev p (lookup p.avail_topic b) (connects d)
  lookup-connects dev p d b own =
      ap (lookup p.avail_topic) (retained-sent d (announce d dev p).messages b)
      ∙ elim (Option-cases (announce d dev p).error) [
        | inl e ↦ rw e (lookup-announce d b dev p e)
        | inr (x, e) ↦ rw e (lookup-announce_failed d b dev p own e)
      ]

  pub lookup-drops :
      (p : Mqtt) (b : Dict (Payload F))
      → lookup p.avail_topic (retained b (expires (will p) ∷ [])) ≡ some (raw payload_offline)
  unfolding retained will
  lookup-drops p b =
      lookup-insert p.avail_topic p.avail_topic (raw payload_offline) b
      ∙ rw (equal_refl p.avail_topic)
