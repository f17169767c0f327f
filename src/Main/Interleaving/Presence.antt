-- ===== src/Main/Interleaving/Presence.antt =====
-- What an interleaving leaves on a node's availability topic.
use sparkwrangler.Base.{
  ◌&&◌, Bool, true, false, Option, List, [], ◌∷◌, map, ◌≡◌, refl, ◌∙◌, ap, sym, if◌then◌else◌,
  Bytes, Dict, insert, lookup, lookup-insert, equal, All, All-map,
}
use sparkwrangler.Discovery.Device.{Device}
use sparkwrangler.Float.{Float}
use sparkwrangler.Main.Callbacks.{Callback, connected, lost, event, called}
use sparkwrangler.Main.Observe.{Round, Node}
use sparkwrangler.Main.Passes.{PublishesAll, ticks-All}
use sparkwrangler.Main.Poll.{
  Action, sends, notifies, expires, releases, disconnects, sent, Loop, Event, ticks, connects,
  drops, observed, poll,
}
use sparkwrangler.Main.Presence.{
  keep, retained, retained-append, after_event, after_events, lookup-connects, lookup-drops,
}
use sparkwrangler.Publisher.Mqtt.Retained.{delivered}
use sparkwrangler.Publisher.Mqtt.Topics.{HasOwnTopic, topics-publish_state}
use sparkwrangler.Publisher.Mqtt.{Mqtt, Message, Payload, Delivery, announce, will}
use sparkwrangler.Main.Interleaving.{
  Interleaves, finished, left_first, right_first, rounds_of, callbacks_of, poll-Interleaves,
}

module _ {F : Type 0} where
  -- An action that leaves what is retained on a topic.
  abbrev pub Leaves : Bytes → Action F → Type 0
  Leaves k (sends m t) = equal m.topic k ≡ false
  Leaves k (expires m) = equal m.topic k ≡ false
  Leaves k (notifies d) = Unit
  Leaves k releases = Unit
  Leaves k disconnects = Unit

  lookup-other :
      (k : Bytes) (m : Message F) (kept : Bool) (b : Dict (Payload F))
      → equal m.topic k ≡ false
      → lookup k (if kept then insert m.topic m.payload b else b) ≡ lookup k b
  lookup-other k m true b h = lookup-insert m.topic k m.payload b ∙ rw h
  lookup-other k m false b h = refl

  pub lookup-keep :
      (k : Bytes) (a : Action F) (b : Dict (Payload F))
      → Leaves k a
      → lookup k (keep b a) ≡ lookup k b
  unfolding keep
  lookup-keep k (sends m t) b h = lookup-other k m (m.retain && delivered t) b h
  lookup-keep k (expires m) b h = lookup-other k m m.retain b h
  lookup-keep k (notifies d) b h = refl
  lookup-keep k releases b h = refl
  lookup-keep k disconnects b h = refl

  lookup-same :
      (k : Bytes) (m : Message F) (kept : Bool) (b c : Dict (Payload F))
      → lookup k b ≡ lookup k c
      → lookup k (if kept then insert m.topic m.payload b else b)
        ≡ lookup k (if kept then insert m.topic m.payload c else c)
  lookup-same k m true b c e =
      lookup-insert m.topic k m.payload b ∙ rw e (sym (lookup-insert m.topic k m.payload c))
  lookup-same k m false b c e = e

  -- What an action makes of a topic depends on nothing but what was retained there.
  lookup-keep_same :
      (k : Bytes) (a : Action F) (b c : Dict (Payload F))
      → lookup k b ≡ lookup k c
      → lookup k (keep b a) ≡ lookup k (keep c a)
  unfolding keep
  lookup-keep_same k (sends m t) b c e = lookup-same k m (m.retain && delivered t) b c e
  lookup-keep_same k (expires m) b c e = lookup-same k m m.retain b c e
  lookup-keep_same k (notifies d) b c e = e
  lookup-keep_same k releases b c e = e
  lookup-keep_same k disconnects b c e = e

  -- Actions that leave a topic can stand anywhere among others.
  pub lookup-Interleaves :
      {xs ys zs : List (Action F)} (k : Bytes) (b c : Dict (Payload F))
      → Interleaves xs ys zs
      → All (Leaves k) xs
      → lookup k b ≡ lookup k c
      → lookup k (retained b zs) ≡ lookup k (retained c ys)
  unfolding retained
  lookup-Interleaves k b c finished h e = e
  lookup-Interleaves k b c (left_first {a = a} i) h e =
      lookup-Interleaves k (keep b a) c i h.1 (lookup-keep k a b h.0 ∙ e)
  lookup-Interleaves k b c (right_first {a = a} i) h e =
      lookup-Interleaves k (keep b a) (keep c a) i h (lookup-keep_same k a b c e)

  pub lookup-Leaves :
      (k : Bytes) (acts : List (Action F)) (b : Dict (Payload F))
      → All (Leaves k) acts
      → lookup k (retained b acts) ≡ lookup k b
  unfolding retained
  lookup-Leaves k [] b h = refl
  lookup-Leaves k (a ∷ acts) b h = lookup-Leaves k acts (keep b a) h.1 ∙ lookup-keep k a b h.0

  pub sent-Leaves :
      (k : Bytes) (d : Delivery F) (ms : List (Message F))
      → All (λ m. equal m.topic k ≡ false) ms
      → All (Leaves k) (sent d ms)
  unfolding sent
  sent-Leaves k d [] h = tt
  sent-Leaves k d (m ∷ ms) h = (h.0, sent-Leaves k d ms h.1)

  -- What the callbacks alone make of the availability topic.
  lookup-called :
      (dev : Device) (p : Mqtt) (cs : List (Callback F)) (b : Dict (Payload F))
      → HasOwnTopic p
      → lookup p.avail_topic (retained b (called dev p cs))
        ≡ after_events dev p (lookup p.avail_topic b) (map event cs)
  unfolding called
  lookup-called dev p [] b own = unfold retained in refl
  lookup-called dev p (connected d ∷ cs) b own =
      let acts = sent d (announce d dev p).messages in
      ap (lookup p.avail_topic) (retained-append acts _ b)
      ∙ lookup-called dev p cs (retained b acts) own
      ∙ ap (λ o. after_events dev p o (map event cs)) (lookup-connects dev p d b own)
  lookup-called dev p (lost ∷ cs) b own =
      let acts = expires (will p) ∷ [] in
      ap (lookup p.avail_topic) (retained-append acts _ b)
      ∙ lookup-called dev p cs (retained b acts) own
      ∙ ap (λ o. after_events dev p o (map event cs)) (lookup-drops p b)

  -- The automaton takes nothing from the passes.
  pub after_events-callbacks :
      (dev : Device) (p : Mqtt) (es : List (Event F)) (o : Option (Payload F))
      → after_events dev p o (map event (callbacks_of es)) ≡ after_events dev p o es
  unfolding callbacks_of
  after_events-callbacks dev p [] o = refl
  after_events-callbacks dev p (ticks r ∷ es) o = after_events-callbacks dev p es o
  after_events-callbacks dev p (connects d ∷ es) o =
      after_events-callbacks dev p es (after_event dev p o (connects d))
  after_events-callbacks dev p (drops ∷ es) o =
      after_events-callbacks dev p es (after_event dev p o drops)

module _ {F : Type 0} ⦃fl : Float F⦄ where
  pub publishes-Leaves :
      (n : Node) (r : Round F) (l : Loop F) (k : Bytes)
      → equal n.mqtt.state_topic k ≡ false
      → PublishesAll (Leaves k) (λ d. tt) n r l
  publishes-Leaves n r l k h =
      sent-Leaves k r.delivery _
        (All-map (λ m e. rw e h) _ (topics-publish_state r.delivery n.mqtt (observed n r l).0))

  -- However the messages of the passes and those of the callbacks interleave, the presence that the broker
  -- retains is what the automaton says of the callbacks.
  pub lookup-interleaved :
      (n : Node) (dev : Device) (socket : Bytes → Bool) (rs : List (Round F)) (l : Loop F)
      (cs : List (Callback F)) (b : Dict (Payload F)) {acts : List (Action F)}
      → HasOwnTopic n.mqtt
      → Interleaves (poll n dev socket l (map ticks rs)) (called dev n.mqtt cs) acts
      → lookup n.mqtt.avail_topic (retained b acts)
        ≡ after_events dev n.mqtt (lookup n.mqtt.avail_topic b) (map event cs)
  lookup-interleaved n dev socket rs l cs b own i =
      lookup-Interleaves n.mqtt.avail_topic b b i
        (ticks-All (Leaves n.mqtt.avail_topic) (λ d. tt) n dev socket
          (λ r k. publishes-Leaves n r k n.mqtt.avail_topic own.not_state) rs l)
        refl
      ∙ lookup-called dev n.mqtt cs b own

  -- The sequence in which each announcement stands between two passes is one of them.
  lookup-poll :
      (n : Node) (dev : Device) (socket : Bytes → Bool) (es : List (Event F)) (l : Loop F)
      (b : Dict (Payload F))
      → HasOwnTopic n.mqtt
      → lookup n.mqtt.avail_topic (retained b (poll n dev socket l es))
        ≡ after_events dev n.mqtt (lookup n.mqtt.avail_topic b) es
  lookup-poll n dev socket es l b own =
      lookup-interleaved n dev socket (rounds_of es) l (callbacks_of es) b own
        (poll-Interleaves n dev socket es l)
      ∙ after_events-callbacks dev n.mqtt es (lookup n.mqtt.avail_topic b)
