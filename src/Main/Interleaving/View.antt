-- ===== src/Main/Interleaving/View.antt =====
-- All that the broker retains of a node: its presence, its catalog and its document.
use sparkwrangler.Base.{
  Bool, false, Option, some, List, [], ◌∷◌, map, ◌≡◌, refl, ◌∙◌, ap, if◌then◌else◌, Bytes, Dict,
  lookup, equal, All, All-append, is_some, Bool-cases, inl, inr,
}
use sparkwrangler.Discovery.Device.{Device}
use sparkwrangler.Float.{Float}
use sparkwrangler.Main.Callbacks.{Callback, connected, lost, event, called}
use sparkwrangler.Main.Interleaving.Presence.{
  Leaves, lookup-keep, lookup-Interleaves, sent-Leaves, publishes-Leaves, lookup-interleaved,
}
use sparkwrangler.Main.Interleaving.{Interleaves, swapped}
use sparkwrangler.Main.Observe.{Round, Node}
use sparkwrangler.Main.Passes.{ticks-All}
use sparkwrangler.Main.Poll.{
  Action, expires, sent, Loop, is_due, ticks, pass, after_pass, publication, observed, poll,
}
use sparkwrangler.Main.Presence.{
  retained, retained-append, retained-sent, retained-notified, after_events,
}
use sparkwrangler.Publisher.Json.{members}
use sparkwrangler.Publisher.Mqtt.Retained.Documents.{
  first_delivered, topics-announce, lookup-announce_catalog, lookup-publish_state_document,
  equal_sym,
}
use sparkwrangler.Publisher.Mqtt.Topics.{HasOwnTopic}
use sparkwrangler.Publisher.Mqtt.{
  Mqtt, Payload, discovery, state, discovery_config, announce, publish_state, will,
}

-- What a broker retains of a node.
pub record View (F : Type 0) : Type 0 where
  pub presence : Option (Payload F)
  pub catalog : Option (Payload F)
  pub document : Option (Payload F)

will-Leaves :
    (F : Type 0) (p : Mqtt) (k : Bytes)
    → equal p.avail_topic k ≡ false
    → Leaves k (expires (will {F = F} p))
unfolding will
will-Leaves F p k h = h

module _ {F : Type 0} where
  abbrev pub view : Mqtt → Dict (Payload F) → View F
  view p b = record {
    presence = lookup p.avail_topic b;
    catalog = lookup p.disco_topic b;
    document = lookup p.state_topic b;
  }

  -- The catalog is that of the node from the first announcement on that delivers it.
  abbrev pub after_catalogs :
      Device → Mqtt → Option (Payload F) → List (Callback F) → Option (Payload F)
  after_catalogs dev p o [] = o
  after_catalogs dev p o (connected d ∷ cs) =
      after_catalogs dev p
        (if first_delivered d (announce d dev p).messages
          then some (discovery (discovery_config dev p))
          else o)
        cs
  after_catalogs dev p o (lost ∷ cs) = after_catalogs dev p o cs

  lookup-lost :
      (p : Mqtt) (k : Bytes) (b : Dict (Payload F))
      → equal p.avail_topic k ≡ false
      → lookup k (retained b (expires (will p) ∷ [])) ≡ lookup k b
  unfolding retained
  lookup-lost p k b h = lookup-keep k (expires (will p)) b (will-Leaves F p k h)

  pub lookup-called_catalog :
      (dev : Device) (p : Mqtt) (cs : List (Callback F)) (b : Dict (Payload F))
      → HasOwnTopic p
      → lookup p.disco_topic (retained b (called dev p cs))
        ≡ after_catalogs dev p (lookup p.disco_topic b) cs
  unfolding called
  lookup-called_catalog dev p [] b own = unfold retained in refl
  lookup-called_catalog dev p (connected d ∷ cs) b own =
      let acts = sent d (announce d dev p).messages in
      ap (lookup p.disco_topic) (retained-append acts _ b)
      ∙ lookup-called_catalog dev p cs (retained b acts) own
      ∙ ap (λ o. after_catalogs dev p o cs)
          (ap (lookup p.disco_topic) (retained-sent d (announce d dev p).messages b)
            ∙ lookup-announce_catalog d b dev p own)
  lookup-called_catalog dev p (lost ∷ cs) b own =
      let acts = expires (will p) ∷ [] in
      ap (lookup p.disco_topic) (retained-append acts _ b)
      ∙ lookup-called_catalog dev p cs (retained b acts) own
      ∙ ap (λ o. after_catalogs dev p o cs)
          (lookup-lost p p.disco_topic b (equal_sym p.disco_topic p.avail_topic own.not_discovery))

  pub called-Leaves :
      (dev : Device) (p : Mqtt) (cs : List (Callback F))
      → HasOwnTopic p
      → All (Leaves p.state_topic) (called dev p cs)
  unfolding called
  called-Leaves dev p [] own = tt
  called-Leaves dev p (connected d ∷ cs) own =
      All-append (Leaves p.state_topic) (sent d (announce d dev p).messages) _
        (sent-Leaves p.state_topic d _ (topics-announce d dev p own)) (called-Leaves dev p cs own)
  called-Leaves dev p (lost ∷ cs) own = (
    will-Leaves F p p.state_topic (equal_sym p.state_topic p.avail_topic own.not_state),
    called-Leaves dev p cs own,
  )

module _ {F : Type 0} ⦃fl : Float F⦄ where
  -- The document is that of the last pass that was due and whose publication succeeded.
  abbrev pub after_pass_document : Node → Loop F → Option (Payload F) → Round F → Option (Payload F)
  after_pass_document n l o r =
      let s = (observed n r l).0 in
      if is_due r.now l.next_publish
      then (if is_some (publish_state r.delivery n.mqtt s).error
          then o
          else some (state (members s)))
      else o

  abbrev pub after_rounds : Node → Loop F → Option (Payload F) → List (Round F) → Option (Payload F)
  after_rounds n l o [] = o
  after_rounds n l o (r ∷ rs) = after_rounds n (after_pass n r l) (after_pass_document n l o r) rs

  lookup-pass_document :
      (n : Node) (r : Round F) (l : Loop F) (b : Dict (Payload F))
      → lookup n.mqtt.state_topic (retained b (pass n r l))
        ≡ after_pass_document n l (lookup n.mqtt.state_topic b) r
  unfolding pass publication
  lookup-pass_document n r l b =
      let s = (observed n r l).0 in
      ap (lookup n.mqtt.state_topic) (
        retained-append (if is_due r.now l.next_publish then publication n r l else []) _ b
        ∙ retained-notified _ _)
      ∙ elim (Bool-cases (is_due r.now l.next_publish)) [
        | inl due ↦ rw due (
            ap (lookup n.mqtt.state_topic) (
              retained-append (sent r.delivery (publish_state r.delivery n.mqtt s).messages) _ b
              ∙ retained-notified _ _
              ∙ retained-sent r.delivery _ b)
            ∙ lookup-publish_state_document r.delivery b n.mqtt s)
        | inr early ↦ rw early (unfold retained in refl)
      ]

  lookup-rounds :
      (n : Node) (dev : Device) (socket : Bytes → Bool) (rs : List (Round F)) (l : Loop F)
      (b : Dict (Payload F))
      → lookup n.mqtt.state_topic (retained b (poll n dev socket l (map ticks rs)))
        ≡ after_rounds n l (lookup n.mqtt.state_topic b) rs
  unfolding poll
  lookup-rounds n dev socket [] l b = ap (lookup n.mqtt.state_topic) (retained-notified _ b)
  lookup-rounds n dev socket (r ∷ rs) l b =
      ap (lookup n.mqtt.state_topic) (retained-append (pass n r l) _ b)
      ∙ lookup-rounds n dev socket rs (after_pass n r l) (retained b (pass n r l))
      ∙ ap (λ o. after_rounds n (after_pass n r l) o rs) (lookup-pass_document n r l b)

  pub lookup-catalog :
      (n : Node) (dev : Device) (socket : Bytes → Bool) (rs : List (Round F)) (l : Loop F)
      (cs : List (Callback F)) (b : Dict (Payload F)) {acts : List (Action F)}
      → HasOwnTopic n.mqtt
      → Interleaves (poll n dev socket l (map ticks rs)) (called dev n.mqtt cs) acts
      → lookup n.mqtt.disco_topic (retained b acts)
        ≡ after_catalogs dev n.mqtt (lookup n.mqtt.disco_topic b) cs
  lookup-catalog n dev socket rs l cs b own i =
      lookup-Interleaves n.mqtt.disco_topic b b i
        (ticks-All (Leaves n.mqtt.disco_topic) (λ d. tt) n dev socket
          (λ r k. publishes-Leaves n r k n.mqtt.disco_topic own.not_catalog) rs l)
        refl
      ∙ lookup-called_catalog dev n.mqtt cs b own

  pub lookup-document :
      (n : Node) (dev : Device) (socket : Bytes → Bool) (rs : List (Round F)) (l : Loop F)
      (cs : List (Callback F)) (b : Dict (Payload F)) {acts : List (Action F)}
      → HasOwnTopic n.mqtt
      → Interleaves (poll n dev socket l (map ticks rs)) (called dev n.mqtt cs) acts
      → lookup n.mqtt.state_topic (retained b acts)
        ≡ after_rounds n l (lookup n.mqtt.state_topic b) rs
  lookup-document n dev socket rs l cs b own i =
      lookup-Interleaves n.mqtt.state_topic b b (swapped i) (called-Leaves dev n.mqtt cs own) refl
      ∙ lookup-rounds n dev socket rs l b

  -- The poll loop and the callbacks refine three automata that know nothing of each other: however their
  -- messages interleave and whichever are lost, what the broker retains of a node whose topics are its own
  -- is the presence that the connections and losses say, the catalog from the first announcement on that
  -- delivers it, and the document of the last pass that was due and whose publication succeeded.
  pub view-interleaved :
      (n : Node) (dev : Device) (socket : Bytes → Bool) (rs : List (Round F)) (l : Loop F)
      (cs : List (Callback F)) (b : Dict (Payload F)) {acts : List (Action F)}
      → HasOwnTopic n.mqtt
      → Interleaves (poll n dev socket l (map ticks rs)) (called dev n.mqtt cs) acts
      → view n.mqtt (retained b acts) ≡ record {
        presence = after_events dev n.mqtt (lookup n.mqtt.avail_topic b) (map event cs);
        catalog = after_catalogs dev n.mqtt (lookup n.mqtt.disco_topic b) cs;
        document = after_rounds n l (lookup n.mqtt.state_topic b) rs;
      }
  view-interleaved n dev socket rs l cs b own i = rw (
    lookup-interleaved n dev socket rs l cs b own i,
    lookup-catalog n dev socket rs l cs b own i,
    lookup-document n dev socket rs l cs b own i,
  )
