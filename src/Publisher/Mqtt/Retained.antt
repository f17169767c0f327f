-- ===== src/Publisher/Mqtt/Retained.antt =====
-- What the broker retains on a node's availability topic after one operation of the transport.
pub mod Documents
use sparkwrangler.Base.{
  ◌&&◌, Bool, true, false, Option, none, some, List, [], ◌∷◌, ◌++◌, ◌≡◌, refl, if◌then◌else◌, Bytes,
  Dict, insert, lookup, lookup-insert, equal, equal_refl, ap, ◌∙◌, Bool-cases, inl, inr,
}
use sparkwrangler.Discovery.Device.{Device}
use sparkwrangler.Float.{Float}
use sparkwrangler.Publisher.Json.{Member, marshal_state}
use sparkwrangler.Publisher.Mqtt.{
  Mqtt, MqttError, discovery_config, Message, Payload, raw, discovery, Token, completed, failed,
  timed_out, Delivery, Sent, announce, close, publish_state, publish_document, publish, message,
  then_send, then_messages, publish_error, payload_online, payload_offline,
}
use sparkwrangler.Publisher.Mqtt.Topics.{HasOwnTopic}
use sparkwrangler.Publisher.State.{State}

abbrev pub delivered : Token → Bool
delivered completed = true
delivered failed = false
delivered timed_out = false

publish_ok : (t : Token) → publish_error t ≡ none → delivered t ≡ true
unfolding publish_error
publish_ok completed h = refl
publish_ok failed h = cc
publish_ok timed_out h = cc

publish_failed_lem : (t : Token) {x : MqttError} → publish_error t ≡ some x → delivered t ≡ false
unfolding publish_error
publish_failed_lem completed h = cc
publish_failed_lem failed h = refl
publish_failed_lem timed_out h = refl

module _ {F : Type 0} where
  -- The retained messages of a broker after some more messages: it keeps those that were delivered and
  -- ask to be retained, the last of each topic.
  unfoldable pub retain_all : Delivery F → Dict (Payload F) → List (Message F) → Dict (Payload F)
  retain_all d b [] = b
  retain_all d b (m ∷ ms) =
      retain_all d (if m.retain && delivered (d m) then insert m.topic m.payload b else b) ms

  lookup-retain_all :
      (d : Delivery F) (b : Dict (Payload F)) (m : Message F) (k : Bytes)
      → equal m.topic k ≡ false
      → lookup k (retain_all d b (m ∷ [])) ≡ lookup k b
  unfolding retain_all
  lookup-retain_all d b m k h = elim (Bool-cases (m.retain && delivered (d m))) [
    | inl kept ↦ rw kept (lookup-insert m.topic k m.payload b ∙ rw h)
    | inr lost ↦ rw lost
  ]

  lookup-publish :
      (d : Delivery F) (b : Dict (Payload F)) (p : Mqtt) (topic : Bytes) (payload : Payload F)
      → (publish d p topic payload).error ≡ none
      → lookup topic (retain_all d b (publish d p topic payload).messages) ≡ some payload
  unfolding publish message retain_all
  lookup-publish d b p topic payload h =
      rw (publish_ok _ h) (lookup-insert topic topic payload b ∙ rw (equal_refl topic))

  then_messages_ok :
      (ms : List (Message F)) (e : Option MqttError) (next : Sent F)
      → (then_messages ms e next).error ≡ none
      → ((then_messages ms e next).messages ≡ ms ++ next.messages) × (next.error ≡ none)
  unfolding then_messages
  then_messages_ok ms none next h = (refl, h)
  then_messages_ok ms (some e) next h = cc

  then_send_ok :
      (first next : Sent F)
      → (then_send first next).error ≡ none
      → ((then_send first next).messages ≡ first.messages ++ next.messages) × (next.error ≡ none)
  unfolding then_send
  then_send_ok first next h = then_messages_ok first.messages first.error next h

  retain_all-append :
      (d : Delivery F) (ms ns : List (Message F)) (b : Dict (Payload F))
      → retain_all d b (ms ++ ns) ≡ retain_all d (retain_all d b ms) ns
  unfolding retain_all
  retain_all-append d [] ns b = refl
  retain_all-append d (m ∷ ms) ns b =
      retain_all-append d ms ns
        (if m.retain && delivered (d m) then insert m.topic m.payload b else b)

  pub lookup-announce :
      (d : Delivery F) (b : Dict (Payload F)) (dev : Device) (p : Mqtt)
      → (announce d dev p).error ≡ none
      → lookup p.avail_topic (retain_all d b (announce d dev p).messages)
        ≡ some (raw payload_online)
  unfolding announce
  lookup-announce d b dev p h =
      let (e, k) =
        then_send_ok (publish d p p.disco_topic _) (publish d p p.avail_topic (raw payload_online))
          h in
      ap (λ ms. lookup p.avail_topic (retain_all d b ms)) e
      ∙ ap (lookup p.avail_topic) (
          retain_all-append d
            (publish d p p.disco_topic (discovery (discovery_config dev p))).messages _ b)
      ∙ lookup-publish d _ p p.avail_topic (raw payload_online) k

  lookup-publish_failed :
      (d : Delivery F) (b : Dict (Payload F)) (p : Mqtt) (topic : Bytes) (payload : Payload F)
      {x : MqttError}
      → (publish d p topic payload).error ≡ some x
      → lookup topic (retain_all d b (publish d p topic payload).messages) ≡ lookup topic b
  unfolding publish message retain_all
  lookup-publish_failed d b p topic payload h = rw (publish_failed_lem _ h)

  lookup-discovery :
      (d : Delivery F) (b : Dict (Payload F)) (p : Mqtt) (payload : Payload F)
      → HasOwnTopic p
      → lookup p.avail_topic (retain_all d b (publish d p p.disco_topic payload).messages)
        ≡ lookup p.avail_topic b
  unfolding publish message
  lookup-discovery d b p payload own = lookup-retain_all d b _ p.avail_topic own.not_discovery

  lookup-then_messages :
      (d : Delivery F) (b : Dict (Payload F)) (p : Mqtt) (ms : List (Message F))
      (e : Option MqttError) {x : MqttError}
      → lookup p.avail_topic (retain_all d b ms) ≡ lookup p.avail_topic b
      → (then_messages ms e (publish d p p.avail_topic (raw payload_online))).error ≡ some x
      → lookup p.avail_topic (
          retain_all d b
            (then_messages ms e (publish d p p.avail_topic (raw payload_online))).messages)
        ≡ lookup p.avail_topic b
  unfolding then_messages
  lookup-then_messages d b p ms none k h =
      ap (lookup p.avail_topic) (retain_all-append d ms _ b)
      ∙ lookup-publish_failed d (retain_all d b ms) p p.avail_topic (raw payload_online) h
      ∙ k
  lookup-then_messages d b p ms (some e) k h = k

  -- An announcement that fails leaves what is retained on the availability topic.
  pub lookup-announce_failed :
      (d : Delivery F) (b : Dict (Payload F)) (dev : Device) (p : Mqtt) {x : MqttError}
      → HasOwnTopic p
      → (announce d dev p).error ≡ some x
      → lookup p.avail_topic (retain_all d b (announce d dev p).messages) ≡ lookup p.avail_topic b
  unfolding announce then_send
  lookup-announce_failed d b dev p own h =
      lookup-then_messages d b p _ _ (lookup-discovery d b p _ own) h

  -- The last message of a shutdown, if it is delivered and if it is not.
  pub lookup-close :
      (d : Delivery F) (b : Dict (Payload F)) (p : Mqtt)
      → (close d p).error ≡ none
      → lookup p.avail_topic (retain_all d b (close d p).messages) ≡ some (raw payload_offline)
  unfolding close
  lookup-close d b p h = lookup-publish d b p p.avail_topic (raw payload_offline) h

  pub lookup-close_failed :
      (d : Delivery F) (b : Dict (Payload F)) (p : Mqtt) {x : MqttError}
      → (close d p).error ≡ some x
      → lookup p.avail_topic (retain_all d b (close d p).messages) ≡ lookup p.avail_topic b
  unfolding close
  lookup-close_failed d b p h = lookup-publish_failed d b p p.avail_topic (raw payload_offline) h

  lookup-publish_document :
      (d : Delivery F) (b : Dict (Payload F)) (p : Mqtt) (o : Option (List (Member F)))
      → HasOwnTopic p
      → lookup p.avail_topic (retain_all d b (publish_document d p o).messages)
        ≡ lookup p.avail_topic b
  unfolding publish_document
  lookup-publish_document d b p none h = unfold retain_all in refl
  lookup-publish_document d b p (some ms) h =
      unfold publish message in lookup-retain_all d b _ p.avail_topic h.not_state

module _ {F : Type 0} ⦃fl : Float F⦄ where
  pub lookup-publish_state :
      (d : Delivery F) (b : Dict (Payload F)) (p : Mqtt) (s : State F)
      → HasOwnTopic p
      → lookup p.avail_topic (retain_all d b (publish_state d p s).messages)
        ≡ lookup p.avail_topic b
  unfolding publish_state
  lookup-publish_state d b p s = lookup-publish_document d b p (marshal_state s)
