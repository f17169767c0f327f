-- ===== src/Publisher/Mqtt/Retained/Documents.antt =====
-- What the broker retains on a node's two other topics after one operation of the transport.
use sparkwrangler.Base.{
  arith, Bool, true, false, Option, none, some, List, [], ◌∷◌, ◌≡◌, refl, sym, ◌∙◌, ap,
  if◌then◌else◌, Bytes, Dict, lookup, lookup-insert, equal, equal_refl, equal_iff, All, All-append,
  is_some, Bool-cases, inl, inr,
}
use sparkwrangler.Discovery.Device.{Device}
use sparkwrangler.Float.{Float}
use sparkwrangler.Publisher.Json.{Member, marshal_state, members, encodable}
use sparkwrangler.Publisher.Mqtt.Retained.{
  delivered, retain_all, retain_all-append, lookup-retain_all,
}
use sparkwrangler.Publisher.Mqtt.Topics.{HasOwnTopic}
use sparkwrangler.Publisher.Mqtt.{
  Mqtt, MqttError, discovery_config, Message, Payload, raw, discovery, state, Token, completed,
  failed, timed_out, Delivery, Sent, announce, publish_state, publish_document, publish, message,
  then_send, then_messages, publish_error, payload_online,
}
use sparkwrangler.Publisher.State.{State}

pub equal_sym : (s t : Bytes) → equal s t ≡ false → equal t s ≡ false
equal_sym s t h = ground (arith, equal_iff s t, equal_iff t s)

module _ {F : Type 0} where
  -- Whether the first of some messages is delivered.
  abbrev pub first_delivered : Delivery F → List (Message F) → Bool
  first_delivered d [] = false
  first_delivered d (m ∷ ms) = delivered (d m)

  lookup-then_messages :
      (d : Delivery F) (b : Dict (Payload F)) (p : Mqtt) (k : Bytes) (m : Message F)
      (e : Option MqttError)
      → equal p.avail_topic k ≡ false
      → lookup k (
          retain_all d b
            (then_messages (m ∷ []) e (publish d p p.avail_topic (raw payload_online))).messages)
        ≡ lookup k (retain_all d b (m ∷ []))
  unfolding then_messages
  lookup-then_messages d b p k m none h =
      ap (lookup k) (retain_all-append d (m ∷ []) _ b)
      ∙ (unfold publish message in lookup-retain_all d (retain_all d b (m ∷ [])) _ k h)
  lookup-then_messages d b p k m (some x) h = refl

  first_delivered-then_messages :
      (d : Delivery F) (m : Message F) (e : Option MqttError) (next : Sent F)
      → first_delivered d (then_messages (m ∷ []) e next).messages ≡ delivered (d m)
  unfolding then_messages
  first_delivered-then_messages d m none next = refl
  first_delivered-then_messages d m (some x) next = refl

  lookup-message :
      (d : Delivery F) (b : Dict (Payload F)) (p : Mqtt) (topic : Bytes) (payload : Payload F)
      → lookup topic (retain_all d b (message p topic payload ∷ []))
        ≡ (if delivered (d (message p topic payload)) then some payload else lookup topic b)
  unfolding retain_all message
  lookup-message d b p topic payload = elim (Bool-cases (delivered (d (message p topic payload)))) [
    | inl kept ↦ rw kept (lookup-insert topic topic payload b ∙ rw (equal_refl topic))
    | inr lost ↦ rw lost
  ]

  -- The catalog is retained if its message is delivered, whatever becomes of the presence behind it.
  pub lookup-announce_catalog :
      (d : Delivery F) (b : Dict (Payload F)) (dev : Device) (p : Mqtt)
      → HasOwnTopic p
      → lookup p.disco_topic (retain_all d b (announce d dev p).messages) ≡ (
          if first_delivered d (announce d dev p).messages
          then some (discovery (discovery_config dev p))
          else lookup p.disco_topic b)
  unfolding announce then_send publish
  lookup-announce_catalog d b dev p own =
      let m = message p p.disco_topic (discovery (discovery_config dev p)) in
      let next = publish d p p.avail_topic (raw payload_online) in
      lookup-then_messages d b p p.disco_topic m (publish_error (d m))
        (equal_sym p.disco_topic p.avail_topic own.not_discovery)
      ∙ lookup-message d b p p.disco_topic (discovery (discovery_config dev p))
      ∙ ap (λ t. if t then some (discovery (discovery_config dev p)) else lookup p.disco_topic b)
          (sym (first_delivered-then_messages d m (publish_error (d m)) next))

  then_messages-All :
      (p : Mqtt) (k : Bytes) (ms : List (Message F)) (e : Option MqttError) (next : Sent F)
      → All (λ m. equal m.topic k ≡ false) ms
      → All (λ m. equal m.topic k ≡ false) next.messages
      → All (λ m. equal m.topic k ≡ false) (then_messages ms e next).messages
  unfolding then_messages
  then_messages-All p k ms none next h g = All-append (λ m. equal m.topic k ≡ false) ms _ h g
  then_messages-All p k ms (some x) next h g = h

  -- An announcement leaves the topic of the states.
  pub topics-announce :
      (d : Delivery F) (dev : Device) (p : Mqtt)
      → HasOwnTopic p
      → All (λ m. equal m.topic p.state_topic ≡ false) (announce d dev p).messages
  unfolding announce then_send publish message
  topics-announce d dev p own =
      then_messages-All p p.state_topic
        (publish d p p.disco_topic (discovery (discovery_config dev p))).messages
        (publish d p p.disco_topic (discovery (discovery_config dev p))).error
        (publish d p p.avail_topic (raw payload_online))
        (equal_sym p.state_topic p.disco_topic own.not_catalog, tt)
        (equal_sym p.state_topic p.avail_topic own.not_state, tt)

module _ {F : Type 0} ⦃fl : Float F⦄ where
  delivered-publish_error :
      (t : Token) (x y : Option (Payload F))
      → (if delivered t then x else y) ≡ (if is_some (publish_error t) then y else x)
  unfolding publish_error
  delivered-publish_error completed x y = refl
  delivered-publish_error failed x y = refl
  delivered-publish_error timed_out x y = refl

  lookup-publish_document :
      (d : Delivery F) (b : Dict (Payload F)) (p : Mqtt) (ms : List (Member F)) (accepted : Bool)
      → (let sent = publish_document d p (if accepted then some ms else none) in
          lookup p.state_topic (retain_all d b sent.messages)
          ≡ (if is_some sent.error then lookup p.state_topic b else some (state ms)))
  unfolding publish_document publish
  lookup-publish_document d b p ms true =
      lookup-message d b p p.state_topic (state ms)
      ∙ delivered-publish_error (d (message p p.state_topic (state ms))) (some (state ms))
          (lookup p.state_topic b)
  lookup-publish_document d b p ms false = unfold retain_all in refl

  -- The document of a state is retained exactly if its publication succeeds.
  pub lookup-publish_state_document :
      (d : Delivery F) (b : Dict (Payload F)) (p : Mqtt) (s : State F)
      → lookup p.state_topic (retain_all d b (publish_state d p s).messages) ≡ (
          if is_some (publish_state d p s).error
          then lookup p.state_topic b
          else some (state (members s)))
  unfolding publish_state marshal_state
  lookup-publish_state_document d b p s =
      lookup-publish_document d b p (members s) (encodable (members s))
