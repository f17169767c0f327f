-- ===== src/Publisher/Mqtt/Contract.antt =====
-- What the transport says to the broker, under which topics.
use sparkwrangler.Base.{
  true, Option, none, some, List, [], ◌∷◌, ◌≡◌, refl, Bytes, All, All-append, one_of, Bool-cases,
  inl, inr,
}
use sparkwrangler.Discovery.Device.{Device}
use sparkwrangler.Discovery.Sensors.Contract.{readers}
use sparkwrangler.Discovery.Sensors.Typing.{readers_of, fits, sensors-fits}
use sparkwrangler.Discovery.Sensors.{sensors}
use sparkwrangler.Float.{Float}
use sparkwrangler.Publisher.Json.Kinds.{kind}
use sparkwrangler.Publisher.Json.{members, encodable, marshal_state}
use sparkwrangler.Publisher.Mqtt.{
  Mqtt, Message, Payload, raw, discovery, state, Delivery, Sent, MqttError, announce, publish,
  publish_document, publish_state, message, close, then_send, then_messages, will, payload_online,
  payload_offline, discovery_config,
}
use sparkwrangler.Publisher.State.{State}

module _ {F : Type 0} ⦃fl : Float F⦄ where
  -- What a node may say under a topic: its presence, the catalog with the topics that it names, and
  -- documents that the encoder accepts, of which exactly one component of that catalog reads each
  -- member and fits its value.
  abbrev pub IsSaid : Mqtt → Bytes → Payload F → Type 0
  IsSaid p topic (raw s) =
      (topic ≡ p.avail_topic) × (one_of s (payload_online ∷ payload_offline ∷ []) ≡ true)
  IsSaid p topic (discovery c) =
      (topic ≡ p.disco_topic)
      × (c.components ≡ sensors p.node_id p.with_vllm)
      × (c.state_topic ≡ p.state_topic)
      × (c.availability_topic ≡ p.avail_topic)
  IsSaid p topic (state ms) =
      (topic ≡ p.state_topic)
      × (encodable ms ≡ true)
      × All (λ m. readers m.0 (sensors p.node_id p.with_vllm) ≡ 1) ms
      × All
          (λ m.
            All (λ c. fits c (kind m.1) ≡ true) (readers_of m.0 (sensors p.node_id p.with_vllm)))
          ms

  abbrev pub IsConforming : Mqtt → Message F → Type 0
  IsConforming p m = (m.retain ≡ true) × IsSaid p m.topic m.payload

  publish-All :
      (d : Delivery F) (p : Mqtt) (topic : Bytes) (payload : Payload F)
      → IsSaid p topic payload
      → All (IsConforming p) (publish d p topic payload).messages
  unfolding publish message
  publish-All d p topic payload h = ((refl, h), tt)

  then_messages-All :
      (p : Mqtt) (ms : List (Message F)) (e : Option MqttError) (next : Sent F)
      → All (IsConforming p) ms
      → All (IsConforming p) next.messages
      → All (IsConforming p) (then_messages ms e next).messages
  unfolding then_messages
  then_messages-All p ms none next h k = All-append (IsConforming p) ms next.messages h k
  then_messages-All p ms (some e) next h k = h

  pub announce-All :
      (d : Delivery F) (dev : Device) (p : Mqtt) → All (IsConforming p) (announce d dev p).messages
  unfolding announce then_send discovery_config one_of
  announce-All d dev p =
      let first = publish d p p.disco_topic (discovery (discovery_config dev p)) in
      then_messages-All p first.messages first.error
        (publish d p p.avail_topic (raw payload_online))
        (publish-All d p p.disco_topic (discovery (discovery_config dev p))
          (refl, refl, refl, refl))
        (publish-All d p p.avail_topic (raw payload_online) (refl, refl))

  pub close-All : (d : Delivery F) (p : Mqtt) → All (IsConforming p) (close d p).messages
  unfolding close one_of
  close-All d p = publish-All d p p.avail_topic (raw payload_offline) (refl, refl)

  pub IsConforming-will : (p : Mqtt) (m : Message F) → m ≡ will p → IsConforming p m
  unfolding will one_of
  IsConforming-will p m e = rw e (refl, (refl, refl))

  pub publish_state-All :
      (d : Delivery F) (p : Mqtt) (s : State F)
      → All (λ m. readers m.0 (sensors p.node_id p.with_vllm) ≡ 1) (members s)
      → All (IsConforming p) (publish_state d p s).messages
  unfolding publish_state publish_document marshal_state
  publish_state-All d p s h = elim (Bool-cases (encodable (members s))) [
    | inl fine ↦ rw fine (
        publish-All d p p.state_topic (state (members s))
          (refl, fine, h, sensors-fits p.node_id p.with_vllm s))
    | inr special ↦ rw special tt
  ]

  -- A state that cannot be encoded is not published.
  pub publish_state-none :
      (d : Delivery F) (p : Mqtt) (s : State F)
      → marshal_state s ≡ none
      → (publish_state d p s).messages ≡ []
  unfolding publish_state publish_document
  publish_state-none d p s h = rw h
