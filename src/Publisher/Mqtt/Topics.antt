-- ===== src/Publisher/Mqtt/Topics.antt =====
-- The topics of a node are told apart.
use sparkwrangler.Base.{
  ℕ, Option, none, some, List, All, false, [], ◌∷◌, ◌++◌, ◌≡◌, ◌≢◌, ◌==◌, arith, refl, Bytes, codes,
  equal, equal_iff, append_assoc, ap, sym, ◌∙◌, Bool-cases, inl, inr,
}
use sparkwrangler.Discovery.Device.{state_topic, availability_topic, discovery_topic}
use sparkwrangler.Publisher.Mqtt.Connect.{MqttOptions, new_topics}
use sparkwrangler.Float.{Float}
use sparkwrangler.Publisher.Json.{Member, marshal_state}
use sparkwrangler.Publisher.Mqtt.{
  Mqtt, Delivery, publish_state, publish_document, publish, message, close,
}
use sparkwrangler.Publisher.State.{State}

-- Each topic of the node carries nothing else of the node.
pub record HasOwnTopic (p : Mqtt) : Type 0 where
  pub not_state : equal p.state_topic p.avail_topic ≡ false
  pub not_discovery : equal p.disco_topic p.avail_topic ≡ false
  pub not_catalog : equal p.state_topic p.disco_topic ≡ false

-- The last byte of a text tells the topics apart.
last_byte : ℕ → Bytes → ℕ
last_byte d [] = d
last_byte d (c ∷ s) = last_byte c s

last_byte-append : (d e c : ℕ) (a s : Bytes) → last_byte d (a ++ c ∷ s) ≡ last_byte e (c ∷ s)
unfolding last_byte
last_byte-append d e c [] s = refl
last_byte-append d e c (x ∷ a) s = last_byte-append x e c a s

apart : (x y : ℕ) → (x == y) ≡ false → x ≢ y
apart x y h = λ e. ground arith

unequal_last :
    (a b : Bytes) (x y : ℕ)
    → last_byte 0 a ≡ x
    → last_byte 0 b ≡ y
    → (x == y) ≡ false
    → equal a b ≡ false
unequal_last a b x y ha hb ne = elim (Bool-cases (equal a b)) [
  | inl same ↦ absurd (apart x y ne (sym ha ∙ ap (last_byte 0) ((equal_iff a b).0 same) ∙ hb))
  | inr other ↦ other
]

last_topic :
    (x n y s : Bytes) (c e : ℕ)
    → last_byte 0 (x ++ ((c ∷ y) ++ (n ++ (e ∷ s)))) ≡ last_byte 0 (e ∷ s)
last_topic x n y s c e =
    last_byte-append 0 0 c x (y ++ (n ++ (e ∷ s)))
    ∙ ap (last_byte 0) (sym (append_assoc (c ∷ y) n (e ∷ s)))
    ∙ last_byte-append 0 0 e ((c ∷ y) ++ n) s

last-state_topic : (prefix node_id : Bytes) → last_byte 0 (state_topic prefix node_id) ≡ b'e'
unfolding state_topic last_byte
last-state_topic prefix node_id = last_topic prefix node_id [] (codes "state") b'/' b'/'

last-availability_topic :
    (prefix node_id : Bytes) → last_byte 0 (availability_topic prefix node_id) ≡ b'y'
unfolding availability_topic last_byte
last-availability_topic prefix node_id =
    last_topic prefix node_id [] (codes "availability") b'/' b'/'

last-discovery_topic :
    (prefix node_id : Bytes) → last_byte 0 (discovery_topic prefix node_id) ≡ b'g'
unfolding discovery_topic last_byte
last-discovery_topic prefix node_id =
    last_topic prefix node_id (codes "device/") (codes "config") b'/' b'/'

-- The three topics of a node that connects are told apart, whatever its name and the prefixes are.
pub new_topics-HasOwnTopic : (o : MqttOptions) → HasOwnTopic (new_topics o)
unfolding new_topics
new_topics-HasOwnTopic o = record {
  not_state =
      unequal_last _ _ b'e' b'y' (last-state_topic _ o.node_id)
        (last-availability_topic _ o.node_id) refl;
  not_discovery =
      unequal_last _ _ b'g' b'y' (last-discovery_topic _ o.node_id)
        (last-availability_topic _ o.node_id) refl;
  not_catalog =
      unequal_last _ _ b'e' b'g' (last-state_topic _ o.node_id) (last-discovery_topic _ o.node_id)
        refl;
}

-- The message of a state, if there is one, stands on the state's topic.
publish_document-All :
    {F : Type 0} (d : Delivery F) (p : Mqtt) (o : Option (List (Member F)))
    → All (λ m. m.topic ≡ p.state_topic) (publish_document d p o).messages
unfolding publish_document publish message
publish_document-All d p none = tt
publish_document-All d p (some ms) = (refl, tt)

pub topics-publish_state :
    {F : Type 0} ⦃fl : Float F⦄ (d : Delivery F) (p : Mqtt) (s : State F)
    → All (λ m. m.topic ≡ p.state_topic) (publish_state d p s).messages
unfolding publish_state
topics-publish_state d p s = publish_document-All d p (marshal_state s)

pub topics-close :
    {F : Type 0} (d : Delivery F) (p : Mqtt)
    → All (λ m. m.topic ≡ p.avail_topic) (close d p).messages
unfolding close publish message
topics-close d p = (refl, tt)
