-- ===== src/Publisher/Mqtt/Session.antt =====
-- What `NewMQTT` establishes.
use sparkwrangler.Base.{
  ℕ, true, Option, [], ◌∷◌, ◌≡◌, ◌≢◌, refl, Bytes, Result, ok, err, Bool-cases, inl, inr,
  ok_injective, sym, ap,
}
use sparkwrangler.Publisher.Mqtt.Connect.{
  MqttOptions, ClientOptions, is_set, connected, configured, validated, new_mqtt, new_topics,
  client_options,
}
use sparkwrangler.Publisher.Mqtt.{
  Mqtt, Token, completed, failed, timed_out, raw, payload_offline, will, or_default,
}
use sparkwrangler.Publisher.Mqtt.Topics.{HasOwnTopic, new_topics-HasOwnTopic}
use sparkwrangler.Publisher.Tls.{
  Trust, TlsConfig, TlsError, Url, UrlError, validate_broker_url, build_tls_config,
}

set_nonempty : (s : Bytes) → is_set s ≡ true → s ≢ []
unfolding is_set
set_nonempty [] h = cc
set_nonempty (c ∷ s) h = λ e. cc

or_default_nonempty : (s : Bytes) (c : ℕ) (d : Bytes) → or_default s (c ∷ d) ≢ []
unfolding or_default
or_default_nonempty [] c d = λ e. cc
or_default_nonempty (z ∷ s) c d = λ e. cc

module _ {F : Type 0} where
  -- A session: its address was accepted, its client has the transport's security that the options ask
  -- for, and the will that it was connected with is a retained offline on the topic that the node
  -- announces itself on.
  pub record IsSession (t : Trust) (o : MqttOptions) (connect : ClientOptions F → Token) (p : Mqtt)
      (c : ClientOptions F) : Type 0 where
    pub named : o.node_id ≢ []
    pub address : Url
    pub accepted : validate_broker_url t o.broker_url ≡ ok address
    pub secured : build_tls_config t o.broker_url o.tls ≡ ok c.tls_config
    pub established : connect c ≡ completed
    pub node : p.node_id ≡ o.node_id
    pub engine : p.with_vllm ≡ o.with_vllm
    pub topics : HasOwnTopic p
    pub client : c.client_id ≢ []
    pub testament : c.will ≡ record {
      topic = p.avail_topic;
      payload = raw payload_offline;
      qos = p.qos;
      retain = true;
    }

  connected_ok :
      (o : MqttOptions) (c : Option TlsConfig) (k : Token) {p : Mqtt} {co : ClientOptions F}
      → connected o c k ≡ ok (p, co)
      → (k ≡ completed) × (p ≡ new_topics o) × (co ≡ client_options o c)
  unfolding connected
  connected_ok o c completed h =
      let e = ok_injective h in
      (
        refl,
        sym (ap (λ (s : Mqtt × ClientOptions F). s.0) e),
        sym (ap (λ (s : Mqtt × ClientOptions F). s.1) e),
      )
  connected_ok o c failed h = cc
  connected_ok o c timed_out h = cc

  session :
      (t : Trust) (o : MqttOptions) (connect : ClientOptions F → Token) (u : Url)
      (c : Option TlsConfig)
      → o.node_id ≢ []
      → validate_broker_url t o.broker_url ≡ ok u
      → build_tls_config t o.broker_url o.tls ≡ ok c
      → connect (client_options o c) ≡ completed
      → IsSession t o connect (new_topics o) (client_options o c)
  unfolding client_options new_topics will
  session t o connect u c named accepted secured established = record {
    named = named;
    address = u;
    accepted = accepted;
    secured = secured;
    established = established;
    node = refl;
    engine = refl;
    topics = new_topics-HasOwnTopic o;
    client = or_default_nonempty o.client_id _ _;
    testament = refl;
  }

  configured_ok :
      (t : Trust) (o : MqttOptions) (connect : ClientOptions F → Token) (u : Url)
      (r : Result TlsError (Option TlsConfig)) {p : Mqtt} {c : ClientOptions F}
      → o.node_id ≢ []
      → validate_broker_url t o.broker_url ≡ ok u
      → build_tls_config t o.broker_url o.tls ≡ r
      → configured o connect r ≡ ok (p, c)
      → IsSession t o connect p c
  unfolding configured
  configured_ok t o connect u (err e) ne a b h = cc
  configured_ok t o connect u (ok tls) ne a b h =
      let (k, p, c) = connected_ok o tls (connect (client_options o tls)) h in
      rw (p, c) (session t o connect u tls ne a b k)

  validated_ok :
      (t : Trust) (o : MqttOptions) (connect : ClientOptions F → Token) (r : Result UrlError Url)
      {p : Mqtt} {c : ClientOptions F}
      → o.node_id ≢ []
      → validate_broker_url t o.broker_url ≡ r
      → validated t o connect r ≡ ok (p, c)
      → IsSession t o connect p c
  unfolding validated
  validated_ok t o connect (err e) ne a h = cc
  validated_ok t o connect (ok u) ne a h = configured_ok t o connect u _ ne a refl h

  -- A transport that is returned is a session: the node has an identifier, the broker's address was
  -- validated, the client connected with the security that the options ask for, under a client
  -- identifier that is not empty, its three topics are told apart, and with a retained offline message on the node's availability
  -- topic as its will.
  pub new_mqtt-IsSession :
      (t : Trust) (o : MqttOptions) (connect : ClientOptions F → Token) {p : Mqtt}
      {c : ClientOptions F}
      → new_mqtt t o connect ≡ ok (p, c)
      → IsSession t o connect p c
  unfolding new_mqtt
  new_mqtt-IsSession t o connect h = elim (Bool-cases (is_set o.node_id)) [
    | inl named ↦
        validated_ok t o connect (validate_broker_url t o.broker_url) (set_nonempty o.node_id named)
          refl (rw named at h)
    | inr unnamed ↦ cc (rw unnamed at h)
  ]
