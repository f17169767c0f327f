-- ===== src/Main/Run/Shutdown.antt =====
-- What a whole run leaves at the broker.
use sparkwrangler.Base.{
  refl, none, Option, some, List, [], ◌∷◌, ◌++◌, map, ◌≡◌, ◌∙◌, ap, Bytes, ok, if◌then◌else◌, Dict,
  lookup, is_some, Option-cases, inl, inr, Bool-cases,
}
use sparkwrangler.Config.Load.{Config}
use sparkwrangler.Discovery.Device.{Device}
use sparkwrangler.Float.{Float}
use sparkwrangler.Main.Observe.{node}
use sparkwrangler.Main.Callbacks.{called}
use sparkwrangler.Main.Interleaving.Presence.{lookup-interleaved, after_events-callbacks}
use sparkwrangler.Main.Interleaving.{Interleaves, rounds_of, callbacks_of, poll-Interleaves}
use sparkwrangler.Main.Poll.{
  connects, ticks, Action, Event, sent, notified, disconnects, start, poll,
}
use sparkwrangler.Main.Presence.{
  retained, retained-append, retained-sent, retained-notified, after_event, after_events,
  lookup-connects,
}
use sparkwrangler.Main.Run.Inversion.{IsServing, run_ok}
use sparkwrangler.Main.Run.{World, Ending, greeted, closing, serve, run}
use sparkwrangler.Main.Setup.{node_device}
use sparkwrangler.Publisher.Mqtt.Retained.{retain_all, lookup-close, lookup-close_failed}
use sparkwrangler.Publisher.Mqtt.Topics.{HasOwnTopic}
use sparkwrangler.Publisher.Mqtt.{Delivery, Mqtt, Payload, raw, payload_offline, close}
use sparkwrangler.Sdnotify
use sparkwrangler.Sdnotify.{Notifier, new}

module _ {F : Type 0} where
  retained-shutdown :
      (e : Ending F) (mq : Mqtt) (b : Dict (Payload F))
      → retained b (sent e.delivery (close e.delivery mq).messages ++ disconnects ∷ [])
        ≡ retain_all e.delivery b (close e.delivery mq).messages
  unfolding retained
  retained-shutdown e mq b =
      retained-append (sent e.delivery (close e.delivery mq).messages) (disconnects ∷ []) b
      ∙ retained-sent e.delivery (close e.delivery mq).messages b

  retained-closing :
      (e : Ending F) (mq : Mqtt) (sd : Notifier) (b : Dict (Payload F))
      → retained b (closing e mq sd) ≡ retain_all e.delivery b (close e.delivery mq).messages
  unfolding closing retained
  retained-closing e mq sd b = elim (Bool-cases (Sdnotify.close e.closes sd).released) [
    | inl open_ ↦ rw open_ (retained-shutdown e mq b)
    | inr shut ↦ rw shut (retained-shutdown e mq b)
  ]

  pub lookup-closing :
      (e : Ending F) (mq : Mqtt) (sd : Notifier) (b : Dict (Payload F))
      → lookup mq.avail_topic (retained b (closing e mq sd)) ≡ (
          if is_some (close e.delivery mq).error
          then lookup mq.avail_topic b
          else some (raw payload_offline))
  lookup-closing e mq sd b =
      ap (lookup mq.avail_topic) (retained-closing e mq sd b)
      ∙ elim (Option-cases (close e.delivery mq).error) [
        | inl p ↦ rw p (lookup-close e.delivery b mq p)
        | inr (x, p) ↦ rw p (lookup-close_failed e.delivery b mq p)
      ]

  -- An announcement before the readiness counts as a connection.
  abbrev pub after_early :
      Device → Mqtt → Option (Payload F) → Option (Delivery F) → Option (Payload F)
  after_early dev mq o none = o
  after_early dev mq o (some d) = after_event dev mq o (connects d)

  lookup-greeted :
      (early : Option (Delivery F)) (dev : Device) (mq : Mqtt) (b : Dict (Payload F))
      → HasOwnTopic mq
      → lookup mq.avail_topic (retained b (greeted early dev mq))
        ≡ after_early dev mq (lookup mq.avail_topic b) early
  unfolding greeted
  lookup-greeted none dev mq b own = unfold retained in refl
  lookup-greeted (some d) dev mq b own = lookup-connects dev mq d b own

module _ {F : Type 0} ⦃fl : Float F⦄ (w : World F) (es : List (Event F)) (e : Ending F) where
  -- What is retained on the availability topic after a run of a node that serves.
  abbrev pub left : Device → Mqtt → Dict (Payload F) → Option (Payload F)
  left dev mq b =
      if is_some (close e.delivery mq).error
      then after_events dev mq (after_early dev mq (lookup mq.avail_topic b) w.early) es
      else some (raw payload_offline)

  -- What a node that serves does, however the messages of its passes and those of the callbacks
  -- interleave between its readiness and its shutdown.
  pub record IsConcurrent (cfg : Config) (mac : Bytes) (mq : Mqtt) (acts : List (Action F))
      : Type 0 where
    pub middle : List (Action F)
    pub interleaves :
        Interleaves
          (poll
            (node cfg mq (new w.env w.dial) mac)
            (node_device cfg mac)
            e.socket
            (start w.started)
            (map ticks (rounds_of es)))
          (called (node_device cfg mac) mq (callbacks_of es))
          middle
    pub order :
        acts
        ≡ greeted w.early (node_device cfg mac) mq
          ++ (notified (Sdnotify.ready w.socket (new w.env w.dial)).datagrams
              ++ (middle ++ closing e mq (new w.env w.dial)))

  -- A run is one such sequence.
  serve-IsConcurrent :
      (cfg : Config) (mac : Bytes) (mq : Mqtt) {acts : List (Action F)}
      → acts ≡ serve w es e cfg mac mq
      → IsConcurrent cfg mac mq acts
  unfolding serve node
  serve-IsConcurrent cfg mac mq h = record {
    middle =
        poll (node cfg mq (new w.env w.dial) mac) (node_device cfg mac) e.socket (start w.started)
          es;
    interleaves =
        poll-Interleaves (node cfg mq (new w.env w.dial) mac) (node_device cfg mac) e.socket es
          (start w.started);
    order = h;
  }

  pub lookup-concurrent :
      (cfg : Config) (mac : Bytes) (mq : Mqtt) (b : Dict (Payload F)) {acts : List (Action F)}
      → HasOwnTopic mq
      → IsConcurrent cfg mac mq acts
      → lookup mq.avail_topic (retained b acts) ≡ left (node_device cfg mac) mq b
  unfolding node
  lookup-concurrent cfg mac mq b own c =
      let sd = new w.env w.dial in
      let dev = node_device cfg mac in
      let early = greeted w.early dev mq in
      let ready = notified (Sdnotify.ready w.socket sd).datagrams in
      let look =
        lookup-interleaved (node cfg mq sd mac) dev e.socket (rounds_of es) (start w.started)
          (callbacks_of es) (retained b early) own c.interleaves in
      ap (λ a. lookup mq.avail_topic (retained b a)) c.order
      ∙ ap (lookup mq.avail_topic) (
          retained-append early (ready ++ (c.middle ++ closing e mq sd)) b
          ∙ retained-append ready (c.middle ++ closing e mq sd) (retained b early)
          ∙ ap (λ c'. retained c' (c.middle ++ closing e mq sd))
              (retained-notified _ (retained b early))
          ∙ retained-append c.middle (closing e mq sd) (retained b early))
      ∙ lookup-closing e mq sd (retained (retained b early) c.middle)
      ∙ rw (
        look,
        lookup-greeted w.early dev mq b own,
        after_events-callbacks dev mq es (after_early dev mq (lookup mq.avail_topic b) w.early),
      )

  -- A run that serves has an order of its own, which is one of the orders that its goroutines may give
  -- their messages.
  pub run-IsConcurrent :
      (args : List Bytes) {acts : List (Action F)}
      → run w es e args ≡ ok acts
      → (s : IsServing w es e args acts) × IsConcurrent s.cfg s.mac s.mq acts
  run-IsConcurrent args h =
      let s = run_ok w es e args h in (s, serve-IsConcurrent s.cfg s.mac s.mq s.served)

  -- A run that serves leaves its node offline at the broker if its last message is delivered, whatever
  -- connections, losses and states came before, however their messages interleaved, and whatever the
  -- broker held. If that message is not delivered, it leaves what the automaton of connections and
  -- losses says. No callback is taken to come behind the stop of the loop.
  pub run-left :
      (args : List Bytes) (b : Dict (Payload F)) {acts others : List (Action F)}
      (s : IsServing w es e args acts)
      → IsConcurrent s.cfg s.mac s.mq others
      → lookup s.mq.avail_topic (retained b others) ≡ left (node_device s.cfg s.mac) s.mq b
  run-left args b s c = lookup-concurrent s.cfg s.mac s.mq b s.session.topics c
