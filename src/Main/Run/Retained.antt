-- ===== src/Main/Run/Retained.antt =====
-- All that a whole run leaves at the broker.
use sparkwrangler.Base.{
  false, Option, none, some, List, [], ◌∷◌, ◌++◌, ◌≡◌, refl, ◌∙◌, ap, append-nil, Bytes, Dict,
  lookup, equal, All, All-append, All-map, Bool-cases, inl, inr,
}
use sparkwrangler.Config.Load.{Config}
use sparkwrangler.Discovery.Device.{Device}
use sparkwrangler.Float.{Float}
use sparkwrangler.Main.Callbacks.{Callback, connected, called}
use sparkwrangler.Main.Interleaving.Presence.{Leaves, lookup-Leaves, sent-Leaves}
use sparkwrangler.Main.Interleaving.View.{
  view, after_catalogs, after_rounds, lookup-catalog, lookup-document, lookup-called_catalog,
  called-Leaves,
}
use sparkwrangler.Main.Interleaving.{rounds_of, callbacks_of}
use sparkwrangler.Main.Observe.{node}
use sparkwrangler.Main.Poll.{Action, disconnects, Event, sent, notified, start}
use sparkwrangler.Main.Presence.{retained, retained-append, retained-notified}
use sparkwrangler.Main.Run.Inversion.{IsServing}
use sparkwrangler.Main.Run.Shutdown.{IsConcurrent, left, lookup-concurrent}
use sparkwrangler.Main.Run.{World, Ending, greeted, closing}
use sparkwrangler.Main.Setup.{node_device}
use sparkwrangler.Publisher.Mqtt.Retained.Documents.{equal_sym}
use sparkwrangler.Publisher.Mqtt.Topics.{topics-close}
use sparkwrangler.Publisher.Mqtt.{Mqtt, Payload, Delivery, close}
use sparkwrangler.Sdnotify
use sparkwrangler.Sdnotify.{Notifier, new}

module _ {F : Type 0} where
  closing-Leaves :
      (e : Ending F) (p : Mqtt) (sd : Notifier) (k : Bytes)
      → equal p.avail_topic k ≡ false
      → All (Leaves k) (closing e p sd)
  unfolding closing
  closing-Leaves e p sd k h =
      let last =
        All-append (Leaves k) (sent e.delivery (close e.delivery p).messages) (disconnects ∷ [])
          (sent-Leaves k e.delivery _
            (All-map (λ m q. rw q h) (close e.delivery p).messages (topics-close e.delivery p)))
          (tt, tt) in
      elim (Bool-cases (Sdnotify.close e.closes sd).released) [
        | inl open_ ↦ rw open_ (tt, last)
        | inr shut ↦ rw shut last
      ]

  -- The call of `OnConnect` before the readiness, as a callback.
  abbrev pub early_callbacks : Option (Delivery F) → List (Callback F)
  early_callbacks none = []
  early_callbacks (some d) = connected d ∷ []

  greeted-called :
      (early : Option (Delivery F)) (dev : Device) (p : Mqtt)
      → greeted early dev p ≡ called dev p (early_callbacks early)
  unfolding greeted called
  greeted-called none dev p = refl
  greeted-called (some d) dev p = rw append-nil

module _ {F : Type 0} ⦃fl : Float F⦄ (w : World F) (es : List (Event F)) (e : Ending F) where
  -- Nothing but the actions between the readiness and the shutdown, behind the first announcement,
  -- concerns another topic than that of the presence.
  lookup-middle :
      (cfg : Config) (mac : Bytes) (mq : Mqtt) (b : Dict (Payload F)) (k : Bytes)
      {acts : List (Action F)}
      → equal mq.avail_topic k ≡ false
      → (c : IsConcurrent w es e cfg mac mq acts)
      → lookup k (retained b acts)
        ≡ lookup k (
            retained
              (retained b (called (node_device cfg mac) mq (early_callbacks w.early)))
              c.middle)
  lookup-middle cfg mac mq b k h c =
      let sd = new w.env w.dial in
      let early = greeted w.early (node_device cfg mac) mq in
      let ready = notified (Sdnotify.ready w.socket sd).datagrams in
      ap (λ a. lookup k (retained b a)) c.order
      ∙ ap (lookup k) (
          retained-append early (ready ++ (c.middle ++ closing e mq sd)) b
          ∙ retained-append ready (c.middle ++ closing e mq sd) (retained b early)
          ∙ ap (λ a. retained a (c.middle ++ closing e mq sd))
              (retained-notified _ (retained b early))
          ∙ retained-append c.middle (closing e mq sd) (retained b early))
      ∙ lookup-Leaves k (closing e mq sd) (retained (retained b early) c.middle)
          (closing-Leaves e mq sd k h)
      ∙ ap (λ a. lookup k (retained (retained b a) c.middle))
          (greeted-called w.early (node_device cfg mac) mq)

  -- What a run that serves leaves at the broker, whatever connections and losses came, however the
  -- messages of its goroutines interleaved before its shutdown, and whatever the broker held: the node
  -- offline if the last message is delivered, and otherwise the presence that the connections and losses
  -- say; its catalog from the first announcement on that delivered it; and the document of the last pass
  -- that was due and whose publication succeeded.
  pub run-view :
      (args : List Bytes) (b : Dict (Payload F)) {acts others : List (Action F)}
      (s : IsServing w es e args acts)
      → IsConcurrent w es e s.cfg s.mac s.mq others
      → view s.mq (retained b others) ≡ record {
        presence = left w es e (node_device s.cfg s.mac) s.mq b;
        catalog =
            after_catalogs
              (node_device s.cfg s.mac)
              s.mq
              (after_catalogs
                (node_device s.cfg s.mac)
                s.mq
                (lookup s.mq.disco_topic b)
                (early_callbacks w.early))
              (callbacks_of es);
        document =
            after_rounds
              (node s.cfg s.mq (new w.env w.dial) s.mac)
              (start w.started)
              (lookup s.mq.state_topic b)
              (rounds_of es);
      }
  unfolding node
  run-view args b s c =
      let own = s.session.topics in
      let n = node s.cfg s.mq (new w.env w.dial) s.mac in
      let dev = node_device s.cfg s.mac in
      let early = called dev s.mq (early_callbacks w.early) in
      let presence = lookup-concurrent w es e s.cfg s.mac s.mq b own c in
      let catalog =
        lookup-middle s.cfg s.mac s.mq b s.mq.disco_topic
          (equal_sym s.mq.disco_topic s.mq.avail_topic own.not_discovery) c
        ∙ lookup-catalog n dev e.socket (rounds_of es) (start w.started) (callbacks_of es)
            (retained b early) own c.interleaves
        ∙ ap (λ o. after_catalogs dev s.mq o (callbacks_of es))
            (lookup-called_catalog dev s.mq (early_callbacks w.early) b own) in
      let document =
        lookup-middle s.cfg s.mac s.mq b s.mq.state_topic
          (equal_sym s.mq.state_topic s.mq.avail_topic own.not_state) c
        ∙ lookup-document n dev e.socket (rounds_of es) (start w.started) (callbacks_of es)
            (retained b early) own c.interleaves
        ∙ ap (λ o. after_rounds n (start w.started) o (rounds_of es))
            (lookup-Leaves s.mq.state_topic early b
              (called-Leaves dev s.mq (early_callbacks w.early) own)) in
      rw (presence, catalog, document)
