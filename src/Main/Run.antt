-- ===== src/Main/Run.antt =====
-- `main` and `run` of cmd/sparkwrangler/main.go: from the settings to the shutdown.
pub mod Inversion
pub mod Shutdown
pub mod Contract
pub mod Failures
pub mod Pace
pub mod Order
pub mod Retained
pub mod Return
pub mod Status
use sparkwrangler.Base.Int.{ℤ}
use sparkwrangler.Base.{
  Option, none, some, ℕ, Bool, true, false, List, [], ◌∷◌, ◌++◌, if◌then◌else◌, Bytes, Result, ok,
  err,
}
use sparkwrangler.Config.Flags.{Parsers, help_requested}
use sparkwrangler.Config.Load.{Config, ConfigError, flags, load}
use sparkwrangler.Discovery.Device.{Device}
use sparkwrangler.Float.{Float}
use sparkwrangler.Host.Network.{SysNet, MacError, primary_mac}
use sparkwrangler.Main.Observe.{Node, node}
use sparkwrangler.Main.Poll.{Action, releases, disconnects, Event, sent, notified, start, poll}
use sparkwrangler.Main.Setup.{node_device, node_options}
use sparkwrangler.Publisher.Mqtt.Connect.{ClientOptions, new_mqtt}
use sparkwrangler.Publisher.Mqtt.{Mqtt, MqttError, Token, Delivery, announce, close}
use sparkwrangler.Publisher.Tls.{Trust}
use sparkwrangler.Sdnotify
use sparkwrangler.Sdnotify.{Env, Notifier, new}

-- What the process starts with, and what the world answers before the loop: to the connection, to the
-- announcement of `OnConnect` if that comes before the readiness, to the dial of systemd's socket, and to
-- the first datagram. The loop starts at the time `started`.
pub record World (F : Type 0) : Type 0 where
  pub parsers : Parsers
  pub env : Env
  pub hostname : Bytes
  pub sys : SysNet
  pub trust : Trust
  pub connect : ClientOptions F → Token
  pub early : Option (Delivery F)
  pub dial : Bytes → Bool
  pub socket : Bytes → Bool
  pub started : ℤ

-- What it answers at the end: to the last datagram, to the release of the socket, and to the last
-- message.
pub record Ending (F : Type 0) : Type 0 where
  pub socket : Bytes → Bool
  pub closes : Bool
  pub delivery : Delivery F

pub data RunError : Type 0 where
  bad_config : ConfigError → RunError
  no_mac : MacError → RunError
  no_broker : MqttError → RunError

-- `cfg.NetInterface != ""`, negated.
is_unset : Bytes → Bool
is_unset [] = true
is_unset (c ∷ s) = false

module _ {F : Type 0} where
  -- The call of `OnConnect` that comes before the readiness.
  unfoldable pub greeted : Option (Delivery F) → Device → Mqtt → List (Action F)
  greeted none dev mq = []
  greeted (some d) dev mq = sent d (announce d dev mq).messages

  -- The deferred calls, the last one first: `sd.Close` and `mq.Close`.
  unfoldable pub closing : Ending F → Mqtt → Notifier → List (Action F)
  closing e mq sd =
      (if (Sdnotify.close e.closes sd).released then releases ∷ [] else [])
      ++ (sent e.delivery (close e.delivery mq).messages ++ disconnects ∷ [])

module _ {F : Type 0} ⦃fl : Float F⦄ (w : World F) (es : List (Event F)) (e : Ending F) where
  -- What follows a connection.
  unfoldable pub serve : Config → Bytes → Mqtt → List (Action F)
  unfolding closing greeted
  serve cfg mac mq =
      let sd = new w.env w.dial in
      greeted w.early (node_device cfg mac) mq
      ++ (notified (Sdnotify.ready w.socket sd).datagrams
          ++ (poll (node cfg mq sd mac) (node_device cfg mac) e.socket (start w.started) es
              ++ closing e mq sd))

  unfoldable pub after_connect :
      Config → Bytes → Result MqttError (Mqtt × ClientOptions F) → Result RunError (List (Action F))
  unfolding serve
  after_connect cfg m (err x) = err (no_broker x)
  after_connect cfg m (ok (mq, co)) = ok (serve cfg m mq)

  unfoldable pub with_mac : Config → Bytes → Result RunError (List (Action F))
  unfolding after_connect
  with_mac cfg m = after_connect cfg m (new_mqtt w.trust (node_options cfg) w.connect)

  -- An address that cannot be read stops a node whose interface is named.
  unfoldable pub after_mac : Config → Result MacError Bytes → Result RunError (List (Action F))
  unfolding is_unset with_mac
  after_mac cfg (ok m) = with_mac cfg m
  after_mac cfg (err x) = if is_unset cfg.net_interface then with_mac cfg [] else err (no_mac x)

  unfoldable pub after_load : Result ConfigError Config → Result RunError (List (Action F))
  unfolding after_mac
  after_load (err x) = err (bad_config x)
  after_load (ok cfg) = after_mac cfg (primary_mac w.sys cfg.net_interface)

  -- `run`
  unfoldable pub run : List Bytes → Result RunError (List (Action F))
  unfolding after_load
  run args = after_load (load w.parsers w.env w.hostname args)

-- The status that `main` exits with: a request for help is no failure.
unfoldable pub exit_status : {A : Type 0} → Result RunError A → ℕ
exit_status (ok a) = 0
exit_status (err (bad_config (flags help_requested))) = 0
exit_status (err x) = 1
