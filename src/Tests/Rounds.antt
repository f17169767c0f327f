-- ===== src/Tests/Rounds.antt =====
-- Rounds of observation.
use sparkwrangler.Base.Int.{ℤ, pos}
use sparkwrangler.Base.{
  if◌then◌else◌, equal, true, false, none, some, [], ◌≡◌, refl, codes, lookup, insert,
}
use sparkwrangler.Config.Load.{worker_mode, flag_set, bound}
use sparkwrangler.Gpu
use sparkwrangler.Gpu.{nvidia_smi}
use sparkwrangler.Host.Memory.{read_memory, Opened}
use sparkwrangler.Main.Observation.{observe-down, observe-reported}
use sparkwrangler.Publisher.State.Engine.{engine, silent, reported, unmetered}
use sparkwrangler.Main.Unscraped.{observe-unmetered}
use sparkwrangler.Tests.Scrapes.{series, server, client, server-Serves}
use sparkwrangler.Vllm.Client.{metrics, transport, read, served_model}
use sparkwrangler.Main.Observe.{Round, Node, observe, read_engine, engine_state}
use sparkwrangler.Main.Sources.{filled, observe-filled}
use sparkwrangler.Publisher.State.Host.{host}
use sparkwrangler.Publisher.Mqtt.Connect.{new_topics}
use sparkwrangler.Sdnotify.{Notifier}
use sparkwrangler.Tests.Numbers.{Number, number_float}
use sparkwrangler.Tests.Sessions.{loaded, options, deliver}
use sparkwrangler.Text.Space.{trim_space}
use sparkwrangler.Vllm.Client.{Http, healthy}

-- A round at a time at which nothing answers.
abbrev silence : Http
silence = record { get = λ url. none; decode_models = λ body. none }

abbrev pub round : ℤ → Round Number
round now = record {
  now = now;
  clock = codes "now";
  http = silence;
  exec = record { look_path = λ path. false; output = λ path args. none };
  meminfo = Opened.missing;
  delivery = deliver;
  socket = λ datagram. true;
}

abbrev pub notifier : Notifier
notifier = record { conn = some (codes "/run/systemd/notify") }

abbrev pub worker_node : Node
worker_node = record {
  client = none;
  accel = nvidia_smi [];
  mac = [];
  interval = pos 15_000_000_000;
  mqtt = new_topics options;
  notifier = notifier;
}

loaded_worker : worker_mode loaded ≡ true
unfolding worker_mode trim_space bound lookup insert flag_set
loaded_worker = refl

abbrev head_node : Node
head_node = record worker_node {
  client = some (record { base_url = codes "http://a"; timeout = pos 1 });
}

observe-down_example :
    engine (observe head_node (round (pos 1)) none (pos 1)).0 ≡ silent (some false) [] none
observe-down_example =
    observe-down head_node (record { base_url = codes "http://a"; timeout = pos 1 }) (round (pos 1))
      none (pos 1) refl (unfold healthy in refl)

-- A head node between two scrapes of a server that does not change.
abbrev pub serving_node : Node
serving_node = record worker_node { client = some client }

abbrev serving_round : Round Number
serving_round = record (round (pos 1)) { http = server }

observe-reported_example :
    engine (observe serving_node serving_round (some (read server client)) (pos 1)).0
    ≡ reported (served_model server client) series series (pos 1)
observe-reported_example =
    observe-reported serving_node client serving_round server series series (pos 1) refl
      server-Serves server-Serves

observe-filled_example :
    (host (observe head_node (round (pos 1)) none (pos 1)).0
      ≡ filled
          (Gpu.read (round (pos 1)).exec head_node.accel)
          (read_memory Opened.missing)
          []
          (codes "now"))
    × (engine (observe head_node (round (pos 1)) none (pos 1)).0
        ≡ engine (
            engine_state
              (codes "now")
              head_node.client
              (read_engine (round (pos 1)) head_node.client)
              none
              (pos 1)))
observe-filled_example = observe-filled head_node (round (pos 1)) none (pos 1)

-- A server that answers the health check alone.
abbrev idle : Http
idle = record {
  get = λ url.
      if equal url (codes "http://a/health")
      then some (record { status = 200; body = record { content = []; fails = false } })
      else none;
  decode_models = λ body. none;
}

abbrev idle_round : Round Number
idle_round = record (round (pos 1)) { http = idle }

observe-unmetered_example :
    engine (observe serving_node idle_round none (pos 1)).0 ≡ unmetered (served_model idle client)
observe-unmetered_example =
    observe-unmetered serving_node client idle_round transport none (pos 1) refl refl
      (unfold healthy equal in refl) (unfold metrics equal in refl)
