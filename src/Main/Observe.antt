-- ===== src/Main/Observe.antt =====
-- `observe` of cmd/sparkwrangler/main.go: one round of readings.
use sparkwrangler.Base.Int.{ℤ}
use sparkwrangler.Base.{Bool, Option, none, some, if◌then◌else◌, Bytes, Result, ok, err}
use sparkwrangler.Config.Load.{Config, worker_mode}
use sparkwrangler.Float.{Float}
use sparkwrangler.Gpu
use sparkwrangler.Gpu.{GpuReading, Exec, Reader, nvidia_smi}
use sparkwrangler.Host.Memory.{Memory, MemoryError, Opened, read_memory, used_pct}
use sparkwrangler.Publisher.Mqtt.{Mqtt, Delivery}
use sparkwrangler.Publisher.State.{State, worker_state, from_vllm}
use sparkwrangler.Sdnotify.{Notifier}
use sparkwrangler.Vllm.Client.{Client, Http, new_client, read}
use sparkwrangler.Vllm.Reading.{Reading, zero_reading}

-- What the world answers during one pass: the present time and its text, the server, the commands, the
-- kernel's file, and what becomes of the messages and of the datagrams.
pub record Round (F : Type 0) : Type 0 where
  pub now : ℤ
  pub clock : Bytes
  pub http : Http
  pub exec : Exec
  pub meminfo : Opened
  pub delivery : Delivery F
  pub socket : Bytes → Bool

-- What stays the same from pass to pass.
pub record Node : Type 0 where
  pub client : Option Client
  pub accel : Reader
  pub mac : Bytes
  pub interval : ℤ
  pub mqtt : Mqtt
  pub notifier : Notifier

-- The sources that `poll` asks: no engine in worker mode.
unfoldable pub node : Config → Mqtt → Notifier → Bytes → Node
node cfg mq sd mac = record {
  client = if worker_mode cfg then none else some (new_client cfg.vllm_url cfg.vllm_timeout);
  accel = nvidia_smi cfg.nvidia_smi_path;
  mac = mac;
  interval = cfg.interval;
  mqtt = mq;
  notifier = sd;
}

module _ {F : Type 0} ⦃fl : Float F⦄ where
  unfoldable pub read_engine : Round F → Option Client → Reading F
  read_engine r none = zero_reading
  read_engine r (some vc) = read r.http vc

  unfoldable pub engine_state : Bytes → Option Client → Reading F → Option (Reading F) → ℤ → State F
  engine_state clock none reading prev elapsed = worker_state clock
  engine_state clock (some vc) reading prev elapsed = from_vllm clock reading prev elapsed

  unfoldable pub with_accelerator : State F → Option (GpuReading F) → State F
  with_accelerator s none = s
  with_accelerator s (some g) = record s {
    gpu_utilization_pct = g.utilization_pct;
    gpu_clock_mhz = g.clock_mhz;
    gpu_temperature_c = g.temperature_c;
    gpu_power_w = g.power_w;
  }

  unfoldable pub with_memory : State F → Result MemoryError Memory → State F
  with_memory s (err e) = s
  with_memory s (ok m) = record s {
    memory_available_bytes = m.available_bytes;
    memory_used_pct = used_pct m;
  }

  -- `observe`: the state and the reading of a round.
  unfoldable pub observe : Node → Round F → Option (Reading F) → ℤ → State F × Reading F
  unfolding read_engine engine_state with_accelerator with_memory
  observe n r prev elapsed =
      let reading = read_engine r n.client in
      (
        record (with_memory
            (with_accelerator (engine_state r.clock n.client reading prev elapsed)
              (Gpu.read r.exec n.accel))
            (read_memory r.meminfo)) { mac_address = n.mac },
        reading,
      )
