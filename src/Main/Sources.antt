-- ===== src/Main/Sources.antt =====
-- How the sources of one round of observation keep apart.
use sparkwrangler.Base.Int.{ℤ}
use sparkwrangler.Base.{Option, none, some, ◌≡◌, refl, ap, Bytes, Result, ok, err}
use sparkwrangler.Float.{Float}
use sparkwrangler.Gpu
use sparkwrangler.Gpu.{GpuReading}
use sparkwrangler.Host.Memory.{Memory, MemoryError, read_memory, used_pct}
use sparkwrangler.Main.Observation.{engine-observe}
use sparkwrangler.Main.Observe.{
  Round, Node, observe, read_engine, engine_state, with_accelerator, with_memory,
}
use sparkwrangler.Publisher.State.Engine.{engine}
use sparkwrangler.Publisher.State.Host.{Host, host, unfilled, host-from_vllm}
use sparkwrangler.Publisher.State.{State, worker_state}
use sparkwrangler.Vllm.Client.{Client}
use sparkwrangler.Vllm.Reading.{Reading, and_then}

abbrev pub available_of : Result MemoryError Memory → Option ℤ
available_of (err e) = none
available_of (ok m) = m.available_bytes

module _ {F : Type 0} ⦃fl : Float F⦄ where
  abbrev pub used_of : Result MemoryError Memory → Option F
  used_of (err e) = none
  used_of (ok m) = used_pct m

  -- The readings of the accelerator and of the memory, of which one that failed gives nothing.
  abbrev pub filled : Option (GpuReading F) → Result MemoryError Memory → Bytes → Bytes → Host F
  filled g m mac seen = record {
    utilization = and_then (λ g. g.utilization_pct) g;
    clock = and_then (λ g. g.clock_mhz) g;
    temperature = and_then (λ g. g.temperature_c) g;
    power = and_then (λ g. g.power_w) g;
    available = available_of m;
    used = used_of m;
    mac = mac;
    seen = seen;
  }

  host-engine_state :
      (clock : Bytes) (c : Option Client) (r : Reading F) (prev : Option (Reading F)) (elapsed : ℤ)
      → host (engine_state clock c r prev elapsed) ≡ unfilled clock
  unfolding engine_state
  host-engine_state clock none r prev elapsed = unfold worker_state in refl
  host-engine_state clock (some vc) r prev elapsed = host-from_vllm clock r prev elapsed

  host-filled :
      (s : State F) (g : Option (GpuReading F)) (m : Result MemoryError Memory) (mac clock : Bytes)
      → host s ≡ unfilled clock
      → host (record (with_memory (with_accelerator s g) m) { mac_address = mac })
        ≡ filled g m mac clock
  unfolding with_memory with_accelerator
  host-filled s none (err e) mac clock h = ap (λ (u : Host F). record u { mac = mac }) h
  host-filled s none (ok m) mac clock h =
      ap (λ (u : Host F). record u { mac = mac; available = m.available_bytes; used = used_pct m })
        h
  host-filled s (some g) (err e) mac clock h =
      ap
        (λ (u : Host F). record u {
          utilization = g.utilization_pct;
          clock = g.clock_mhz;
          temperature = g.temperature_c;
          power = g.power_w;
          mac = mac;
        })
        h
  host-filled s (some g) (ok m) mac clock h =
      ap
        (λ (u : Host F). record u {
          utilization = g.utilization_pct;
          clock = g.clock_mhz;
          temperature = g.temperature_c;
          power = g.power_w;
          mac = mac;
          available = m.available_bytes;
          used = used_pct m;
        })
        h

  -- The sources of a round keep apart: the accelerator's reading, the memory's and the engine's each fill
  -- fields of their own, and one that fails leaves its fields absent and those of the others as they are.
  pub observe-filled :
      (n : Node) (r : Round F) (prev : Option (Reading F)) (elapsed : ℤ)
      → (host (observe n r prev elapsed).0
          ≡ filled (Gpu.read r.exec n.accel) (read_memory r.meminfo) n.mac r.clock)
        × (engine (observe n r prev elapsed).0
            ≡ engine (engine_state r.clock n.client (read_engine r n.client) prev elapsed))
  unfolding observe
  observe-filled n r prev elapsed = (
    host-filled _ (Gpu.read r.exec n.accel) (read_memory r.meminfo) n.mac r.clock
        (host-engine_state r.clock n.client (read_engine r n.client) prev elapsed),
    engine-observe n r prev elapsed,
  )
