-- ===== src/Publisher/State/Host.antt =====
-- The half of a state that the node's own sources fill.
use sparkwrangler.Base.Int.{ℤ}
use sparkwrangler.Base.{Option, none, [], ◌≡◌, refl, Bytes, Bool-cases, inl, inr}
use sparkwrangler.Float.{Float}
use sparkwrangler.Publisher.State.{State, worker_state, from_vllm, initial_state}
use sparkwrangler.Vllm.Reading.{Reading}

-- What a state says of the accelerator, of the memory, and of itself.
pub record Host (F : Type 0) : Type 0 where
  pub utilization : Option F
  pub clock : Option F
  pub temperature : Option F
  pub power : Option F
  pub available : Option ℤ
  pub used : Option F
  pub mac : Bytes
  pub seen : Bytes

module _ {F : Type 0} where
  abbrev pub host : State F → Host F
  host s = record {
    utilization = s.gpu_utilization_pct;
    clock = s.gpu_clock_mhz;
    temperature = s.gpu_temperature_c;
    power = s.gpu_power_w;
    available = s.memory_available_bytes;
    used = s.memory_used_pct;
    mac = s.mac_address;
    seen = s.last_seen;
  }

  -- A half that no source has filled yet.
  abbrev pub unfilled : Bytes → Host F
  unfilled seen = record {
    utilization = none;
    clock = none;
    temperature = none;
    power = none;
    available = none;
    used = none;
    mac = [];
    seen = seen;
  }

module _ {F : Type 0} ⦃fl : Float F⦄ where
  -- The engine's reading fills none of it.
  pub host-from_vllm :
      (now : Bytes) (r : Reading F) (prev : Option (Reading F)) (elapsed : ℤ)
      → host (from_vllm now r prev elapsed) ≡ unfilled now
  unfolding from_vllm initial_state worker_state
  host-from_vllm now r prev elapsed = elim (Bool-cases r.up) [
    | inl up ↦ rw up refl
    | inr down ↦ rw down refl
  ]
