-- ===== src/Main/Status.antt =====
-- `statusLine` of cmd/sparkwrangler/main.go.
pub mod Line
use sparkwrangler.Base.Int.{ℤ, pos, ltb_ℤ}
use sparkwrangler.Base.{
  Bool, true, false, Option, none, some, [], ◌++◌, if◌then◌else◌, Bytes, codes,
}
use sparkwrangler.Float.{Float}
use sparkwrangler.Publisher.State.{State}
use sparkwrangler.Text.Decimal.{format_int}

-- The parts of the status line, each behind its test.
running_part : Option ℤ → Bytes
running_part none = []
running_part (some n) = codes ", " ++ (format_int n ++ codes " running")

waiting_part : Option ℤ → Bytes
waiting_part none = []
waiting_part (some n) =
    if ltb_ℤ (pos 0) n then codes ", " ++ (format_int n ++ codes " waiting") else []

module _ {F : Type 0} ⦃fl : Float F⦄ where
  worker_status : Option F → Bytes
  worker_status none = codes "worker node"
  worker_status (some g) = codes "worker node, GPU " ++ (fl.format_fixed 0 g ++ codes "%")

  usage_part : Option F → Bytes
  usage_part none = []
  usage_part (some x) = codes ", KV " ++ (fl.format_fixed 1 x ++ codes "%")

  status_of : Option Bool → State F → Bytes
  unfolding worker_status running_part waiting_part usage_part
  status_of none s = worker_status s.gpu_utilization_pct
  status_of (some false) s = codes "vLLM unreachable"
  status_of (some true) s =
      (codes "serving " ++ s.model)
      ++ (running_part s.requests_running
          ++ (waiting_part s.requests_waiting ++ usage_part s.kv_cache_usage_pct))

  unfoldable pub status_line : State F → Bytes
  unfolding status_of
  status_line s = status_of s.vllm_up s
