-- ===== src/Vllm/Client.antt =====
-- `Client` of internal/vllm/client.go. The HTTP transport and the JSON decoder are parameters.
pub mod Readings
pub mod Scraped
use sparkwrangler.Base.Int.{ℤ, pos, ltb_ℤ, leb_ℤ, ◌*ℤ◌}
use sparkwrangler.Base.{
  ℕ, Bool, true, false, Option, none, some, List, [], ◌∷◌, ◌++◌, ◌==◌, if◌then◌else◌, Bytes, codes,
  Result, ok, err,
}
use sparkwrangler.Float.{Float}
use sparkwrangler.Text.Lines.{Input, ScanError}
use sparkwrangler.Vllm.Metrics.{Metrics, parse_metrics}
use sparkwrangler.Vllm.Reading.{Reading, zero_reading, apply_metrics}

pub record Response : Type 0 where
  pub status : ℕ
  pub body : Input

-- An entry of the decoded answer to `/v1/models`.
pub record ServedModel : Type 0 where
  pub id : Bytes
  pub max_model_len : ℤ

-- A server during one round: the answer to a GET of each URL, or a transport error, and the decoder
-- of the model list, which fails on a text that is not such JSON.
pub record Http : Type 0 where
  pub get : Bytes → Option Response
  pub decode_models : Input → Option (List ServedModel)

pub record Client : Type 0 where
  pub base_url : Bytes
  pub timeout : ℤ

-- A `time.Duration` counts nanoseconds.
abbrev pub second : ℤ
second = pos 1_000_000_000

unfoldable pub new_client : Bytes → ℤ → Client
unfolding ◌*ℤ◌
new_client base_url timeout = record {
  base_url = base_url;
  timeout = if leb_ℤ timeout (pos 0) then pos 5 *ℤ second else timeout;
}

-- `Client.get`
get : Http → Client → Bytes → Option Response
get h c path = h.get (c.base_url ++ path)

is_ok : Option Response → Bool
is_ok none = false
is_ok (some resp) = resp.status == 200

unfoldable pub healthy : Http → Client → Bool
unfolding get is_ok
healthy h c = is_ok (get h c (codes "/health"))

-- The first entry of the list, if the answer decodes to a list with one. The status is not looked at.
first_model : Option (List ServedModel) → Option ServedModel
first_model none = none
first_model (some []) = none
first_model (some (m ∷ ms)) = some m

decode_body : Http → Option Response → Option (List ServedModel)
decode_body h none = none
decode_body h (some resp) = h.decode_models resp.body

unfoldable pub served_model : Http → Client → Option ServedModel
unfolding get first_model decode_body
served_model h c = first_model (decode_body h (get h c (codes "/v1/models")))

pub data ScrapeError : Type 0 where
  transport : ScrapeError
  status : ℕ → ScrapeError
  scan : ScanError → ScrapeError

module _ {F : Type 0} ⦃fl : Float F⦄ where
  scanned : Result ScanError (Metrics F) → Result ScrapeError (Metrics F)
  scanned (ok m) = ok m
  scanned (err e) = err (scan e)

  scrape : Option Response → Result ScrapeError (Metrics F)
  unfolding scanned
  scrape none = err transport
  scrape (some resp) =
      if resp.status == 200 then scanned (parse_metrics resp.body) else err (status resp.status)

  -- `Client.metrics`
  unfoldable pub metrics : Http → Client → Result ScrapeError (Metrics F)
  unfolding get scrape
  metrics h c = scrape (get h c (codes "/metrics"))

  with_model : Reading F → Option ServedModel → Reading F
  with_model r none = r
  with_model r (some m) = record r { model = m.id; max_model_len = m.max_model_len }

  with_metrics : Reading F → Result ScrapeError (Metrics F) → Reading F
  with_metrics r (err e) = r
  with_metrics r (ok m) = apply_metrics (record r { raw = m }) m

  -- `Client.Read`. Its error is nil on every path, and is left out.
  unfoldable pub read : Http → Client → Reading F
  unfolding with_model with_metrics
  read h c =
      if healthy h c
      then with_metrics (with_model (record zero_reading { up = true }) (served_model h c))
          (metrics h c)
      else zero_reading
