-- ===== src/Main/Unencodable.antt =====
-- A label of the engine's scrape that keeps the whole state from being published.
use sparkwrangler.Base.Int.{ℤ}
use sparkwrangler.Base.{true, Option, none, some, List, [], ◌≡◌, refl, ◌∙◌, ap, Bytes, codes}
use sparkwrangler.Float.{Float, zero_float}
use sparkwrangler.Main.Observation.{engine-observe}
use sparkwrangler.Main.Observe.{Round, Node, observe, read_engine, engine_state}
use sparkwrangler.Publisher.Json.Encoding.{marshal_state-max_concurrency}
use sparkwrangler.Publisher.Json.{marshal_state}
use sparkwrangler.Publisher.Mqtt.Contract.{publish_state-none}
use sparkwrangler.Publisher.Mqtt.{publish_state}
use sparkwrangler.Publisher.State.Engine.{Engine, engine}
use sparkwrangler.Publisher.State.{from_vllm}
use sparkwrangler.Vllm.Client.Scraped.{Serves, Reports, read-Reports}
use sparkwrangler.Vllm.Client.{Client, ServedModel, read, served_model}
use sparkwrangler.Vllm.Metrics.Labelled.{label_text}
use sparkwrangler.Vllm.Metrics.Scrape.{Series}
use sparkwrangler.Vllm.Names.{metric_cache_config}
use sparkwrangler.Vllm.Reading.{Reading, overwrite_value, and_then}

module _ {F : Type 0} ⦃fl : Float F⦄ where
  engine-client :
      (n : Node) (vc : Client) (r : Round F) (prev : Option (Reading F)) (elapsed : ℤ)
      → n.client ≡ some vc
      → engine (observe n r prev elapsed).0
        ≡ engine (from_vllm r.clock (read r.http vc) prev elapsed)
  engine-client n vc r prev elapsed c =
      engine-observe n r prev elapsed ∙ rw c (unfold engine_state read_engine in refl)

  concurrency-Reports :
      (r : Reading F) (served : Option ServedModel) (ss : List (Series F)) (v : Bytes) {x : F}
      → Reports r served ss
      → label_text metric_cache_config (codes "kv_cache_max_concurrency") ss ≡ some v
      → fl.parse_float v ≡ some x
      → r.max_concurrency ≡ x
  concurrency-Reports r served ss v reports says reads =
      reports.concurrency
      ∙ ap (λ o. overwrite_value (and_then fl.parse_float o) zero_float) says
      ∙ ap (λ o. overwrite_value o zero_float) reads

  -- While the engine is up and its scrape can be read, a text of the label kv_cache_max_concurrency of the
  -- first cache configuration that ParseFloat takes for a positive infinity keeps the state from being
  -- encoded: the publication of the round sends nothing, whatever else the round has observed.
  pub observe-unencodable :
      (n : Node) (vc : Client) (r : Round F) (ss : List (Series F)) (v : Bytes) {x : F}
      (prev : Option (Reading F)) (elapsed : ℤ)
      → n.client ≡ some vc
      → Serves r.http vc ss
      → label_text metric_cache_config (codes "kv_cache_max_concurrency") ss ≡ some v
      → fl.parse_float v ≡ some x
      → fl.is_inf x ≡ true
      → fl.lt zero_float x ≡ true
      → (marshal_state (observe n r prev elapsed).0 ≡ none)
        × ((publish_state r.delivery n.mqtt (observe n r prev elapsed).0).messages ≡ [])
  observe-unencodable n vc r ss v prev elapsed c serves says reads inf positive =
      let s = (observe n r prev elapsed).0 in
      let h = read r.http vc in
      let reports = read-Reports r.http vc ss serves in
      let is = concurrency-Reports h (served_model r.http vc) ss v reports says reads in
      let shown : s.max_concurrency ≡ (from_vllm r.clock h prev elapsed).max_concurrency =
        ap (λ (e : Engine F). e.concurrency) (engine-client n vc r prev elapsed c) in
      let refused =
        marshal_state-max_concurrency r.clock h prev elapsed s reports.is_up (rw is inf)
          (rw is positive) shown in
      (refused, publish_state-none r.delivery n.mqtt s refused)
