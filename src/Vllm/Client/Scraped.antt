-- ===== src/Vllm/Client/Scraped.antt =====
-- The reading of a server whose scrape is in the exposition format.
use sparkwrangler.Base.{
  true, false, Option, none, some, List, [], ◌∷◌, ◌++◌, map, ◌≡◌, refl, ◌∙◌, ap, arith,
  if◌then◌else◌, Bytes, codes, equal, All, ok, err,
}
use sparkwrangler.Base.Int.{ℤ, pos}
use sparkwrangler.Float.{Float, zero_float}
use sparkwrangler.Text.Decimal.{parse_int64}
use sparkwrangler.Vllm.Metrics.Labelled.{label_text, number_where, label-print, value_where-print}
use sparkwrangler.Text.Lines.{unlines}
use sparkwrangler.Vllm.Client.{
  Http, Client, ServedModel, ScrapeError, healthy, served_model, metrics, get, scrape, scanned,
  with_model, with_metrics, read,
}
use sparkwrangler.Vllm.Metrics.Grouping.{named}
use sparkwrangler.Vllm.Metrics.Scrape.{
  Series, Entry, IsEntry, print_entry, reported_by, sample_of, parse_metrics-print,
}
use sparkwrangler.Vllm.Metrics.{Metrics, samples, value, label, first_value}
use sparkwrangler.Vllm.Names.{
  metric_preemptions, metric_kv_cache_usage, metric_requests_running, metric_requests_waiting,
  metric_generation_tokens, metric_waiting_by_reason, metric_prefix_queries, metric_prefix_hits,
  metric_cache_config,
}
use sparkwrangler.Vllm.Reading.{
  Reading, apply_metrics, zero_reading, overwrite, overwrite_value, and_then, map_option, hit_rate,
  is_true,
}

overwrite-none : {A : Type 0} (o : Option A) → overwrite o none ≡ o
overwrite-none none = refl
overwrite-none (some x) = refl

-- The identifier of a model and its length, or the zero values.
abbrev pub served_as : Option ServedModel → Bytes × ℤ
served_as none = ([], pos 0)
served_as (some m) = (m.id, m.max_model_len)

module _ {F : Type 0} ⦃fl : Float F⦄ where
  -- The number of the first series with a name.
  abbrev pub first_number : Bytes → List (Series F) → Option F
  first_number n [] = none
  first_number n (s ∷ ss) = if equal s.name n then some s.number else first_number n ss

  first_value-named :
      (n : Bytes) (ss : List (Series F))
      → first_value (named n (map sample_of ss)) ≡ first_number n ss
  unfolding first_value
  first_value-named n [] = refl
  first_value-named n (s ∷ ss) = ground (arith, first_value-named n ss)

  value-print :
      (n : Bytes) (ss : List (Series F)) (m : Metrics F)
      → samples n m ≡ named n (map sample_of ss)
      → value m n ≡ first_number n ss
  unfolding value
  value-print n ss m h = ap first_value h ∙ first_value-named n ss

  -- The answers of a server that is up, and whose metrics are a scrape that reports some series.
  pub record Serves (h : Http) (c : Client) (ss : List (Series F)) : Type 0 where
    pub entries : List (Entry F)
    pub health : healthy h c ≡ true
    pub scraped :
        h.get (c.base_url ++ codes "/metrics")
        ≡ some (record {
          status = 200;
          body = record { content = unlines (map print_entry entries); fails = false };
        })
    pub readable : All IsEntry entries
    pub lists : reported_by entries ≡ ss

  metrics-Serves :
      (h : Http) (c : Client) (ss : List (Series F))
      → Serves h c ss
      → (m : Metrics F) × (metrics h c ≡ ok m)
        × ((n : Bytes) → samples n m ≡ named n (map sample_of ss))
  unfolding metrics get scrape scanned
  metrics-Serves h c ss v =
      let (m, e, found) = parse_metrics-print v.entries v.readable in
      (m, rw v.scraped (rw e), λ n. found n ∙ ap (λ ss. named n (map sample_of ss)) v.lists)

  -- What a reading takes from the model that is served and from the series of a scrape.
  pub record Reports (r : Reading F) (served : Option ServedModel) (ss : List (Series F))
      : Type 0 where
    pub is_up : r.up ≡ true
    pub model : (r.model, r.max_model_len) ≡ served_as served
    pub usage : r.kv_cache_usage ≡ first_number metric_kv_cache_usage ss
    pub running :
        r.requests_running ≡ map_option fl.to_int (first_number metric_requests_running ss)
    pub waiting :
        r.requests_waiting ≡ map_option fl.to_int (first_number metric_requests_waiting ss)
    pub capacity :
        r.waiting_for_capacity
        ≡ map_option fl.to_int
            (number_where metric_waiting_by_reason (codes "reason") (codes "capacity") ss)
    pub preempted : r.preemptions ≡ first_number metric_preemptions ss
    pub generated : r.generation_tokens ≡ first_number metric_generation_tokens ss
    pub hits :
        r.prefix_cache_hit_rate
        ≡ hit_rate (first_number metric_prefix_queries ss) (first_number metric_prefix_hits ss)
    pub caching :
        r.prefix_caching_on
        ≡ map_option is_true (label_text metric_cache_config (codes "enable_prefix_caching") ss)
    pub tokens :
        r.kv_cache_tokens
        ≡ overwrite_value
            (and_then parse_int64
              (label_text metric_cache_config (codes "kv_cache_size_tokens") ss))
            (pos 0)
    pub concurrency :
        r.max_concurrency
        ≡ overwrite_value
            (and_then fl.parse_float
              (label_text metric_cache_config (codes "kv_cache_max_concurrency") ss))
            zero_float

  -- A reading that is up and has no metrics yet.
  abbrev pub unmeasured : Option ServedModel → Reading F
  unmeasured served = record zero_reading {
    up = true;
    model = (served_as served).0;
    max_model_len = (served_as served).1;
  }

  with_model-unmeasured :
      (served : Option ServedModel)
      → with_model (record zero_reading { up = true }) served ≡ unmeasured served
  unfolding with_model
  with_model-unmeasured none = refl
  with_model-unmeasured (some m) = refl

  apply_metrics-Reports :
      (raw m : Metrics F) (served : Option ServedModel) (ss : List (Series F))
      → ((n : Bytes) → samples n m ≡ named n (map sample_of ss))
      → Reports (apply_metrics (record (unmeasured served) { raw = raw }) m) served ss
  unfolding apply_metrics
  apply_metrics-Reports raw m served ss found =
      let number : (n : Bytes) → value m n ≡ first_number n ss =
        λ n. value-print n ss m (found n) in
      let config : (l : Bytes)
          → label m metric_cache_config l ≡ label_text metric_cache_config l ss =
        λ l. label-print metric_cache_config l ss m (found metric_cache_config) in
      let held : Option F → Option F = λ o. overwrite o none in
      record {
        is_up = refl;
        model = refl;
        usage = overwrite-none _ ∙ number metric_kv_cache_usage;
        running = overwrite-none _ ∙ ap (map_option fl.to_int) (number metric_requests_running);
        waiting = overwrite-none _ ∙ ap (map_option fl.to_int) (number metric_requests_waiting);
        capacity =
            overwrite-none _
            ∙ ap (map_option fl.to_int) (
                value_where-print metric_waiting_by_reason (codes "reason") _ _ ss m
                  (found metric_waiting_by_reason));
        preempted = overwrite-none _ ∙ number metric_preemptions;
        generated = overwrite-none _ ∙ number metric_generation_tokens;
        hits = overwrite-none _ ∙ rw (number metric_prefix_queries, number metric_prefix_hits) refl;
        caching =
            overwrite-none _ ∙ ap (map_option is_true) (config (codes "enable_prefix_caching"));
        tokens =
            ap (λ o. overwrite_value (and_then parse_int64 o) (pos 0))
              (config (codes "kv_cache_size_tokens"));
        concurrency =
            ap (λ o. overwrite_value (and_then fl.parse_float o) zero_float)
              (config (codes "kv_cache_max_concurrency"));
      }

  -- The reading of a server that is up and whose scrape can be read holds the model that is
  -- served first, if the list of models can be read; the number of the first series of each name, and of
  -- the first with the label reason=capacity for the requests that wait for capacity; the share of the
  -- hits among the queries, if there were any; and what the labels of the first cache configuration say,
  -- of a label's values the last. What no series says is absent or zero.
  pub read-Reports :
      (h : Http) (c : Client) (ss : List (Series F))
      → Serves h c ss
      → Reports (read h c) (served_model h c) ss
  unfolding read with_metrics
  read-Reports h c ss v =
      let (m, e, found) = metrics-Serves h c ss v in
      rw (v.health, e, with_model-unmeasured (served_model h c))
        (apply_metrics-Reports m m (served_model h c) ss found)

  -- A server that is up and whose metrics cannot be read.
  pub read-unmeasured :
      (h : Http) (c : Client) (x : ScrapeError)
      → healthy h c ≡ true
      → metrics {F = F} h c ≡ err x
      → read h c ≡ unmeasured (served_model h c)
  unfolding read with_metrics
  read-unmeasured h c x up e = rw (up, e) (with_model-unmeasured (served_model h c))
