-- ===== src/Main/Observation.antt =====
-- What a round of observation says of an engine.
use sparkwrangler.Base.Int.{ℤ}
use sparkwrangler.Base.{
  List, true, false, Option, none, some, [], ◌≡◌, refl, ◌∙◌, ap, Bytes, Result, ok, err, All,
  one_of,
}
use sparkwrangler.Config.Load.{Config, worker_mode}
use sparkwrangler.Float.{Float}
use sparkwrangler.Gpu
use sparkwrangler.Gpu.{GpuReading}
use sparkwrangler.Host.Memory.{Memory, MemoryError, read_memory}
use sparkwrangler.Main.Observe.{
  Round, Node, node, observe, read_engine, engine_state, with_accelerator, with_memory,
}
use sparkwrangler.Publisher.Json.Members.{IsHostOnly, members-host_keys}
use sparkwrangler.Publisher.Json.{document_keys, members}
use sparkwrangler.Publisher.Mqtt.{Mqtt}
use sparkwrangler.Publisher.State.Engine.{Engine, engine, silent, reported, engine-from_vllm}
use sparkwrangler.Publisher.State.{State, worker_state, from_vllm}
use sparkwrangler.Sdnotify.{Notifier}
use sparkwrangler.Vllm.Client.{Client, Http, healthy, read, served_model}
use sparkwrangler.Vllm.Client.Scraped.{Serves, read-Reports}
use sparkwrangler.Vllm.Metrics.Scrape.{Series}
use sparkwrangler.Vllm.Reading.{Reading, zero_reading}

module _ {F : Type 0} where
  engine-IsHostOnly : (s : State F) → engine s ≡ silent none [] none → IsHostOnly s
  engine-IsHostOnly s e = record {
    up = ap (λ (e : Engine F). e.up) e;
    model = ap (λ (e : Engine F). e.model) e;
    usage = ap (λ (e : Engine F). e.usage) e;
    running = ap (λ (e : Engine F). e.running) e;
    waiting = ap (λ (e : Engine F). e.waiting) e;
    capacity = ap (λ (e : Engine F). e.capacity) e;
    preempted = ap (λ (e : Engine F). e.preempted) e;
    hits = ap (λ (e : Engine F). e.hits) e;
    generated = ap (λ (e : Engine F). e.generated) e;
    len = ap (λ (e : Engine F). e.len) e;
    tokens = ap (λ (e : Engine F). e.tokens) e;
    concurrency = ap (λ (e : Engine F). e.concurrency) e;
    caching = ap (λ (e : Engine F). e.caching) e;
  }

module _ {F : Type 0} ⦃fl : Float F⦄ where
  engine-with_accelerator :
      (s : State F) (g : Option (GpuReading F)) → engine (with_accelerator s g) ≡ engine s
  unfolding with_accelerator
  engine-with_accelerator s none = refl
  engine-with_accelerator s (some g) = refl

  engine-with_memory :
      (s : State F) (m : Result MemoryError Memory) → engine (with_memory s m) ≡ engine s
  unfolding with_memory
  engine-with_memory s (err e) = refl
  engine-with_memory s (ok m) = refl

  pub engine-observe :
      (n : Node) (r : Round F) (prev : Option (Reading F)) (elapsed : ℤ)
      → engine (observe n r prev elapsed).0
        ≡ engine (engine_state r.clock n.client (read_engine r n.client) prev elapsed)
  unfolding observe
  engine-observe n r prev elapsed =
      engine-with_memory _ (read_memory r.meminfo)
      ∙ engine-with_accelerator _ (Gpu.read r.exec n.accel)

  -- A node in worker mode never says anything of an engine, whatever the round holds, and every member
  -- of the document that it publishes is one that the catalog of a worker reads.
  pub observe-worker :
      (cfg : Config) (mq : Mqtt) (sd : Notifier) (mac : Bytes) (r : Round F)
      (prev : Option (Reading F)) (elapsed : ℤ)
      → worker_mode cfg ≡ true
      → IsHostOnly (observe (node cfg mq sd mac) r prev elapsed).0
        × All
            (λ m. one_of m.0 (document_keys false) ≡ true)
            (members (observe (node cfg mq sd mac) r prev elapsed).0)
  observe-worker cfg mq sd mac r prev elapsed h =
      let s = (observe (node cfg mq sd mac) r prev elapsed).0 in
      let only = engine-IsHostOnly s (
        engine-observe (node cfg mq sd mac) r prev elapsed
        ∙ (unfold node in rw h (unfold engine_state worker_state in refl))) in
      (only, members-host_keys s only)

  read-down :
      (r : Round F) (vc : Client)
      → healthy r.http vc ≡ false
      → read {F = F} r.http vc ≡ zero_reading
  unfolding read
  read-down r vc h = rw h

  from_vllm-down :
      (clock : Bytes) (h : Reading F) (prev : Option (Reading F)) (elapsed : ℤ)
      → h ≡ zero_reading
      → engine (from_vllm clock h prev elapsed) ≡ silent (some false) [] none
  unfolding from_vllm worker_state
  from_vllm-down clock h prev elapsed e = rw e

  -- While the engine's health check fails, the state says that it is down and nothing else of it: no
  -- number of an earlier round is kept.
  pub observe-down :
      (n : Node) (vc : Client) (r : Round F) (prev : Option (Reading F)) (elapsed : ℤ)
      → n.client ≡ some vc
      → healthy r.http vc ≡ false
      → engine (observe n r prev elapsed).0 ≡ silent (some false) [] none
  observe-down n vc r prev elapsed c h =
      engine-observe n r prev elapsed
      ∙ rw c (
          unfold engine_state read_engine in
          from_vllm-down r.clock (read r.http vc) prev elapsed (read-down r vc h))

  -- While the engine is up and its scrape can be read, as it could at the pass before, the state says of
  -- it what the scrapes say: each field is what the first series of its name and label has,
  -- shares are percentages, sizes that are not positive are absent, and the rate of the generated tokens
  -- is taken between the two scrapes.
  pub observe-reported :
      (n : Node) (vc : Client) (r : Round F) (h : Http) (ss earlier : List (Series F)) (elapsed : ℤ)
      → n.client ≡ some vc
      → Serves r.http vc ss
      → Serves h vc earlier
      → engine (observe n r (some (read h vc)) elapsed).0
        ≡ reported (served_model r.http vc) ss earlier elapsed
  observe-reported n vc r h ss earlier elapsed c s before =
      engine-observe n r (some (read h vc)) elapsed
      ∙ rw c (
          unfold engine_state read_engine in
          engine-from_vllm r.clock (read r.http vc) (read h vc) (served_model r.http vc) ss earlier
            elapsed (read-Reports r.http vc ss s) (read-Reports h vc earlier before).generated)
