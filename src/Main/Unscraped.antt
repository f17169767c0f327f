-- ===== src/Main/Unscraped.antt =====
-- What a round of observation says of an engine that is up while its metrics cannot be read.
use sparkwrangler.Base.Int.{ℤ}
use sparkwrangler.Base.{true, false, Option, some, ◌≡◌, ◌∙◌, ap, err}
use sparkwrangler.Float.{Float, zero_float}
use sparkwrangler.Main.Observation.{engine-observe}
use sparkwrangler.Main.Observe.{Round, Node, observe, read_engine, engine_state}
use sparkwrangler.Publisher.State.Engine.{engine, unmetered, engine-unmeasured}
use sparkwrangler.Publisher.State.{from_vllm}
use sparkwrangler.Vllm.Client.Scraped.{read-unmeasured}
use sparkwrangler.Vllm.Client.{Client, ScrapeError, healthy, metrics, served_model}
use sparkwrangler.Vllm.Reading.{Reading}

module _ {F : Type 0} ⦃fl : Float F⦄ where
  -- While the engine is up and its metrics cannot be read, for whatever reason, the state says that it is
  -- up, which model it serves and, if that is positive, the length limit that the list of models gives
  -- for it, and nothing else of the engine: each of its metrics is absent, which is neither zero nor
  -- that of an earlier round. Zero is taken not to be less than itself.
  pub observe-unmetered :
      (n : Node) (vc : Client) (r : Round F) (x : ScrapeError) (prev : Option (Reading F))
      (elapsed : ℤ)
      → fl.lt zero_float zero_float ≡ false
      → n.client ≡ some vc
      → healthy r.http vc ≡ true
      → metrics {F = F} r.http vc ≡ err x
      → engine (observe n r prev elapsed).0 ≡ unmetered (served_model r.http vc)
  observe-unmetered n vc r x prev elapsed irreflexive c up failed =
      engine-observe n r prev elapsed
      ∙ rw c (
          unfold engine_state read_engine in
          ap (λ v. engine (from_vllm r.clock v prev elapsed))
            (read-unmeasured r.http vc x up failed)
          ∙ engine-unmeasured r.clock (served_model r.http vc) prev elapsed irreflexive)
