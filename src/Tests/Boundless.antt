-- ===== src/Tests/Boundless.antt =====
-- A scrape with a label that reads as an infinity.
use sparkwrangler.Base.Int.{pos}
use sparkwrangler.Base.{
  arith, false, some, none, List, [], ◌∷◌, map, ◌≡◌, refl, codes, All, equal, if◌then◌else◌,
}
use sparkwrangler.Main.Observe.{Round, observe}
use sparkwrangler.Main.Unencodable.{observe-unencodable}
use sparkwrangler.Publisher.Json.{marshal_state}
use sparkwrangler.Publisher.Mqtt.{publish_state}
use sparkwrangler.Tests.Numbers.{infinity, Number, whole, number_float}
use sparkwrangler.Tests.Rounds.{round, serving_node}
use sparkwrangler.Tests.Scrapes.{answer, client}
use sparkwrangler.Text.Decimal.{parse_int64}
use sparkwrangler.Text.Lines.{unlines}
use sparkwrangler.Vllm.Client.Scraped.{Serves}
use sparkwrangler.Vllm.Client.{Http, healthy}
use sparkwrangler.Vllm.Metrics.Scrape.{Series, IsPrinted, Entry, IsEntry, print_entry}

abbrev boundless_config : Series Number
boundless_config = record {
  name = codes "vllm:cache_config_info";
  labels = (codes "kv_cache_max_concurrency", codes "inf") ∷ [];
  text = codes "1";
  number = whole (pos 1);
}

boundless_config-IsPrinted : IsPrinted boundless_config
unfolding parse_int64 equal
boundless_config-IsPrinted = record {
  word = ground arith;
  labelled = ground arith;
  valued = ground arith;
  reads = refl;
  line = ground arith;
}

abbrev boundless_entries : List (Entry Number)
boundless_entries = Entry.series boundless_config ∷ []

boundless_entries-IsEntry : All IsEntry boundless_entries
boundless_entries-IsEntry = ((boundless_config-IsPrinted, refl), tt)

abbrev boundless_server : Http
boundless_server = record {
  get = λ url.
      if equal url (codes "http://a/health")
      then some (answer (record { content = []; fails = false }))
      else if equal url (codes "http://a/metrics")
      then some
          (answer (record { content = unlines (map print_entry boundless_entries); fails = false }))
      else none;
  decode_models = λ body. none;
}

boundless_server-Serves : Serves boundless_server client (boundless_config ∷ [])
boundless_server-Serves = record {
  entries = boundless_entries;
  health = unfold healthy equal in refl;
  scraped = unfold equal in refl;
  readable = boundless_entries-IsEntry;
  lists = refl;
}

abbrev boundless_round : Round Number
boundless_round = record (round (pos 1)) { http = boundless_server }

observe-unencodable_example :
    (marshal_state (observe serving_node boundless_round none (pos 1)).0 ≡ none)
    × ((publish_state boundless_round.delivery serving_node.mqtt
          (observe serving_node boundless_round none (pos 1)).0).messages
        ≡ [])
observe-unencodable_example =
    observe-unencodable serving_node client boundless_round (boundless_config ∷ []) (codes "inf")
      {x = infinity} none (pos 1) refl boundless_server-Serves (unfold equal in refl)
      (unfold equal in refl) refl refl
