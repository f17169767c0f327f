-- ===== src/Tests/Scrapes.antt =====
-- A scrape of a server, and what is read of it.
use sparkwrangler.Base.Int.{pos}
use sparkwrangler.Base.{
  arith, true, false, none, some, List, [], ◌∷◌, map, ◌≡◌, refl, Bytes, codes, ok, All, Dict, equal,
  if◌then◌else◌, insert,
}
use sparkwrangler.Tests.Numbers.{read_number, nan, Number, whole, number_float}
use sparkwrangler.Text.Decimal.{parse_int64}
use sparkwrangler.Text.Lines.{Input, unlines}
use sparkwrangler.Text.Space.{trim_space}
use sparkwrangler.Vllm.Client.Readings.{HasFiniteMetrics, read-HasFiniteMetrics}
use sparkwrangler.Vllm.Client.Scraped.{Serves, Reports, read-Reports}
use sparkwrangler.Vllm.Client.{served_model, Http, Client, Response, read, healthy}
use sparkwrangler.Vllm.Labels.RoundTrip.{IsLabel, print_labels, store_all, parse_labels-print}
use sparkwrangler.Vllm.Labels.{parse_labels}
use sparkwrangler.Vllm.Metrics.Grouping.{named}
use sparkwrangler.Vllm.Metrics.Scrape.{
  Series, IsPrinted, Entry, comment, blank, special, IsEntry, print_entry, reported_by, sample_of,
  parse_metrics-print,
}
use sparkwrangler.Vllm.Metrics.{Metrics, parse_metrics, samples}

-- A value with a comma, a brace and an equals sign in it, and a second label.
abbrev labels : Dict Bytes
labels = (codes "model_name", codes "a,b}=c") ∷ (codes "engine", codes "0") ∷ []

labels-IsLabel : All IsLabel labels
labels-IsLabel = ground arith

parse_labels-print_example : parse_labels (print_labels labels) ≡ store_all [] labels
parse_labels-print_example = parse_labels-print labels labels-IsLabel

-- A value that ends in an escaped backslash takes the label behind it in.
escaped_backslash :
    parse_labels (codes "m=\"a\\\\\",n=\"b\"") ≡ (codes "m", codes "a\\\\\",n=b") ∷ []
unfolding parse_labels trim_space insert
escaped_backslash = refl

abbrev usage : Series Number
usage = record {
  name = codes "vllm:kv_cache_usage_perc";
  labels = labels;
  text = codes "7";
  number = whole (pos 7);
}

usage-IsPrinted : IsPrinted usage
unfolding parse_int64 equal
usage-IsPrinted = record {
  word = ground arith;
  labelled = labels-IsLabel;
  valued = ground arith;
  reads = refl;
  line = ground arith;
}

abbrev running : Series Number
running = record {
  name = codes "vllm:num_requests_running";
  labels = [];
  text = codes "2";
  number = whole (pos 2);
}

running-IsPrinted : IsPrinted running
unfolding parse_int64 equal
running-IsPrinted = record {
  word = ground arith;
  labelled = tt;
  valued = ground arith;
  reads = refl;
  line = ground arith;
}

-- One reason of several, and a configuration in labels.
abbrev waiting : Bytes → Bytes → Series Number
waiting reason text = record {
  name = codes "vllm:num_requests_waiting_by_reason";
  labels = (codes "reason", reason) ∷ [];
  text = text;
  number = elim (read_number text) [ none ↦ nan | some x ↦ x ];
}

waiting-IsPrinted : IsPrinted (waiting (codes "capacity") (codes "3"))
unfolding parse_int64 equal
waiting-IsPrinted = record {
  word = ground arith;
  labelled = ground arith;
  valued = ground arith;
  reads = refl;
  line = ground arith;
}

deferred-IsPrinted : IsPrinted (waiting (codes "deferred") (codes "9"))
unfolding parse_int64 equal
deferred-IsPrinted = record {
  word = ground arith;
  labelled = ground arith;
  valued = ground arith;
  reads = refl;
  line = ground arith;
}

abbrev config : Series Number
config = record {
  name = codes "vllm:cache_config_info";
  labels =
      (codes "enable_prefix_caching", codes "True")
      ∷ (codes "kv_cache_size_tokens", codes "64")
      ∷ [];
  text = codes "1";
  number = whole (pos 1);
}

config-IsPrinted : IsPrinted config
unfolding parse_int64 equal
config-IsPrinted = record {
  word = ground arith;
  labelled = ground arith;
  valued = ground arith;
  reads = refl;
  line = ground arith;
}

abbrev pub series : List (Series Number)
series =
    usage
    ∷ running
    ∷ waiting (codes "deferred") (codes "9")
    ∷ waiting (codes "capacity") (codes "3")
    ∷ config
    ∷ []

-- A series that has nothing to say yet.
abbrev unobserved : Series Number
unobserved = record { name = codes "vllm:idle"; labels = []; text = codes "NaN"; number = nan }

unobserved-IsPrinted : IsPrinted unobserved
unfolding equal
unobserved-IsPrinted = record {
  word = ground arith;
  labelled = tt;
  valued = ground arith;
  reads = refl;
  line = ground arith;
}

-- The scrape, with a comment, a blank line and the series that has nothing to say among the others.
abbrev entries : List (Entry Number)
entries =
    comment (codes " TYPE vllm:kv_cache_usage_perc gaug") b'e'
    ∷ Entry.series usage
    ∷ Entry.series running
    ∷ blank
    ∷ Entry.series (waiting (codes "deferred") (codes "9"))
    ∷ special unobserved
    ∷ Entry.series (waiting (codes "capacity") (codes "3"))
    ∷ Entry.series config
    ∷ []

entries-IsEntry : All IsEntry entries
unfolding equal parse_int64
entries-IsEntry = (
  (ground arith, ground arith),
  (
    (usage-IsPrinted, refl),
    (
      (running-IsPrinted, refl),
      (
        tt,
        (
          (deferred-IsPrinted, refl),
          (
            (unobserved-IsPrinted, refl),
            ((waiting-IsPrinted, refl), ((config-IsPrinted, refl), tt)),
          ),
        ),
      ),
    ),
  ),
)

abbrev page : Input
page = record { content = unlines (map print_entry entries); fails = false }

parse_metrics-print_example :
    (m : Metrics Number) × (parse_metrics page ≡ ok m)
    × ((n : Bytes) → samples n m ≡ named n (map sample_of (reported_by entries)))
parse_metrics-print_example = parse_metrics-print entries entries-IsEntry

abbrev grouped : Metrics Number
grouped = (parse_metrics-print entries entries-IsEntry).0

page-grouped : parse_metrics page ≡ ok grouped
page-grouped = (parse_metrics-print entries entries-IsEntry).1

abbrev broken : Input
broken = record { content = codes "a 1"; fails = true }

-- A server that answers the health check and the scrape, and has no list of models.
abbrev pub answer : Input → Response
answer body = record { status = 200; body = body }

abbrev pub server : Http
server = record {
  get = λ url.
      if equal url (codes "http://a/health")
      then some (answer (record { content = []; fails = false }))
      else if equal url (codes "http://a/metrics")
      then some (answer page)
      else none;
  decode_models = λ body. none;
}

abbrev pub client : Client
client = record { base_url = codes "http://a"; timeout = pos 1 }

pub server-Serves : Serves server client series
unfolding healthy equal
server-Serves = record {
  entries = entries;
  health = refl;
  scraped = refl;
  readable = entries-IsEntry;
  lists = refl;
}

read-HasFiniteMetrics_example : HasFiniteMetrics (read {F = Number} server client)
read-HasFiniteMetrics_example = read-HasFiniteMetrics server client

read-Reports_example : Reports (read server client) (served_model server client) series
read-Reports_example = read-Reports server client series server-Serves

capacity_read : (read {F = Number} server client).waiting_for_capacity ≡ some (pos 3)
unfolding equal parse_int64
capacity_read = read-Reports_example.capacity

tokens_read : (read {F = Number} server client).kv_cache_tokens ≡ pos 64
unfolding equal parse_int64
tokens_read = read-Reports_example.tokens
