-- ===== src/Vllm/Metrics/Scrape.antt =====
-- A whole scrape is parsed back: every series of the text is found under its name.
use sparkwrangler.Base.{
  ℕ, true, false, none, some, List, [], ◌∷◌, ◌++◌, map, ◌≡◌, refl, ◌∙◌, ap, arith, Bytes, Dict, All,
  last-All, append_assoc, ok, sym,
}
use sparkwrangler.Float.{Float, IsFinite, is_special}
use sparkwrangler.Text.Lines.{IsLine, unlines, scan_lines-unlines}
use sparkwrangler.Text.Search.{has_prefix_one}
use sparkwrangler.Text.Space.{IsGraphic, trim_space, trim_space-visible}
use sparkwrangler.Vllm.Labels.RoundTrip.{IsLabel, print_labels, store_all}
use sparkwrangler.Vllm.Metrics.Grouping.{named, parsed, parse_metrics-samples}
use sparkwrangler.Vllm.Metrics.RoundTrip.{
  IsMetricByte, IsValueByte, IsWord, print_rest, parse_line-print, parse_line-special,
}
use sparkwrangler.Vllm.Metrics.{
  Sample, Metrics, samples, line_sample, parse_line, parse_metrics, max_metric_line, finish,
}

-- A series as the server prints it, with the number that its value's text stands for.
pub record Series (F : Type 0) : Type 0 where
  pub name : Bytes
  pub labels : Dict Bytes
  pub text : Bytes
  pub number : F

module _ {F : Type 0} where
  abbrev pub print_series : Series F → Bytes
  print_series s = s.name ++ print_rest s.labels s.text

  abbrev pub sample_of : Series F → Sample F
  sample_of s = record { name = s.name; labels = store_all [] s.labels; value = s.number }

-- A series that the parser can take apart, on a line that fits the scanner's buffer.
pub record IsPrinted {F : Type 0} ⦃fl : Float F⦄ (s : Series F) : Type 0 where
  pub word : IsWord IsMetricByte s.name
  pub labelled : All IsLabel s.labels
  pub valued : IsWord IsValueByte s.text
  pub reads : fl.parse_float s.text ≡ some s.number
  pub line : IsLine max_metric_line (print_series s)

-- A line of a scrape: a series; one that has nothing to say yet, since its value is NaN or an infinity; a
-- comment, which is all behind a hash sign and ends in the visible character that stands apart; or nothing.
pub data Entry (F : Type 0) : Type 0 where
  series : Series F → Entry F
  special : Series F → Entry F
  comment : Bytes → ℕ → Entry F
  blank : Entry F

module _ {F : Type 0} where
  abbrev pub print_entry : Entry F → Bytes
  print_entry (series s) = print_series s
  print_entry (special s) = print_series s
  print_entry (comment t z) = b'#' ∷ (t ++ z ∷ [])
  print_entry blank = []

  -- The series that a scrape reports.
  abbrev pub reported_by : List (Entry F) → List (Series F)
  reported_by [] = []
  reported_by (series s ∷ es) = s ∷ reported_by es
  reported_by (special s ∷ es) = reported_by es
  reported_by (comment t z ∷ es) = reported_by es
  reported_by (blank ∷ es) = reported_by es

abbrev pub IsEntry : {F : Type 0} → ⦃fl : Float F⦄ → Entry F → Type 0
IsEntry (series s) = IsPrinted s × IsFinite s.number
IsEntry (special s) = IsPrinted s × (is_special s.number ≡ true)
IsEntry (comment t z) = IsGraphic z × IsLine max_metric_line (b'#' ∷ (t ++ z ∷ []))
IsEntry blank = Unit

print_rest-append :
    (labels : Dict Bytes) (u : Bytes) (z : ℕ)
    → print_rest labels (u ++ z ∷ []) ≡ print_rest labels u ++ z ∷ []
print_rest-append [] u z = refl
print_rest-append (l ∷ ls) u z =
    ap (◌∷◌ b'{') (sym (append_assoc (print_labels (l ∷ ls)) (b'}' ∷ b' ' ∷ u) (z ∷ [])))

trim_line :
    (name : Bytes) (labels : Dict Bytes) (text : Bytes)
    → IsWord IsMetricByte name
    → IsWord IsValueByte text
    → trim_space (name ++ print_rest labels text) ≡ name ++ print_rest labels text
trim_line [] labels text h k = elim h [ ]
trim_line (a ∷ name) labels [] h k = elim k [ ]
trim_line (a ∷ name) labels (c ∷ s) h k =
    let (init, z, e, hz) = last-All IsValueByte c s k in
    trim_space-visible _ (name ++ print_rest labels (c ∷ s)) a z
      ((a ∷ name) ++ print_rest labels init) refl
      (rw (e, print_rest-append labels init z)
        (sym (append_assoc (a ∷ name) (print_rest labels init) (z ∷ []))))
      h.0.0 hz.0

module _ {F : Type 0} ⦃fl : Float F⦄ where
  line_sample-word :
      (name rest : Bytes)
      → IsWord IsMetricByte name
      → line_sample {F = F} (name ++ rest) ≡ parse_line (name ++ rest)
  unfolding line_sample
  line_sample-word [] rest h = elim h [ ]
  line_sample-word (c ∷ name) rest h = rw (has_prefix_one b'#' c (name ++ rest), h.0.2)

  trim_series : (s : Series F) → IsPrinted s → trim_space (print_series s) ≡ print_series s
  trim_series s h = trim_line s.name s.labels s.text h.word h.valued

  line_sample-series :
      (s : Series F)
      → IsPrinted s
      → IsFinite s.number
      → line_sample (trim_space (print_series s)) ≡ some (sample_of s)
  line_sample-series s h k = rw (trim_series s h) (
      line_sample-word s.name (print_rest s.labels s.text) h.word
      ∙ parse_line-print s.name s.labels s.text s.number h.word h.labelled h.valued h.reads k)

  line_sample-special :
      (s : Series F)
      → IsPrinted s
      → is_special s.number ≡ true
      → line_sample {F = F} (trim_space (print_series s)) ≡ none
  line_sample-special s h k = rw (trim_series s h) (
      line_sample-word s.name (print_rest s.labels s.text) h.word
      ∙ parse_line-special s.name s.labels s.text s.number h.word h.labelled h.valued h.reads k)

  line_sample-comment :
      (t : Bytes) (z : ℕ)
      → IsGraphic z
      → line_sample {F = F} (trim_space (b'#' ∷ (t ++ z ∷ []))) ≡ none
  unfolding line_sample
  line_sample-comment t z h =
      rw
        (trim_space-visible (b'#' ∷ (t ++ z ∷ [])) (t ++ z ∷ []) b'#' z (b'#' ∷ t) refl refl
          (omega arith) h)
        (rw (has_prefix_one b'#' b'#' (t ++ z ∷ [])))

  line_sample-blank : line_sample {F = F} (trim_space []) ≡ none
  unfolding line_sample trim_space
  line_sample-blank = refl

  parsed-print :
      (es : List (Entry F))
      → All IsEntry es
      → parsed (map print_entry es) ≡ map sample_of (reported_by es)
  unfolding parsed
  parsed-print [] h = refl
  parsed-print (series s ∷ es) h =
      rw (line_sample-series s h.0.0 h.0.1) (ap (◌∷◌ (sample_of s)) (parsed-print es h.1))
  parsed-print (special s ∷ es) h = rw (line_sample-special s h.0.0 h.0.1) (parsed-print es h.1)
  parsed-print (comment t z ∷ es) h = rw (line_sample-comment t z h.0.0) (parsed-print es h.1)
  parsed-print (blank ∷ es) h = rw line_sample-blank (parsed-print es h.1)

  lines_fit :
      (es : List (Entry F)) → All IsEntry es → All (IsLine max_metric_line) (map print_entry es)
  lines_fit [] h = tt
  lines_fit (series s ∷ es) h = (h.0.0.line, lines_fit es h.1)
  lines_fit (special s ∷ es) h = (h.0.0.line, lines_fit es h.1)
  lines_fit (comment t z ∷ es) h = (h.0.1, lines_fit es h.1)
  lines_fit (blank ∷ es) h = ((tt, omega arith), lines_fit es h.1)

  finish_ok : (tokens : List Bytes) → (m : Metrics F) × (finish tokens none ≡ ok m)
  unfolding finish
  finish_ok tokens = (_, refl)

  parse_metrics_ok :
      (ls : List Bytes)
      → All (IsLine max_metric_line) ls
      → (m : Metrics F) × (parse_metrics (record { content = unlines ls; fails = false }) ≡ ok m)
  unfolding parse_metrics
  parse_metrics_ok ls h =
      rw (scan_lines-unlines max_metric_line false ls (omega arith) h) (finish_ok ls)

  -- A scrape of printed series, comments and blank lines, in which no label's value ends in a backslash,
  -- parses, and the result holds under each name the series of that name, in their order, each with its
  -- labels and its value: comments, blank lines and the series whose value is NaN or an infinity
  -- are as if they were not there.
  pub parse_metrics-print :
      (es : List (Entry F))
      → All IsEntry es
      → (m : Metrics F) × (parse_metrics
            (record { content = unlines (map print_entry es); fails = false })
          ≡ ok m)
        × ((n : Bytes) → samples n m ≡ named n (map sample_of (reported_by es)))
  parse_metrics-print es h =
      let (m, e) = parse_metrics_ok (map print_entry es) (lines_fit es h) in
      let scanned =
        scan_lines-unlines max_metric_line false (map print_entry es) (omega arith)
          (lines_fit es h) in
      (m, e, λ n. parse_metrics-samples _ n e ∙ rw scanned (rw (parsed-print es h)))
