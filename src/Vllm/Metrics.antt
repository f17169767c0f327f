-- ===== src/Vllm/Metrics.antt =====
-- internal/vllm/metrics.go: the Prometheus text parser and the queries on a parsed scrape.
-- `strings.Fields` and `strconv.ParseFloat` come from Text and Float.
pub mod Grouping
pub mod RoundTrip
pub mod Scrape
pub mod Labelled
use sparkwrangler.Base.{
  ℕ, zero, suc, ◌+◌, ◌*◌, Bool, true, false, ◌&&◌, ◌||◌, Option, none, some, List, [], ◌∷◌, ◌++◌,
  ◌==◌, if◌then◌else◌, Bytes, Dict, codes, equal, insert, lookup, take, drop, ◌>>=◌, Result, ok,
  err,
}
use sparkwrangler.Float.{Float, is_special}
use sparkwrangler.Text.Lines.{Input, ScanError, Scan, scan_lines}
use sparkwrangler.Text.Search.{has_prefix, index_any?, last_index?}
use sparkwrangler.Text.Space.{trim_space, fields}
use sparkwrangler.Vllm.Labels.{parse_labels}

-- A time series. A nil map of labels and an empty one answer alike, and are both `[]`.
pub record Sample (F : Type 0) : Type 0 where
  pub name : Bytes
  pub labels : Dict Bytes
  pub value : F

abbrev pub Metrics : Type 0 → Type 0
Metrics F = Dict (List (Sample F))

-- `IndexAny(line, "{ ")`, at a position behind the first byte.
abbrev ends_name : ℕ → Bool
ends_name c = c == b'{' || c == b' '

split_at : Bytes → Option ℕ → Option (Bytes × Bytes)
split_at line none = none
split_at line (some zero) = none
split_at line (some (suc i)) = some (take (suc i) line, drop (suc i) line)

unfoldable pub split_name_and_rest : Bytes → Option (Bytes × Bytes)
unfolding index_any? split_at
split_name_and_rest line = split_at line (index_any? ends_name line)

first_field : Dict Bytes → List Bytes → Option (Dict Bytes × Bytes)
first_field labels [] = none
first_field labels (f ∷ fs) = some (labels, f)

-- Behind the test for a brace: `rest[1:end]` and `rest[end+1:]`.
split_braces : Bytes → Option ℕ → Option (Dict Bytes × Bytes)
split_braces rest none = none
split_braces rest (some end) =
    first_field (parse_labels (drop 1 (take end rest))) (fields (drop (suc end) rest))

unfoldable pub split_labels_and_value : Bytes → Option (Dict Bytes × Bytes)
unfolding first_field split_braces
split_labels_and_value untrimmed =
    let rest = trim_space untrimmed in
    if has_prefix rest (codes "{")
    then split_braces rest (last_index? b'}' rest)
    else first_field [] (fields rest)

module _ {F : Type 0} ⦃fl : Float F⦄ where
  -- The test for NaN and the infinities behind `ParseFloat`.
  finite_sample : Bytes → Dict Bytes → F → Option (Sample F)
  finite_sample name labels x =
      if is_special x then none else some (record { name = name; labels = labels; value = x })

  unfoldable pub parse_line : Bytes → Option (Sample F)
  unfolding finite_sample
  parse_line line = do
    (name, rest) ← split_name_and_rest line
    (labels, value) ← split_labels_and_value rest
    parsed ← fl.parse_float value
    finite_sample name labels parsed

module _ {F : Type 0} where
  -- `m[name]`, which is nil for a missing name.
  or_nil : Option (List (Sample F)) → List (Sample F)
  or_nil none = []
  or_nil (some ss) = ss

  unfoldable pub samples : Bytes → Metrics F → List (Sample F)
  unfolding or_nil
  samples name m = or_nil (lookup name m)

  -- `out[sample.Name] = append(out[sample.Name], sample)`
  unfoldable pub add_sample : Metrics F → Sample F → Metrics F
  unfolding samples
  add_sample m s = insert s.name (samples s.name m ++ s ∷ []) m

  add_parsed : Metrics F → Option (Sample F) → Metrics F
  unfolding add_sample
  add_parsed m none = m
  add_parsed m (some s) = add_sample m s

-- The bound of `scanner.Buffer`.
abbrev pub max_metric_line : ℕ
max_metric_line = 1024 * 1024

module _ {F : Type 0} ⦃fl : Float F⦄ where
  -- Blank lines and comments are skipped before the line is parsed.
  line_sample : Bytes → Option (Sample F)
  unfolding parse_line
  line_sample [] = none
  line_sample (c ∷ line) = if has_prefix (c ∷ line) (codes "#") then none else parse_line (c ∷ line)

  -- The loop over the scanned lines.
  parse_lines : Metrics F → List Bytes → Metrics F
  unfolding line_sample add_parsed
  parse_lines out [] = out
  parse_lines out (l ∷ ls) = parse_lines (add_parsed out (line_sample (trim_space l))) ls

  -- `scanner.Err()` behind the loop.
  finish : List Bytes → Option ScanError → Result ScanError (Metrics F)
  unfolding parse_lines
  finish tokens (some e) = err e
  finish tokens none = ok (parse_lines [] tokens)

  unfoldable pub parse_metrics : Input → Result ScanError (Metrics F)
  unfolding finish
  parse_metrics r = let s = scan_lines max_metric_line r in finish s.tokens s.failure

-- `s.Labels[k] != v`, where a missing label reads as the empty text.
label_is : Bytes → Option Bytes → Bool
label_is v none = equal [] v
label_is v (some w) = equal w v

matches : Dict Bytes → Dict Bytes → Bool
unfolding label_is
matches labels [] = true
matches labels ((k, v) ∷ match) = label_is v (lookup k labels) && matches labels match

module _ {F : Type 0} where
  -- `Metrics.Value`
  unfoldable pub first_value : List (Sample F) → Option F
  first_value [] = none
  first_value (s ∷ ss) = some s.value

  unfoldable pub value : Metrics F → Bytes → Option F
  unfolding first_value
  value m name = first_value (samples name m)

  first_matching : Dict Bytes → List (Sample F) → Option F
  unfolding matches
  first_matching match [] = none
  first_matching match (s ∷ ss) =
      if matches s.labels match then some s.value else first_matching match ss

  -- `Metrics.ValueWhere`
  unfoldable pub value_where : Metrics F → Bytes → Dict Bytes → Option F
  unfolding first_matching
  value_where m name match = first_matching match (samples name m)

  first_label : Bytes → List (Sample F) → Option Bytes
  first_label l [] = none
  first_label l (s ∷ ss) = lookup l s.labels

  -- `Metrics.Label`
  unfoldable pub label : Metrics F → Bytes → Bytes → Option Bytes
  unfolding first_label
  label m name l = first_label l (samples name m)
