-- ===== src/Vllm/Metrics/Grouping.antt =====
-- What `ParseMetrics` keeps: the samples of the lines, by name and in order, and only finite values.
use sparkwrangler.Base.{
  ◌↔◌, Option, none, some, List, [], ◌∷◌, ◌++◌, ◌≡◌, refl, ◌∙◌, ap, arith, Bytes, Dict, equal,
  lookup, lookup-insert, keep, ok, err, All, append_assoc, append-nil, Bool-cases, inl, inr, sym,
  ok_injective, >>=-eq-some, equal_iff,
}
use sparkwrangler.Float.{Float, IsFinite}
use sparkwrangler.Text.Lines.{Input, ScanError, scan_lines}
use sparkwrangler.Text.Space.{trim_space}
use sparkwrangler.Vllm.Metrics.{
  Sample, Metrics, samples, add_sample, add_parsed, parse_line, finite_sample, line_sample,
  parse_lines, finish, max_metric_line, parse_metrics, split_name_and_rest, split_labels_and_value,
  value, first_value,
}

module _ {F : Type 0} where
  -- The samples of a name, in order.
  abbrev pub named : Bytes → List (Sample F) → List (Sample F)
  named n ss = keep (λ s. equal s.name n) ss

  samples-add_sample :
      (n : Bytes) (m : Metrics F) (s : Sample F)
      → samples n (add_sample m s) ≡ (samples n m ++ named n (s ∷ []))
  unfolding samples add_sample
  samples-add_sample n m s = elim (Bool-cases (equal s.name n)) [
    | inl same ↦
        rw (lookup-insert s.name n (samples s.name m ++ s ∷ []) m, same)
          (rw ((equal_iff s.name n).0 same))
    | inr other ↦ rw (lookup-insert s.name n (samples s.name m ++ s ∷ []) m, other) (rw append-nil)
  ]

  samples-nil : (n : Bytes) → samples {F = F} n [] ≡ []
  unfolding samples lookup
  samples-nil n = refl

module _ {F : Type 0} ⦃fl : Float F⦄ where
  prepend : Option (Sample F) → List (Sample F) → List (Sample F)
  prepend none ss = ss
  prepend (some s) ss = s ∷ ss

  -- The samples of the lines that hold one, in order.
  unfoldable pub parsed : List Bytes → List (Sample F)
  unfolding prepend line_sample
  parsed [] = []
  parsed (l ∷ ls) = prepend (line_sample (trim_space l)) (parsed ls)

  named-prepend :
      (n : Bytes) (m : Metrics F) (o : Option (Sample F)) (ss : List (Sample F))
      → (samples n (add_parsed m o) ++ named n ss) ≡ (samples n m ++ named n (prepend o ss))
  unfolding add_parsed prepend
  named-prepend n m none ss = refl
  named-prepend n m (some s) ss =
      rw (samples-add_sample n m s) (elim (Bool-cases (equal s.name n)) [
        | inl same ↦ rw same (append_assoc (samples n m) (s ∷ []) (named n ss))
        | inr other ↦ rw other (rw append-nil)
      ])

  samples-parse_lines :
      (n : Bytes) (m : Metrics F) (ls : List Bytes)
      → samples n (parse_lines m ls) ≡ (samples n m ++ named n (parsed ls))
  unfolding parse_lines parsed
  samples-parse_lines n m [] = rw append-nil
  samples-parse_lines n m (l ∷ ls) =
      samples-parse_lines n (add_parsed m (line_sample (trim_space l))) ls
      ∙ named-prepend n m (line_sample (trim_space l)) (parsed ls)

  finish-samples :
      (n : Bytes) (tokens : List Bytes) (failure : Option ScanError) {m : Metrics F}
      → finish tokens failure ≡ ok m
      → samples n m ≡ named n (parsed tokens)
  unfolding finish
  finish-samples n tokens none h =
      ap (samples n) (sym (ok_injective h)) ∙ samples-parse_lines n [] tokens ∙ rw (samples-nil n)
  finish-samples n tokens (some e) h = cc

  -- A scrape that parses without an error holds under each name exactly the samples of its lines that
  -- carry the name, in the order of the lines.
  pub parse_metrics-samples :
      (r : Input) (n : Bytes) {m : Metrics F}
      → parse_metrics r ≡ ok m
      → samples n m ≡ named n (parsed (scan_lines max_metric_line r).tokens)
  unfolding parse_metrics
  parse_metrics-samples r n =
      let s = scan_lines max_metric_line r in finish-samples n s.tokens s.failure

  finish_iff :
      (tokens : List Bytes) (failure : Option ScanError) (e : ScanError)
      → (finish {F = F} tokens failure ≡ err e) ↔ (failure ≡ some e)
  unfolding finish
  finish_iff tokens none e = ((λ h. cc), (λ h. cc))
  finish_iff tokens (some d) e = ((λ h. cc), (λ h. cc))

  -- Parsing fails exactly if the scan does, with the scan's error: a line that is too long or a read
  -- that fails loses the whole scrape, and no line that cannot be parsed does.
  pub parse_metrics_iff :
      (r : Input) (e : ScanError)
      → (parse_metrics {F = F} r ≡ err e) ↔ ((scan_lines max_metric_line r).failure ≡ some e)
  unfolding parse_metrics
  parse_metrics_iff r e = finish_iff (scan_lines max_metric_line r).tokens _ e

  abbrev IsFiniteSample : Sample F → Type 0
  IsFiniteSample s = IsFinite s.value

  finite_sample-IsFinite :
      (name : Bytes) (labels : Dict Bytes) (x : F) {s : Sample F}
      → finite_sample name labels x ≡ some s
      → IsFinite s.value
  unfolding finite_sample
  finite_sample-IsFinite name labels x h = ground arith

  parse_line-IsFinite : (line : Bytes) {s : Sample F} → parse_line line ≡ some s → IsFinite s.value
  unfolding parse_line
  parse_line-IsFinite line h =
      let (a, p, h1) = >>=-eq-some (split_name_and_rest line) _ h in
      let (b, q, h2) = >>=-eq-some (split_labels_and_value a.1) _ h1 in
      let (x, r, h3) = >>=-eq-some (fl.parse_float b.1) _ h2 in finite_sample-IsFinite a.0 b.0 x h3

  line_sample-IsFinite :
      (line : Bytes) {s : Sample F} → line_sample line ≡ some s → IsFinite s.value
  unfolding line_sample
  line_sample-IsFinite [] h = cc
  line_sample-IsFinite (c ∷ line) h = ground (arith, parse_line-IsFinite (c ∷ line))

  prepend-IsFinite :
      (o : Option (Sample F)) (ss : List (Sample F))
      → ((s : Sample F) → o ≡ some s → IsFiniteSample s)
      → All IsFiniteSample ss
      → All IsFiniteSample (prepend o ss)
  unfolding prepend
  prepend-IsFinite none ss h k = k
  prepend-IsFinite (some s) ss h k = (h s refl, k)

  named-IsFinite :
      (n : Bytes) (ss : List (Sample F)) → All IsFiniteSample ss → All IsFiniteSample (named n ss)
  named-IsFinite n [] h = tt
  named-IsFinite n (s ∷ ss) h = elim (Bool-cases (equal s.name n)) [
    | inl same ↦ rw same (h.0, named-IsFinite n ss h.1)
    | inr other ↦ rw other (named-IsFinite n ss h.1)
  ]

module _ (F : Type 0) ⦃fl : Float F⦄ where
  parsed-IsFinite : (ls : List Bytes) → All (λ (s : Sample F). IsFinite s.value) (parsed ls)
  unfolding parsed
  parsed-IsFinite [] = tt
  parsed-IsFinite (l ∷ ls) =
      prepend-IsFinite (line_sample (trim_space l)) (parsed ls)
        (λ s e. line_sample-IsFinite (trim_space l) e) (parsed-IsFinite ls)

module _ {F : Type 0} ⦃fl : Float F⦄ where
  -- No sample of a parsed scrape is NaN or infinite.
  pub parse_metrics-IsFinite :
      (r : Input) (n : Bytes) {m : Metrics F}
      → parse_metrics r ≡ ok m
      → All (λ (s : Sample F). IsFinite s.value) (samples n m)
  parse_metrics-IsFinite r n h =
      rw (parse_metrics-samples r n h) (named-IsFinite n _ (parsed-IsFinite F _))

  first_value-IsFinite :
      (ss : List (Sample F)) {x : F}
      → All (λ (s : Sample F). IsFinite s.value) ss
      → first_value ss ≡ some x
      → IsFinite x
  unfolding first_value
  first_value-IsFinite [] h e = cc
  first_value-IsFinite (s ∷ ss) h e = ground arith

  -- So is no value that a query on it gives.
  pub value-IsFinite :
      (r : Input) (n : Bytes) {m : Metrics F} {x : F}
      → parse_metrics r ≡ ok m
      → value m n ≡ some x
      → IsFinite x
  unfolding value
  value-IsFinite r n h e = first_value-IsFinite _ (parse_metrics-IsFinite r n h) e
