-- ===== src/Vllm/Metrics/Labelled.antt =====
-- What the queries of a scrape find by a label, in terms of the series that it prints.
use sparkwrangler.Base.{
  ℕ, Bool, true, false, Option, none, some, List, [], ◌∷◌, map, ◌≡◌, refl, ◌∙◌, ap, arith,
  if◌then◌else◌, ◌&&◌, Bytes, Dict, lookup, insert, lookup-insert, equal, Bool-cases, inl, inr,
}
use sparkwrangler.Vllm.Labels.RoundTrip.{store_all}
use sparkwrangler.Vllm.Metrics.Grouping.{named}
use sparkwrangler.Vllm.Metrics.Scrape.{Series, sample_of}
use sparkwrangler.Vllm.Metrics.{
  Metrics, samples, label, first_label, value_where, first_matching, matches, label_is,
}

-- The last value that some labels give to a name.
abbrev pub last_label : Bytes → Option Bytes → Dict Bytes → Option Bytes
last_label l old [] = old
last_label l old ((k, v) ∷ ls) = last_label l (if equal k l then some v else old) ls

lookup-store_all :
    (l : Bytes) (ls out : Dict Bytes) → lookup l (store_all out ls) ≡ last_label l (lookup l out) ls
lookup-store_all l [] out = refl
lookup-store_all l ((k, v) ∷ ls) out =
    lookup-store_all l ls (insert k v out) ∙ ap (λ o. last_label l o ls) (lookup-insert k l v out)

-- Whether a label is given a value.
abbrev pub is_value : Bytes → Option Bytes → Bool
is_value v none = false
is_value v (some w) = equal w v

label_is-is_value : (c : ℕ) (v : Bytes) (o : Option Bytes) → label_is (c ∷ v) o ≡ is_value (c ∷ v) o
unfolding label_is equal
label_is-is_value c v none = refl
label_is-is_value c v (some w) = refl

and_true : (b : Bool) → (b && true) ≡ b
and_true b = ground arith

matches-one :
    (l : Bytes) (c : ℕ) (v : Bytes) (ls : Dict Bytes)
    → matches (store_all [] ls) ((l, c ∷ v) ∷ []) ≡ is_value (c ∷ v) (last_label l none ls)
unfolding matches lookup
matches-one l c v ls =
    and_true (label_is (c ∷ v) (lookup l (store_all [] ls)))
    ∙ label_is-is_value c v (lookup l (store_all [] ls))
    ∙ ap (is_value (c ∷ v)) (lookup-store_all l ls [])

module _ {F : Type 0} where
  -- The label of the first series with a name.
  abbrev pub label_text : Bytes → Bytes → List (Series F) → Option Bytes
  label_text n l [] = none
  label_text n l (s ∷ ss) =
      let rest = label_text n l ss in if equal s.name n then last_label l none s.labels else rest

  -- The number of the first series with a name and with a value of a label.
  abbrev pub number_where : Bytes → Bytes → Bytes → List (Series F) → Option F
  number_where n l v [] = none
  number_where n l v (s ∷ ss) =
      let rest = number_where n l v ss in
      if equal s.name n && is_value v (last_label l none s.labels) then some s.number else rest

  first_label-named :
      (n l : Bytes) (ss : List (Series F))
      → first_label l (named n (map sample_of ss)) ≡ label_text n l ss
  unfolding first_label lookup
  first_label-named n l [] = refl
  first_label-named n l (s ∷ ss) = elim (Bool-cases (equal s.name n)) [
    | inl same ↦ rw same (lookup-store_all l s.labels [])
    | inr other ↦ rw other (first_label-named n l ss)
  ]

  first_matching-named :
      (n l : Bytes) (c : ℕ) (v : Bytes) (ss : List (Series F))
      → first_matching ((l, c ∷ v) ∷ []) (named n (map sample_of ss)) ≡ number_where n l (c ∷ v) ss
  unfolding first_matching
  first_matching-named n l c v [] = refl
  first_matching-named n l c v (s ∷ ss) = elim (Bool-cases (equal s.name n)) [
    | inl same ↦
        rw (same, matches-one l c v s.labels)
          (ap (λ r. if is_value (c ∷ v) (last_label l none s.labels) then some s.number else r)
            (first_matching-named n l c v ss))
    | inr other ↦ rw other (first_matching-named n l c v ss)
  ]

  pub label-print :
      (n l : Bytes) (ss : List (Series F)) (m : Metrics F)
      → samples n m ≡ named n (map sample_of ss)
      → label m n l ≡ label_text n l ss
  unfolding label
  label-print n l ss m h = ap (first_label l) h ∙ first_label-named n l ss

  pub value_where-print :
      (n l : Bytes) (c : ℕ) (v : Bytes) (ss : List (Series F)) (m : Metrics F)
      → samples n m ≡ named n (map sample_of ss)
      → value_where m n ((l, c ∷ v) ∷ []) ≡ number_where n l (c ∷ v) ss
  unfolding value_where
  value_where-print n l c v ss m h =
      ap (first_matching ((l, c ∷ v) ∷ [])) h ∙ first_matching-named n l c v ss
