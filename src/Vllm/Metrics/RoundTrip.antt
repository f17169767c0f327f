-- ===== src/Vllm/Metrics/RoundTrip.antt =====
-- A scrape in the exposition format, labels and all, is parsed back.
use sparkwrangler.Base.{
  ℕ, true, false, none, some, [], ◌∷◌, ◌++◌, ◌==◌, ◌≡◌, refl, ◌∙◌, ap, arith, Bytes, Dict, All,
  All-map, last-All, append_assoc,
}
use sparkwrangler.Float.{Float, IsFinite, is_special}
use sparkwrangler.Text.Search.{
  has_prefix_one, index_any?-append, last_index?-append, take-append, drop-append, drop-suc-append,
}
use sparkwrangler.Text.Space.{
  IsGraphic, trim_space, trim_space-visible, trim_space-word, trim_space-blank, fields-word,
  fields-blank,
}
use sparkwrangler.Vllm.Labels.RoundTrip.{IsLabel, print_labels, store_all, parse_labels-print}
use sparkwrangler.Vllm.Labels.{parse_labels}
use sparkwrangler.Vllm.Metrics.{
  split_name_and_rest, split_labels_and_value, parse_line, ends_name, split_at, first_field,
  split_braces, finite_sample,
}

-- The bytes of a metric's name, and those of a value.
abbrev pub IsMetricByte : ℕ → Type 0
IsMetricByte c = IsGraphic c × ((c == b'{') ≡ false) × ((c == b'#') ≡ false)

abbrev pub IsValueByte : ℕ → Type 0
IsValueByte c = IsGraphic c × ((c == b'{') ≡ false) × ((c == b'}') ≡ false)

abbrev pub IsWord : (ℕ → Type 0) → Bytes → Type 0
IsWord P [] = ⊥
IsWord P (c ∷ s) = All P (c ∷ s)

-- Labels, if there are any, stand between braces; a blank and the value follow.
abbrev pub print_rest : Dict Bytes → Bytes → Bytes
print_rest [] text = b' ' ∷ text
print_rest (l ∷ ls) text = b'{' ∷ (print_labels (l ∷ ls) ++ b'}' ∷ b' ' ∷ text)

split_name_and_rest-append :
    (c : ℕ) (name : Bytes) (d : ℕ) (rest : Bytes)
    → All IsMetricByte (c ∷ name)
    → ends_name d ≡ true
    → split_name_and_rest ((c ∷ name) ++ d ∷ rest) ≡ some (c ∷ name, d ∷ rest)
unfolding split_name_and_rest split_at
split_name_and_rest-append c name d rest h hd =
    rw
      (index_any?-append ends_name (c ∷ name) d rest (All-map (λ x p. ground arith) (c ∷ name) h)
        hd)
      (rw (take-append name (d ∷ rest), drop-append name (d ∷ rest)))

split_name-print :
    (c : ℕ) (name : Bytes) (labels : Dict Bytes) (text : Bytes)
    → All IsMetricByte (c ∷ name)
    → split_name_and_rest ((c ∷ name) ++ print_rest labels text)
      ≡ some (c ∷ name, print_rest labels text)
split_name-print c name [] text h = split_name_and_rest-append c name b' ' text h refl
split_name-print c name (l ∷ ls) text h =
    split_name_and_rest-append c name b'{' (print_labels (l ∷ ls) ++ b'}' ∷ b' ' ∷ text) h refl

value-IsGraphic : (c : ℕ) (s : Bytes) → All IsValueByte (c ∷ s) → All IsGraphic (c ∷ s)
value-IsGraphic c s h = All-map (λ x p. p.0) (c ∷ s) h

split_plain :
    (c : ℕ) (s : Bytes)
    → All IsValueByte (c ∷ s)
    → split_labels_and_value (b' ' ∷ c ∷ s) ≡ some ([], c ∷ s)
unfolding split_labels_and_value first_field
split_plain c s h = rw (
  trim_space-blank (c ∷ s),
  trim_space-word c s (value-IsGraphic c s h),
  has_prefix_one b'{' c s,
  h.0.1,
  fields-word c s (value-IsGraphic c s h),
)

trim_braces :
    (inner : Bytes) (c : ℕ) (s : Bytes)
    → All IsValueByte (c ∷ s)
    → trim_space (b'{' ∷ (inner ++ b'}' ∷ b' ' ∷ c ∷ s)) ≡ b'{' ∷ (inner ++ b'}' ∷ b' ' ∷ c ∷ s)
trim_braces inner c s h =
    let (init, z, e, hz) = last-All IsGraphic c s (value-IsGraphic c s h) in
    trim_space-visible _ _ b'{' z (b'{' ∷ (inner ++ b'}' ∷ b' ' ∷ init)) refl
      (rw e (ap (◌∷◌ b'{') (rw append_assoc))) (omega arith) hz

split_braced :
    (inner : Bytes) (c : ℕ) (s : Bytes)
    → All IsValueByte (c ∷ s)
    → split_labels_and_value (b'{' ∷ (inner ++ b'}' ∷ b' ' ∷ c ∷ s))
      ≡ some (parse_labels inner, c ∷ s)
unfolding split_labels_and_value first_field split_braces
split_braced inner c s h =
    rw
      (
        trim_braces inner c s h,
        has_prefix_one b'{' b'{' (inner ++ b'}' ∷ b' ' ∷ c ∷ s),
        last_index?-append b'}' (b'{' ∷ inner) (b' ' ∷ c ∷ s)
            (refl, All-map (λ x p. p.2) (c ∷ s) h),
      )
      (rw (
        take-append inner (b'}' ∷ b' ' ∷ c ∷ s),
        drop-suc-append inner b'}' (b' ' ∷ c ∷ s),
        fields-blank (c ∷ s),
        fields-word c s (value-IsGraphic c s h),
      ))

split_labels-print :
    (labels : Dict Bytes) (text : Bytes)
    → All IsLabel labels
    → IsWord IsValueByte text
    → split_labels_and_value (print_rest labels text) ≡ some (store_all [] labels, text)
split_labels-print labels [] h k = elim k [ ]
split_labels-print [] (c ∷ s) h k = split_plain c s k
split_labels-print (l ∷ ls) (c ∷ s) h k =
    split_braced (print_labels (l ∷ ls)) c s k
    ∙ ap (λ (m : Dict Bytes). some (m, c ∷ s)) (parse_labels-print (l ∷ ls) h)

module _ {F : Type 0} ⦃fl : Float F⦄ where
  finite_sample-IsFinite_eq :
      (name : Bytes) (labels : Dict Bytes) (x : F)
      → IsFinite x
      → finite_sample name labels x ≡ some (record { name = name; labels = labels; value = x })
  unfolding finite_sample
  finite_sample-IsFinite_eq name labels x h = rw h

  finite_sample-is_special :
      (name : Bytes) (labels : Dict Bytes) (x : F)
      → is_special x ≡ true
      → finite_sample name labels x ≡ none
  unfolding finite_sample
  finite_sample-is_special name labels x h = rw h

  parse_line-finite_sample :
      (name : Bytes) (labels : Dict Bytes) (text : Bytes) (x : F)
      → IsWord IsMetricByte name
      → All IsLabel labels
      → IsWord IsValueByte text
      → fl.parse_float text ≡ some x
      → parse_line (name ++ print_rest labels text) ≡ finite_sample name (store_all [] labels) x
  unfolding parse_line
  parse_line-finite_sample [] labels text x h hl ht hx = elim h [ ]
  parse_line-finite_sample (c ∷ name) labels text x h hl ht hx =
      rw (split_name-print c name labels text h) (rw (split_labels-print labels text hl ht) (rw hx))

  -- A series is parsed back from its line: the name, the map of its labels, and its value, if the
  -- value's text reads as a finite number. The name is of visible ASCII characters other than a brace
  -- and a hash sign, and the value's text of such characters other than braces.
  pub parse_line-print :
      (name : Bytes) (labels : Dict Bytes) (text : Bytes) (x : F)
      → IsWord IsMetricByte name
      → All IsLabel labels
      → IsWord IsValueByte text
      → fl.parse_float text ≡ some x
      → IsFinite x
      → parse_line (name ++ print_rest labels text)
        ≡ some (record { name = name; labels = store_all [] labels; value = x })
  parse_line-print name labels text x h hl ht hx hf =
      parse_line-finite_sample name labels text x h hl ht hx
      ∙ finite_sample-IsFinite_eq name (store_all [] labels) x hf

  -- A series whose value is NaN or an infinity is dropped.
  pub parse_line-special :
      (name : Bytes) (labels : Dict Bytes) (text : Bytes) (x : F)
      → IsWord IsMetricByte name
      → All IsLabel labels
      → IsWord IsValueByte text
      → fl.parse_float text ≡ some x
      → is_special x ≡ true
      → parse_line {F = F} (name ++ print_rest labels text) ≡ none
  parse_line-special name labels text x h hl ht hx hs =
      parse_line-finite_sample name labels text x h hl ht hx
      ∙ finite_sample-is_special name (store_all [] labels) x hs
