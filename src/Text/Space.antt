-- ===== src/Text/Space.antt =====
-- `strings.TrimSpace` and `strings.Fields`: white space is Unicode's, read from its UTF-8 bytes.
use mathlib.Core.List.{reverse-append, reverse-reverse}
use sparkwrangler.Base.{
  ℕ, zero, suc, ◌≤◌, ◌<◌, Bool, ◌&&◌, ◌||◌, List, [], ◌∷◌, ◌++◌, reverse, append_assoc, append-nil,
  ◌≡◌, refl, ◌∙◌, ap, arith, leb, ◌==◌, if◌then◌else◌, Bytes, All, last-All,
}

-- The ASCII part of `unicode.IsSpace`: tab to carriage return, and the blank.
abbrev pub is_ascii_space : ℕ → Bool
is_ascii_space c = (leb 9 c && leb c 13) || c == 32

-- U+0085 and U+00A0.
abbrev is_space2 : ℕ → ℕ → Bool
is_space2 a b = a == 0xc2 && (b == 0x85 || b == 0xa0)

-- U+1680, U+2000 to U+200A, U+2028, U+2029, U+202F, U+205F and U+3000.
abbrev is_space3 : ℕ → ℕ → ℕ → Bool
is_space3 a b c =
    (a == 0xe1 && b == 0x9a && c == 0x80)
    || (a == 0xe2
        && b == 0x80
        && ((leb 0x80 c && leb c 0x8a) || c == 0xa8 || c == 0xa9 || c == 0xaf))
    || (a == 0xe2 && b == 0x81 && c == 0x9f)
    || (a == 0xe3 && b == 0x80 && c == 0x80)

-- The length of a white-space character of several bytes that `a` begins, 0 if there is none.
wide_width : ℕ → Bytes → ℕ
wide_width a [] = 0
wide_width a (b ∷ []) = if is_space2 a b then 2 else 0
wide_width a (b ∷ c ∷ s) = if is_space2 a b then 2 else if is_space3 a b c then 3 else 0

-- The number of bytes of the white-space character at the head of a text, 0 if there is none.
space_width : Bytes → ℕ
unfolding wide_width
space_width [] = 0
space_width (a ∷ s) = if is_ascii_space a then 1 else wide_width a s

-- The same for a character that ends with `c`, where the bytes before it are given back to front.
wide_width_rev : ℕ → Bytes → ℕ
wide_width_rev c [] = 0
wide_width_rev c (b ∷ []) = if is_space2 b c then 2 else 0
wide_width_rev c (b ∷ a ∷ s) = if is_space2 b c then 2 else if is_space3 a b c then 3 else 0

space_width_rev : Bytes → ℕ
unfolding wide_width_rev
space_width_rev [] = 0
space_width_rev (c ∷ s) = if is_ascii_space c then 1 else wide_width_rev c s

-- Drops `n` bytes, and the white space behind them.
skip : (Bytes → ℕ) → ℕ → Bytes → Bytes
skip width n [] = []
skip width (suc n) (c ∷ s) = skip width n s
skip width zero (c ∷ s) = elim (width (c ∷ s)) [ zero ↦ c ∷ s | suc w ↦ skip width w s ]

unfoldable pub trim_space : Bytes → Bytes
unfolding skip space_width space_width_rev
trim_space s = reverse (skip space_width_rev 0 (reverse (skip space_width 0 s)))

-- A word, if there is one.
abbrev flush : Bytes → List Bytes
flush [] = []
flush (c ∷ w) = (c ∷ w) ∷ []

fields_from : ℕ → Bytes → Bytes → List Bytes
fields_from n word [] = flush word
fields_from (suc n) word (c ∷ s) = fields_from n word s
fields_from zero word (c ∷ s) = elim (space_width (c ∷ s)) [
  | zero ↦ fields_from zero (word ++ c ∷ []) s
  | suc w ↦ flush word ++ fields_from w [] s
]

unfoldable pub fields : Bytes → List Bytes
unfolding fields_from space_width
fields s = fields_from 0 [] s

-- The visible ASCII characters.
abbrev pub IsGraphic : ℕ → Type 0
IsGraphic c = (33 ≤ c) × (c < 127)

space_width-graphic : (c : ℕ) (s : Bytes) → IsGraphic c → space_width (c ∷ s) ≡ 0
unfolding space_width
space_width-graphic c [] h = ground arith
space_width-graphic c (b ∷ []) h = ground arith
space_width-graphic c (b ∷ a ∷ s) h = ground arith

space_width_rev-graphic : (c : ℕ) (s : Bytes) → IsGraphic c → space_width_rev (c ∷ s) ≡ 0
unfolding space_width_rev
space_width_rev-graphic c [] h = ground arith
space_width_rev-graphic c (b ∷ []) h = ground arith
space_width_rev-graphic c (b ∷ a ∷ s) h = ground arith

skip-visible :
    (width : Bytes → ℕ) (c : ℕ) (s : Bytes) → width (c ∷ s) ≡ 0 → skip width 0 (c ∷ s) ≡ c ∷ s
unfolding skip
skip-visible width c s h = rw (h, skip)

-- Nothing is trimmed from a text that begins and ends with visible characters.
pub trim_space-visible :
    (s t : Bytes) (a z : ℕ) (u : Bytes)
    → s ≡ a ∷ t
    → s ≡ u ++ z ∷ []
    → IsGraphic a
    → IsGraphic z
    → trim_space s ≡ s
unfolding trim_space
trim_space-visible s t a z u p q ha hz =
    let left : skip space_width 0 s ≡ s =
      rw p (skip-visible space_width a t (space_width-graphic a t ha)) in
    let back : reverse s ≡ z ∷ reverse u = rw q (reverse-append u (z ∷ [])) in
    let right : skip space_width_rev 0 (reverse s) ≡ reverse s =
      rw back
        (skip-visible space_width_rev z (reverse u) (space_width_rev-graphic z (reverse u) hz)) in
    rw (left, right) (reverse-reverse s)

-- A text that begins and ends with a visible character.
pub record IsTrimmed (s : Bytes) : Type 0 where
  pub first : ℕ
  pub rest : Bytes
  pub init : Bytes
  pub last : ℕ
  pub starts : s ≡ first ∷ rest
  pub stops : s ≡ init ++ last ∷ []
  pub first_graphic : IsGraphic first
  pub last_graphic : IsGraphic last

pub trim_space-IsTrimmed : (s : Bytes) → IsTrimmed s → trim_space s ≡ s
trim_space-IsTrimmed s t =
    trim_space-visible s t.rest t.first t.last t.init t.starts t.stops t.first_graphic
      t.last_graphic

-- What stands between two such texts does not matter.
pub IsTrimmed-append : (a m b : Bytes) → IsTrimmed a → IsTrimmed b → IsTrimmed (a ++ (m ++ b))
IsTrimmed-append a m b s t = record {
  first = s.first;
  rest = s.rest ++ (m ++ b);
  init = a ++ (m ++ t.init);
  last = t.last;
  starts = ap (λ x. x ++ (m ++ b)) s.starts;
  stops = ap (λ x. a ++ (m ++ x)) t.stops ∙ simp append_assoc;
  first_graphic = s.first_graphic;
  last_graphic = t.last_graphic;
}

pub IsTrimmed-word : (c : ℕ) (w : Bytes) → All IsGraphic (c ∷ w) → IsTrimmed (c ∷ w)
IsTrimmed-word c w h =
    let (init, z, e, hz) = last-All IsGraphic c w h in
    record {
      first = c;
      rest = w;
      init = init;
      last = z;
      starts = refl;
      stops = e;
      first_graphic = h.0;
      last_graphic = hz;
    }

-- Nothing is trimmed from a word.
pub trim_space-word : (c : ℕ) (w : Bytes) → All IsGraphic (c ∷ w) → trim_space (c ∷ w) ≡ c ∷ w
trim_space-word c w h =
    let (init, z, e, hz) = last-All IsGraphic c w h in
    trim_space-visible (c ∷ w) w c z init refl e h.0 hz

-- A blank in front is trimmed.
pub trim_space-blank : (s : Bytes) → trim_space (32 ∷ s) ≡ trim_space s
unfolding trim_space
trim_space-blank [] = refl
trim_space-blank (c ∷ s) = refl

fields_from-word :
    (w s word : Bytes) → All IsGraphic w → fields_from 0 word (w ++ s) ≡ fields_from 0 (word ++ w) s
unfolding fields_from
fields_from-word [] s word h = rw append-nil
fields_from-word (c ∷ w) s word h =
    rw (space_width-graphic c (w ++ s) h.0, fields_from)
      (fields_from-word w s (word ++ c ∷ []) h.1 ∙ rw append_assoc)

-- A word at the end of a text is its last field.
pub fields-word : (c : ℕ) (w : Bytes) → All IsGraphic (c ∷ w) → fields (c ∷ w) ≡ (c ∷ w) ∷ []
unfolding fields
fields-word c w h = rw (append-nil w) at (fields_from-word (c ∷ w) [] [] h)

-- A blank in front of a text is skipped.
pub fields-blank : (s : Bytes) → fields (32 ∷ s) ≡ fields s
unfolding fields
fields-blank [] = refl
fields-blank (c ∷ s) = refl

-- A word with a blank behind it is the first field.
pub fields-cons :
    (c : ℕ) (w s : Bytes) → All IsGraphic (c ∷ w) → fields ((c ∷ w) ++ 32 ∷ s) ≡ (c ∷ w) ∷ fields s
unfolding fields
fields-cons c w [] h = fields_from-word (c ∷ w) (32 ∷ []) [] h
fields-cons c w (d ∷ s) h = fields_from-word (c ∷ w) (32 ∷ d ∷ s) [] h
