-- ===== src/Text/Search.antt =====
-- `strings.HasPrefix`, `IndexAny`, `LastIndex`, `Cut`, `Split`, `Contains` and `ToLower`.
use sparkwrangler.Base.{
  ℕ, suc, ◌+◌, Bool, true, false, not, ◌&&◌, ◌||◌, every, every_sound, Option, none, some, List, [],
  ◌∷◌, ◌++◌, map, ◌≡◌, refl, ap, arith, leb, ◌==◌, if◌then◌else◌, Bytes, All, length, take, drop,
  append_assoc, append-nil,
}

unfoldable pub has_prefix : Bytes → Bytes → Bool
has_prefix s [] = true
has_prefix [] (p ∷ ps) = false
has_prefix (c ∷ s) (p ∷ ps) = c == p && has_prefix s ps

unfoldable pub contains : Bytes → Bytes → Bool
unfolding has_prefix
contains [] sub = has_prefix [] sub
contains (c ∷ s) sub = has_prefix (c ∷ s) sub || contains s sub

-- The position of the first byte that passes a test.
unfoldable pub index_any? : (ℕ → Bool) → Bytes → Option ℕ
index_any? p [] = none
index_any? p (c ∷ s) = elim (p c) [
  | true ↦ some 0
  | false ↦ elim (index_any? p s) [ none ↦ none | some i ↦ some (suc i) ]
]

-- The position of the last occurrence of a byte.
unfoldable pub last_index? : ℕ → Bytes → Option ℕ
last_index? b [] = none
last_index? b (c ∷ s) = elim (last_index? b s) [
  | some i ↦ some (suc i)
  | none ↦ if c == b then some 0 else none
]

-- `strings.Cut` at a single byte: the texts before and after its first occurrence.
unfoldable pub cut : ℕ → Bytes → Option (Bytes × Bytes)
cut b [] = none
cut b (c ∷ s) = elim (c == b) [
  | true ↦ some ([], s)
  | false ↦ elim (cut b s) [ none ↦ none | some (before, after) ↦ some (c ∷ before, after) ]
]

split_from : ℕ → Bytes → Bytes → List Bytes
split_from b part [] = part ∷ []
split_from b part (c ∷ s) = elim (c == b) [
  | true ↦ part ∷ split_from b [] s
  | false ↦ split_from b (part ++ c ∷ []) s
]

-- `strings.Split` at a single byte.
unfoldable pub split : ℕ → Bytes → List Bytes
unfolding split_from
split b s = split_from b [] s

-- `strings.ToLower` on ASCII texts.
abbrev lower : ℕ → ℕ
lower c = if leb b'A' c && leb c b'Z' then c + 32 else c

unfoldable pub to_lower : Bytes → Bytes
to_lower s = map lower s

abbrev pub Lacks : ℕ → Bytes → Type 0
Lacks b = All (λ c. (c == b) ≡ false)

-- The same check as a test, for a literal.
pub Lacks-sound : (b : ℕ) (s : Bytes) → every (λ c. not (c == b)) s ≡ true → Lacks b s
Lacks-sound b s h = every_sound (λ c. not (c == b)) (λ c k. ground arith) s h

pub index_any?-append :
    (p : ℕ → Bool) (s : Bytes) (c : ℕ) (rest : Bytes)
    → All (λ d. p d ≡ false) s
    → p c ≡ true
    → index_any? p (s ++ c ∷ rest) ≡ some (length s)
unfolding index_any?
index_any?-append p [] c rest h hc = rw hc
index_any?-append p (d ∷ s) c rest h hc = rw (h.0, index_any?-append p s c rest h.1 hc)

last_index?-Lacks : (b : ℕ) (s : Bytes) → Lacks b s → last_index? b s ≡ none
unfolding last_index?
last_index?-Lacks b [] h = refl
last_index?-Lacks b (c ∷ s) h = rw (last_index?-Lacks b s h.1, h.0)

pub last_index?-append :
    (b : ℕ) (s rest : Bytes) → Lacks b rest → last_index? b (s ++ b ∷ rest) ≡ some (length s)
unfolding last_index?
last_index?-append b [] rest h = rw (last_index?-Lacks b rest h) (ground arith)
last_index?-append b (c ∷ s) rest h = rw (last_index?-append b s rest h)

pub cut-append : (b : ℕ) (s rest : Bytes) → Lacks b s → cut b (s ++ b ∷ rest) ≡ some (s, rest)
unfolding cut
cut-append b [] rest h = ground arith
cut-append b (c ∷ s) rest h = ground (arith, cut-append b s rest h.1)

pub take-append {ℓ} : {A : Type ℓ} (xs ys : List A) → take (length xs) (xs ++ ys) ≡ xs
take-append [] ys = refl
take-append (x ∷ xs) ys = ap (◌∷◌ x) (take-append xs ys)

pub drop-append {ℓ} : {A : Type ℓ} (xs ys : List A) → drop (length xs) (xs ++ ys) ≡ ys
drop-append [] ys = refl
drop-append (x ∷ xs) ys = drop-append xs ys

split_from-append :
    (b : ℕ) (s part rest : Bytes)
    → Lacks b s
    → split_from b part (s ++ b ∷ rest) ≡ (part ++ s) ∷ split_from b [] rest
unfolding split_from
split_from-append b [] part rest h = rw append-nil (ground arith)
split_from-append b (c ∷ s) part rest h =
    ground (arith, split_from-append b s (part ++ c ∷ []) rest h.1, append_assoc part (c ∷ []) s)

-- The part in front of the first separator is the first part.
pub split-append : (b : ℕ) (s rest : Bytes) → Lacks b s → split b (s ++ b ∷ rest) ≡ s ∷ split b rest
unfolding split
split-append b s rest = split_from-append b s [] rest

split_from-Lacks : (b : ℕ) (s part : Bytes) → Lacks b s → split_from b part s ≡ (part ++ s) ∷ []
unfolding split_from
split_from-Lacks b [] part h = rw append-nil
split_from-Lacks b (c ∷ s) part h =
    ground (arith, split_from-Lacks b s (part ++ c ∷ []) h.1, append_assoc part (c ∷ []) s)

pub split-Lacks : (b : ℕ) (s : Bytes) → Lacks b s → split b s ≡ s ∷ []
unfolding split
split-Lacks b s = split_from-Lacks b s []

pub drop-suc-append {ℓ} :
    {A : Type ℓ} (xs : List A) (y : A) (ys : List A) → drop (suc (length xs)) (xs ++ y ∷ ys) ≡ ys
drop-suc-append [] y ys = refl
drop-suc-append (x ∷ xs) y ys = drop-suc-append xs y ys

pub has_prefix_one : (b c : ℕ) (s : Bytes) → has_prefix (c ∷ s) (b ∷ []) ≡ (c == b)
unfolding has_prefix
has_prefix_one b c s = ground arith
