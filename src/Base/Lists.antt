-- ===== src/Base/Lists.antt =====
-- Lists measured by native numbers, predicates on them, and texts as lists of bytes.
use Prim.Native.Char.{code}
use Prim.Native.Nat.{ℕ, zero, suc, ◌+◌}
use Prim.Native.String.{String}
use mathlib.Core.Bool.{Bool, true, false, not, ◌&&◌, ◌||◌}
use mathlib.Core.List.{List, [], ◌∷◌, ◌++◌, map}
use mathlib.Core.Logic.{◌↔◌, ◌≢◌, ◌⊎◌, inl, inr}
use mathlib.Core.Path.{◌≡◌, refl, ap, sym, subst}
use native.Mathlib.Omega.{arith}
use sparkwrangler.Base.Tests.{Bool-cases, ◌==◌, if◌then◌else◌}

module _ {ℓ} {A : Type ℓ} where
  abbrev pub length : List A → ℕ
  length [] = 0
  length (x ∷ xs) = suc (length xs)

  abbrev pub take : ℕ → List A → List A
  take zero xs = []
  take (suc n) [] = []
  take (suc n) (x ∷ xs) = x ∷ take n xs

  abbrev pub drop : ℕ → List A → List A
  drop zero xs = xs
  drop (suc n) [] = []
  drop (suc n) (x ∷ xs) = drop n xs

  abbrev pub get_or : List A → ℕ → A → A
  get_or [] i d = d
  get_or (x ∷ xs) zero d = x
  get_or (x ∷ xs) (suc i) d = get_or xs i d

  pub length-append : (xs ys : List A) → length (xs ++ ys) ≡ length xs + length ys
  length-append [] ys = omega arith
  length-append (x ∷ xs) ys = omega (arith, length-append xs ys)

-- A predicate by recursion computes to tuples, which the tactics read and build.
abbrev pub All {ℓ κ} : {A : Type ℓ} → (A → Type κ) → List A → Type κ
All P [] = Unit
All P (x ∷ xs) = P x × All P xs

pub All-append {ℓ κ} :
    {A : Type ℓ} (P : A → Type κ) (front back : List A)
    → All P front
    → All P back
    → All P (front ++ back)
All-append P [] back h k = k
All-append P (a ∷ front) back h k = (h.0, All-append P front back h.1 k)

pub All-map {ℓ κ μ} :
    {A : Type ℓ} {P : A → Type κ} {Q : A → Type μ}
    → ((x : A) → P x → Q x)
    → (xs : List A) → All P xs
    → All Q xs
All-map f [] h = tt
All-map f (x ∷ xs) h = (f x h.0, All-map f xs h.1)

-- Texts of the program are Go strings, which are sequences of bytes.
abbrev pub Bytes : Type 0
Bytes = List ℕ

-- The bytes of an ASCII literal.
abbrev pub codes : String → Bytes
codes String.[] = []
codes (String.◌∷◌ c s) = code c ∷ codes s

-- `==` on strings.
unfoldable pub equal : Bytes → Bytes → Bool
equal [] [] = true
equal (x ∷ xs) (y ∷ ys) = (x == y) && equal xs ys
equal _ _ = false

pub equal_iff : (s t : Bytes) → (equal s t ≡ true) ↔ (s ≡ t)
unfolding equal
equal_iff (c ∷ s) (d ∷ t) = ground (arith, equal_iff s t)
equal_iff _ _ = ground arith

pub equal_refl : (a : Bytes) → equal a a ≡ true
equal_refl a = (equal_iff a a).1 refl

-- Whether a text is one of a list, as in a `switch` over literals.
unfoldable pub one_of : Bytes → List Bytes → Bool
unfolding equal
one_of a [] = false
one_of a (b ∷ bs) = equal a b || one_of a bs

pub one_of-append :
    (a : Bytes) (bs cs : List Bytes) → one_of a (bs ++ cs) ≡ (one_of a bs || one_of a cs)
unfolding one_of
one_of-append a [] cs = refl
one_of-append a (b ∷ bs) cs = ground (arith, one_of-append a bs cs)

abbrev pub keep {ℓ} : {A : Type ℓ} → (A → Bool) → List A → List A
keep p [] = []
keep p (x ∷ xs) = if p x then x ∷ keep p xs else keep p xs

-- A list with a first element has a last one.
-- A property of all the texts of a list holds of each that the test finds there.
pub one_of-All {ℓ} :
    (P : Bytes → Type ℓ) (a : Bytes) (bs : List Bytes) → All P bs → one_of a bs ≡ true → P a
unfolding one_of
one_of-All P a [] h k = cc
one_of-All P a (b ∷ bs) h k = elim (Bool-cases (equal a b)) [
  | inl same ↦ subst P (sym ((equal_iff a b).0 same)) h.0
  | inr other ↦ one_of-All P a bs h.1 (rw other at k)
]

pub last-All {ℓ κ} :
    {A : Type ℓ} (P : A → Type κ) (x : A) (xs : List A)
    → All P (x ∷ xs)
    → (init : List A) × (z : A) × ((x ∷ xs) ≡ init ++ z ∷ []) × P z
last-All P x [] h = ([], x, refl, h.0)
last-All P x (y ∷ ys) h =
    let (init, z, e, hz) = last-All P y ys h.1 in (x ∷ init, z, ap (◌∷◌ x) e, hz)

-- A check of every element, for lists that are at hand.
unfoldable pub every {ℓ} : {A : Type ℓ} → (A → Bool) → List A → Bool
every p [] = true
every p (x ∷ xs) = p x && every p xs

pub every_sound {ℓ κ} :
    {A : Type ℓ} {P : A → Type κ} (p : A → Bool)
    → ((x : A) → p x ≡ true → P x)
    → (xs : List A) → every p xs ≡ true
    → All P xs
unfolding every
every_sound p sound [] h = tt
every_sound p sound (x ∷ xs) h = (sound x (ground arith), every_sound p sound xs (ground arith))

-- A number that every element of a list shares.
pub All-equal {ℓ} :
    {A : Type ℓ} (f : A → ℕ) (n : ℕ) (xs : List A)
    → every (λ x. f x == n) xs ≡ true
    → All (λ x. f x ≡ n) xs
unfolding every
All-equal f n [] h = tt
All-equal f n (x ∷ xs) h = (ground arith, All-equal f n xs (ground arith))

abbrev pub Distinct {ℓ} : {A : Type ℓ} → List A → Type ℓ
Distinct [] = Unit
Distinct (x ∷ xs) = All (λ y. x ≢ y) xs × Distinct xs

-- The same check for texts.
unfoldable pub distinct : List Bytes → Bool
unfolding one_of
distinct [] = true
distinct (x ∷ xs) = not (one_of x xs) && distinct xs

one_of-false : (x : Bytes) (xs : List Bytes) → one_of x xs ≡ false → All (λ y. x ≢ y) xs
unfolding one_of
one_of-false x [] h = tt
one_of-false x (y ∷ ys) h = (
  (λ e. cc (ap (λ z. equal x z) (sym e), equal_refl x, fact h)),
  one_of-false x ys (ground arith),
)
  where
    fact : (equal x y || one_of x ys) ≡ false → equal x y ≡ false
    fact k = ground arith

pub distinct_sound : (xs : List Bytes) → distinct xs ≡ true → Distinct xs
unfolding distinct
distinct_sound [] h = tt
distinct_sound (x ∷ xs) h = (one_of-false x xs (ground arith), distinct_sound xs (ground arith))

All-map_iff {ℓ κ μ} :
    {A : Type ℓ} {B : Type κ} (P : B → Type μ) (f : A → B) (xs : List A)
    → All (λ x. P (f x)) xs
    → All P (map f xs)
All-map_iff P f [] h = tt
All-map_iff P f (x ∷ xs) h = (h.0, All-map_iff P f xs h.1)

pub Distinct-map {ℓ κ} :
    {A : Type ℓ} {B : Type κ} (f : A → B)
    → ((x y : A) → f x ≡ f y → x ≡ y)
    → (xs : List A) → Distinct xs
    → Distinct (map f xs)
Distinct-map f inj [] h = tt
Distinct-map f inj (x ∷ xs) h = (
  All-map_iff (λ z. f x ≢ z) f xs (All-map (λ y ne e. ne (inj x y e)) xs h.0),
  Distinct-map f inj xs h.1,
)

-- Membership by recursion.
abbrev pub Has : {A : Type 0} → A → List A → Type 0
Has a [] = ⊥
Has a (x ∷ xs) = (x ≡ a) ⊎ Has a xs
