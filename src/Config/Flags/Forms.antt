-- ===== src/Config/Flags/Forms.antt =====
-- How the command line assigns a value to a flag, and what the scan makes of one assignment.
use sparkwrangler.Base.{
  ℕ, false, Option, none, some, List, [], ◌∷◌, ◌++◌, ◌≡◌, refl, sym, ◌∙◌, ap, ◌==◌, arith,
  some_injective, Bytes, codes, insert, lookup, ok,
}
use sparkwrangler.Base.Int.{pos}
use sparkwrangler.Config.Flags.{
  Parsed, Parsers, FlagSet, Value, text, integer, boolean, duration, flag, token, named, flag_at,
  parse_one, set_flag, set_argument, store_value, set_value, with_value, or_true, parse,
}
use sparkwrangler.Text.Search.{Lacks, cut, cut-append}

-- A name that can stand before an equals sign.
abbrev pub IsFlagName : Bytes → Type 0
IsFlagName [] = ⊥
IsFlagName (c ∷ s) = ((c == b'-') ≡ false) × ((c == b'=') ≡ false) × Lacks b'=' s

-- How an assignment is written: `-name=value`, `-name value`, or `-name` alone, which a Boolean flag
-- takes for `true`.
pub data Form : Type 0 where
  joined : Form
  separate : Form
  alone : Form

-- A value for a flag, with the text that stands for it.
pub record Assignment : Type 0 where
  pub name : Bytes
  pub form : Form
  pub spelled : Bytes
  pub value : Value

abbrev pub print_form : Form → Bytes → Bytes → List Bytes → List Bytes
print_form joined name s args = (b'-' ∷ (name ++ b'=' ∷ s)) ∷ args
print_form separate name s args = (b'-' ∷ name) ∷ s ∷ args
print_form alone name s args = (b'-' ∷ name) ∷ args

abbrev pub print_all : List Assignment → List Bytes
print_all [] = []
print_all (a ∷ rest) = print_form a.form a.name a.spelled (print_all rest)

-- The type of a flag, as the zero value of that type.
abbrev pub sort : Value → Value
sort (text s) = text []
sort (integer n) = integer (pos 0)
sort (boolean b) = boolean false
sort (duration n) = duration (pos 0)

-- Which forms a flag of some type takes.
abbrev pub Takes : Form → Value → Bytes → Type 0
Takes joined old s = Unit
Takes separate (boolean b) s = ⊥
Takes separate _ s = Unit
Takes alone (boolean b) s = s ≡ codes "true"
Takes alone _ s = ⊥

-- An assignment to a flag that is defined, in a form and with a text that a flag of its type takes.
pub record IsTaken (p : Parsers) (fs : FlagSet) (a : Assignment) : Type 0 where
  pub named : IsFlagName a.name
  pub old : Value
  pub defined : lookup a.name fs ≡ some old
  pub takes : Takes a.form (sort old) a.spelled
  pub reads : set_value p (sort old) a.spelled ≡ some a.value

cut-Lacks : (b : ℕ) (s : Bytes) → Lacks b s → cut b s ≡ none
unfolding cut
cut-Lacks b [] h = refl
cut-Lacks b (c ∷ s) h = ground (arith, cut-Lacks b s h.1)

token-joined :
    (name s : Bytes) → IsFlagName name → token (b'-' ∷ (name ++ b'=' ∷ s)) ≡ flag name (some s)
unfolding token named flag_at
token-joined [] s h = elim h [ ]
token-joined (c ∷ name) s h = rw (h.0, h.1, cut-append b'=' name s h.2)

token-bare : (name : Bytes) → IsFlagName name → token (b'-' ∷ name) ≡ flag name none
unfolding token named flag_at
token-bare [] h = elim h [ ]
token-bare (c ∷ name) h = rw (h.0, h.1, cut-Lacks b'=' name h.2)

module _ (p : Parsers) where
  set_value-sort : (old : Value) (s : Bytes) → set_value p old s ≡ set_value p (sort old) s
  unfolding set_value
  set_value-sort (text t) s = refl
  set_value-sort (integer n) s = refl
  set_value-sort (boolean b) s = refl
  set_value-sort (duration n) s = refl

  taken :
      (old v : Value) (s : Bytes) → set_value p (sort old) s ≡ some v → set_value p old s ≡ some v
  taken old v s r = set_value-sort old s ∙ r

  store_value_ok :
      (name s : Bytes) (v : Value) (o : Option Value) (fs : FlagSet) (next : FlagSet → Parsed)
      → o ≡ some v
      → store_value name s o fs next ≡ next (insert name v fs)
  unfolding store_value
  store_value_ok name s v o fs next h = rw h

  set_flag-joined :
      (name s : Bytes) (old v : Value) (fs : FlagSet) (next : FlagSet → Parsed)
      (more : Option (Bytes × (FlagSet → Parsed)))
      → set_value p (sort old) s ≡ some v
      → set_flag p name (some old) (some s) fs next more ≡ next (insert name v fs)
  unfolding set_flag set_argument store_value or_true
  set_flag-joined name s (text t) v fs next more r =
      store_value_ok name s v _ fs next (taken (text t) v s r)
  set_flag-joined name s (integer n) v fs next more r =
      store_value_ok name s v _ fs next (taken (integer n) v s r)
  set_flag-joined name s (boolean b) v fs next more r =
      store_value_ok name s v _ fs next (taken (boolean b) v s r)
  set_flag-joined name s (duration n) v fs next more r =
      store_value_ok name s v _ fs next (taken (duration n) v s r)

  set_flag-separate :
      (name s : Bytes) (old v : Value) (fs : FlagSet) (next skip : FlagSet → Parsed)
      → Takes separate (sort old) s
      → set_value p (sort old) s ≡ some v
      → set_flag p name (some old) none fs next (some (s, skip)) ≡ skip (insert name v fs)
  unfolding set_flag set_argument store_value
  set_flag-separate name s (text t) v fs next skip h r =
      store_value_ok name s v _ fs skip (taken (text t) v s r)
  set_flag-separate name s (integer n) v fs next skip h r =
      store_value_ok name s v _ fs skip (taken (integer n) v s r)
  set_flag-separate name s (boolean b) v fs next skip h r = elim h [ ]
  set_flag-separate name s (duration n) v fs next skip h r =
      store_value_ok name s v _ fs skip (taken (duration n) v s r)

  set_flag-alone :
      (name s : Bytes) (old v : Value) (fs : FlagSet) (next : FlagSet → Parsed)
      (more : Option (Bytes × (FlagSet → Parsed)))
      → Takes alone (sort old) s
      → set_value p (sort old) s ≡ some v
      → set_flag p name (some old) none fs next more ≡ next (insert name v fs)
  unfolding set_flag store_value or_true
  set_flag-alone name s (text t) v fs next more h r = elim h [ ]
  set_flag-alone name s (integer n) v fs next more h r = elim h [ ]
  set_flag-alone name s (boolean b) v fs next more h r =
      store_value_ok name _ v _ fs next
        (ap (set_value p (boolean b)) (sym h) ∙ taken (boolean b) v s r)
  set_flag-alone name s (duration n) v fs next more h r = elim h [ ]

  -- The scan goes on behind an assignment, with the flag set.
  pub parse_form :
      (fs : FlagSet) (form : Form) (name s : Bytes) (old v : Value) (args : List Bytes)
      → IsFlagName name
      → lookup name fs ≡ some old
      → Takes form (sort old) s
      → set_value p (sort old) s ≡ some v
      → parse p fs (print_form form name s args) ≡ parse p (insert name v fs) args
  unfolding parse parse_one
  parse_form fs joined name s old v [] h e t r =
      rw (token-joined name s h) (rw e (set_flag-joined name s old v fs (λ f. ok f) none r))
  parse_form fs joined name s old v (b ∷ args) h e t r =
      rw (token-joined name s h) (rw e (set_flag-joined name s old v fs _ _ r))
  parse_form fs separate name s old v args h e t r =
      rw (token-bare name h) (rw e (set_flag-separate name s old v fs _ _ t r))
  parse_form fs alone name s old v [] h e t r =
      rw (token-bare name h) (rw e (set_flag-alone name s old v fs (λ f. ok f) none t r))
  parse_form fs alone name s old v (b ∷ args) h e t r =
      rw (token-bare name h) (rw e (set_flag-alone name s old v fs _ _ t r))

  with_value-sort :
      {A : Type 0} (f : A → Value) (z v : Value) (o : Option A)
      → ((a : A) → sort (f a) ≡ z)
      → with_value p f o ≡ some v
      → sort v ≡ z
  unfolding with_value
  with_value-sort f z v none h r = cc
  with_value-sort f z v (some a) h r = ap sort (sym (some_injective r)) ∙ h a

  -- A value that was parsed for a flag has the flag's type.
  pub sort-set_value :
      (old v : Value) (s : Bytes) → set_value p (sort old) s ≡ some v → sort v ≡ sort old
  unfolding set_value
  sort-set_value (text t) v s r = ap sort (sym (some_injective r))
  sort-set_value (integer n) v s r = with_value-sort integer (integer (pos 0)) v _ (λ a. refl) r
  sort-set_value (boolean b) v s r = with_value-sort boolean (boolean false) v _ (λ a. refl) r
  sort-set_value (duration n) v s r = with_value-sort duration (duration (pos 0)) v _ (λ a. refl) r
