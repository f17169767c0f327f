-- ===== src/Config/Flags/Assignments.antt =====
-- A command line that assigns values to defined flags sets them one after the other.
use sparkwrangler.Base.{
  true, Option, some, List, [], ◌∷◌, ◌≡◌, refl, sym, ◌∙◌, ap, some_injective, if◌then◌else◌, Bytes,
  insert, lookup, lookup-insert, equal, equal_iff, subst, ok, All, Bool-cases, inl, inr,
}
use sparkwrangler.Config.Flags.{Parsers, FlagSet, Value, set_value, parse}
use sparkwrangler.Config.Flags.Forms.{
  Assignment, IsTaken, Takes, print_all, sort, parse_form, sort-set_value,
}

abbrev pub assign_all : FlagSet → List Assignment → FlagSet
assign_all fs [] = fs
assign_all fs (a ∷ rest) = assign_all (insert a.name a.value fs) rest

-- The value that was assigned to a name last, or an earlier one.
abbrev pub last_assigned : Bytes → Option Value → List Assignment → Option Value
last_assigned k o [] = o
last_assigned k o (a ∷ rest) = last_assigned k (if equal a.name k then some a.value else o) rest

module _ (p : Parsers) where
  same_sort :
      (fs : FlagSet) (a : Assignment) (k : Bytes) (old : Value)
      → IsTaken p fs a
      → equal a.name k ≡ true
      → lookup k fs ≡ some old
      → sort a.value ≡ sort old
  same_sort fs a k old h same e =
      let names : a.name ≡ k = (equal_iff a.name k).0 same in
      let olds : h.old ≡ old = some_injective (sym h.defined ∙ ap (λ n. lookup n fs) names ∙ e) in
      sort-set_value p h.old a.value a.spelled h.reads ∙ ap sort olds

  IsTaken-insert :
      (fs : FlagSet) (a b : Assignment)
      → IsTaken p fs a
      → IsTaken p fs b
      → IsTaken p (insert a.name a.value fs) b
  IsTaken-insert fs a b h k = elim (Bool-cases (equal a.name b.name)) [
    | inl same ↦
        let sorts : sort k.old ≡ sort a.value =
          sym (same_sort fs a b.name k.old h same k.defined) in
        record {
          named = k.named;
          old = a.value;
          defined = lookup-insert a.name b.name a.value fs ∙ rw same;
          takes = subst (λ z. Takes b.form z b.spelled) sorts k.takes;
          reads = subst (λ z. set_value p z b.spelled ≡ some b.value) sorts k.reads;
        }
    | inr other ↦ record {
      named = k.named;
      old = k.old;
      defined = lookup-insert a.name b.name a.value fs ∙ rw other k.defined;
      takes = k.takes;
      reads = k.reads;
    }
  ]

  insert-All :
      (fs : FlagSet) (a : Assignment) (rest : List Assignment)
      → IsTaken p fs a
      → All (IsTaken p fs) rest
      → All (IsTaken p (insert a.name a.value fs)) rest
  insert-All fs a [] h k = tt
  insert-All fs a (b ∷ rest) h k = (IsTaken-insert fs a b h k.0, insert-All fs a rest h k.1)

  -- Assignments that are taken are all made, in order.
  pub parse-assign_all :
      (fs : FlagSet) (assigned : List Assignment)
      → All (IsTaken p fs) assigned
      → parse p fs (print_all assigned) ≡ ok (assign_all fs assigned)
  parse-assign_all fs [] h = unfold parse in refl
  parse-assign_all fs (a ∷ rest) h =
      parse_form p fs a.form a.name a.spelled h.0.old a.value (print_all rest) h.0.named h.0.defined
        h.0.takes h.0.reads
      ∙ parse-assign_all (insert a.name a.value fs) rest (insert-All fs a rest h.0 h.1)

  -- What was assigned to a flag last, or else what it held, is of the flag's type.
  pub last_assigned_sorted :
      (k : Bytes) (fs : FlagSet) (old : Value) (assigned : List Assignment)
      → All (IsTaken p fs) assigned
      → lookup k fs ≡ some old
      → (v : Value) × (last_assigned k (some old) assigned ≡ some v) × (sort v ≡ sort old)
  last_assigned_sorted k fs old [] h e = (old, refl, refl)
  last_assigned_sorted k fs old (a ∷ rest) h e = elim (Bool-cases (equal a.name k)) [
    | inl same ↦
        let (v, found, sorts) =
          last_assigned_sorted k (insert a.name a.value fs) a.value rest
            (insert-All fs a rest h.0 h.1) (lookup-insert a.name k a.value fs ∙ rw same) in
        (v, rw same found, sorts ∙ same_sort fs a k old h.0 same e)
    | inr other ↦
        let (v, found, sorts) =
          last_assigned_sorted k (insert a.name a.value fs) old rest (insert-All fs a rest h.0 h.1)
            (lookup-insert a.name k a.value fs ∙ rw other e) in
        (v, rw other found, sorts)
  ]

-- A flag then has the value that was assigned to it last, or the one that it had before.
pub lookup-assign_all :
    (k : Bytes) (fs : FlagSet) (assigned : List Assignment)
    → lookup k (assign_all fs assigned) ≡ last_assigned k (lookup k fs) assigned
lookup-assign_all k fs [] = refl
lookup-assign_all k fs (a ∷ rest) =
    lookup-assign_all k (insert a.name a.value fs) rest
    ∙ ap (λ o. last_assigned k o rest) (lookup-insert a.name k a.value fs)
