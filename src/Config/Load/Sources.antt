-- ===== src/Config/Load/Sources.antt =====
-- Where the values of a configuration come from.
use sparkwrangler.Base.Int.{ℤ, pos}
use sparkwrangler.Base.{
  Bool, false, Option, none, some, List, [], ◌≡◌, refl, ◌∙◌, ap, sym, subst, Bytes, lookup, equal,
  ok, ok_injective, All,
}
use sparkwrangler.Config.Flags.Assignments.{
  assign_all, last_assigned, parse-assign_all, last_assigned_sorted, lookup-assign_all,
}
use sparkwrangler.Config.Flags.Forms.{Assignment, IsTaken, print_all, sort}
use sparkwrangler.Config.Flags.{
  Parsers, FlagSet, Value, text, integer, boolean, duration, parse_bool,
}
use sparkwrangler.Config.Load.Settings.{Setting, settings, said, stated}
use sparkwrangler.Config.Load.Valid.{load_flags_ok}
use sparkwrangler.Config.Load.{
  Config, bound, text_value, int_value, bool_value, load, flag_set, short_hostname, or_default,
  env_text, env_int, env_bool, env_duration,
}
use sparkwrangler.Sdnotify.{Env}
use sparkwrangler.Text.Decimal.{parse_int64}

text-sorted : (v : Value) → sort v ≡ text [] → text (text_value (some v)) ≡ v
unfolding text_value
text-sorted (text x) h = refl
text-sorted (integer x) h = cc
text-sorted (boolean x) h = cc
text-sorted (duration x) h = cc

integer-sorted : (v : Value) → sort v ≡ integer (pos 0) → integer (int_value (some v)) ≡ v
unfolding int_value
integer-sorted (text x) h = cc
integer-sorted (integer x) h = refl
integer-sorted (boolean x) h = cc
integer-sorted (duration x) h = cc

boolean-sorted : (v : Value) → sort v ≡ boolean false → boolean (bool_value (some v)) ≡ v
unfolding bool_value
boolean-sorted (text x) h = cc
boolean-sorted (integer x) h = cc
boolean-sorted (boolean x) h = refl
boolean-sorted (duration x) h = cc

duration-sorted : (v : Value) → sort v ≡ duration (pos 0) → duration (int_value (some v)) ≡ v
unfolding int_value
duration-sorted (text x) h = cc
duration-sorted (integer x) h = cc
duration-sorted (boolean x) h = cc
duration-sorted (duration x) h = refl

or_default-said : {A : Type 0} (o : Option A) (d : A) → or_default o d ≡ said o d
or_default-said none d = refl
or_default-said (some v) d = refl

-- A typed default, behind the text of the variable.
or_default_read :
    {A : Type 0} (read : Bytes → Option A) (o : Option Bytes) (d : A)
    → or_default (read (or_default o [])) d ≡ said (read (said o [])) d
or_default_read read o d =
    or_default-said (read (or_default o [])) d ∙ ap (λ s. said (read s) d) (or_default-said o [])

-- The flags before the command line is read.
abbrev pub starting : Parsers → Env → Bytes → FlagSet
starting p e hostname = flag_set p e (short_hostname hostname)

module _ (p : Parsers) (e : Env) (hostname : Bytes) (assigned : List Assignment)
    (h : All (IsTaken p (starting p e hostname)) assigned) where
  -- The flags after the command line is read.
  abbrev final : FlagSet
  final = assign_all (starting p e hostname) assigned

  setting :
      (get : Option Value → Value) (k : Bytes) {old d : Value}
      → ((v : Value) → sort v ≡ sort old → get (some v) ≡ v)
      → lookup k (starting p e hostname) ≡ some old
      → old ≡ d
      → some (get (lookup k final)) ≡ last_assigned k (some d) assigned
  setting get k {old = old} sorted found same =
      let (v, last, sorts) =
        last_assigned_sorted p k (starting p e hostname) old assigned h found in
      ap (λ o. some (get o)) (lookup-assign_all k (starting p e hostname) assigned ∙ rw found last)
      ∙ ap some (sorted v sorts)
      ∙ sym last
      ∙ ap (λ x. last_assigned k (some x) assigned) same

  text_setting :
      (k v : Bytes) (d : Bytes)
      → lookup k (starting p e hostname) ≡ some (text (or_default (e v) d))
      → some (text (text_value (lookup k final)))
        ≡ last_assigned k (some (stated p e v (text d))) assigned
  text_setting k v d found =
      setting (λ o. text (text_value o)) k text-sorted found (ap text (or_default-said (e v) d))

  integer_setting :
      (k v : Bytes) (d : ℤ)
      → lookup k (starting p e hostname)
        ≡ some (integer (or_default (parse_int64 (or_default (e v) [])) d))
      → some (integer (int_value (lookup k final)))
        ≡ last_assigned k (some (stated p e v (integer d))) assigned
  integer_setting k v d found =
      setting (λ o. integer (int_value o)) k integer-sorted found
        (ap integer (or_default_read parse_int64 (e v) d))

  boolean_setting :
      (k v : Bytes) (d : Bool)
      → lookup k (starting p e hostname)
        ≡ some (boolean (or_default (parse_bool (or_default (e v) [])) d))
      → some (boolean (bool_value (lookup k final)))
        ≡ last_assigned k (some (stated p e v (boolean d))) assigned
  boolean_setting k v d found =
      setting (λ o. boolean (bool_value o)) k boolean-sorted found
        (ap boolean (or_default_read parse_bool (e v) d))

  duration_setting :
      (k v : Bytes) (d : ℤ)
      → lookup k (starting p e hostname)
        ≡ some (duration (or_default (p.duration (or_default (e v) [])) d))
      → some (duration (int_value (lookup k final)))
        ≡ last_assigned k (some (stated p e v (duration d))) assigned
  duration_setting k v d found =
      setting (λ o. duration (int_value o)) k duration-sorted found
        (ap duration (or_default_read p.duration (e v) d))

  abbrev HasSource : Setting → Type 0
  HasSource s =
      some s.value ≡ last_assigned s.flag (some (stated p e s.variable s.fallback)) assigned

  bound-HasSource : All HasSource (settings (short_hostname hostname) (bound final))
  unfolding settings bound flag_set lookup equal env_text env_int env_bool env_duration
  bound-HasSource = (
    text_setting _ _ _ refl,
    (
      text_setting _ _ _ refl,
      (
        text_setting _ _ _ refl,
        (
          text_setting _ _ _ refl,
          (
            duration_setting _ _ _ refl,
            (
              text_setting _ _ _ refl,
              (
                text_setting _ _ _ refl,
                (
                  text_setting _ _ _ refl,
                  (
                    text_setting _ _ _ refl,
                    (
                      text_setting _ _ _ refl,
                      (
                        text_setting _ _ _ refl,
                        (
                          integer_setting _ _ _ refl,
                          (
                            text_setting _ _ _ refl,
                            (
                              text_setting _ _ _ refl,
                              (
                                text_setting _ _ _ refl,
                                (
                                  text_setting _ _ _ refl,
                                  (
                                    boolean_setting _ _ _ refl,
                                    (
                                      duration_setting _ _ _ refl,
                                      (
                                        text_setting _ _ _ refl,
                                        (
                                          text_setting _ _ _ refl,
                                          (
                                            text_setting _ _ _ refl,
                                            (
                                              text_setting _ _ _ refl,
                                              (text_setting _ _ _ refl, tt),
                                            ),
                                          ),
                                        ),
                                      ),
                                    ),
                                  ),
                                ),
                              ),
                            ),
                          ),
                        ),
                      ),
                    ),
                  ),
                ),
              ),
            ),
          ),
        ),
      ),
    ),
  )

  -- Every setting of a configuration that loads has the value that the command line assigns to its flag
  -- last; with no such assignment it has what its variable of the environment says, and if that is unset,
  -- or is not a number, a truth value or a duration where it has to be one, its default. An unset variable
  -- counts as an empty one where it is not a text. The command line is one of assignments, each to a flag
  -- that is defined, in a form that it takes and with a text that it reads.
  pub load-last_assigned :
      {c : Config}
      → load p e hostname (print_all assigned) ≡ ok c
      → All
          (λ s.
            some s.value ≡ last_assigned s.flag (some (stated p e s.variable s.fallback)) assigned)
          (settings (short_hostname hostname) c)
  unfolding load
  load-last_assigned k =
      let (fs, parsed, same, v) = load_flags_ok _ k in
      let all : final ≡ fs =
        ok_injective (sym (parse-assign_all p (starting p e hostname) assigned h) ∙ parsed) in
      subst (λ d. All HasSource (settings (short_hostname hostname) d)) (ap bound all ∙ sym same)
        bound-HasSource
