-- ===== src/Config/Flags.antt =====
-- The part of Go's package `flag` that the program uses: a set of typed flags, and the scan of the
-- command line. The parsers of durations and of integers in any base are parameters.
pub mod Forms
pub mod Assignments
use sparkwrangler.Base.Int.{ℤ}
use sparkwrangler.Base.{
  ℕ, Bool, true, false, ◌&&◌, ◌||◌, Option, none, some, List, [], ◌∷◌, ◌==◌, if◌then◌else◌, Bytes,
  codes, Dict, insert, lookup, equal, one_of, Result, ok, err,
}
use sparkwrangler.Text.Search.{cut}

-- `time.ParseDuration`, in nanoseconds, and `strconv.ParseInt(s, 0, 64)`; an error is `none`.
pub record Parsers : Type 0 where
  pub duration : Bytes → Option ℤ
  pub int_any_base : Bytes → Option ℤ

pub data Value : Type 0 where
  text : Bytes → Value
  integer : ℤ → Value
  boolean : Bool → Value
  duration : ℤ → Value

pub data FlagError : Type 0 where
  help_requested : FlagError
  bad_syntax : Bytes → FlagError
  not_defined : Bytes → FlagError
  needs_argument : Bytes → FlagError
  invalid_value : Bytes → Bytes → FlagError

-- `strconv.ParseBool`
unfoldable pub parse_bool : Bytes → Option Bool
parse_bool s =
    if one_of s
      (codes "1" ∷ codes "t" ∷ codes "T" ∷ codes "TRUE" ∷ codes "true" ∷ codes "True" ∷ [])
    then some true
    else if one_of s
        (codes "0" ∷ codes "f" ∷ codes "F" ∷ codes "FALSE" ∷ codes "false" ∷ codes "False" ∷ [])
    then some false
    else none

-- The flags that are defined, each with its value so far.
abbrev pub FlagSet : Type 0
FlagSet = Dict Value

module _ (p : Parsers) where
  with_value : {A : Type 0} → (A → Value) → Option A → Option Value
  with_value f none = none
  with_value f (some a) = some (f a)

  -- `Value.Set`, on a flag that holds a value of the same type.
  unfoldable pub set_value : Value → Bytes → Option Value
  unfolding with_value
  set_value (text old) s = some (text s)
  set_value (integer old) s = with_value integer (p.int_any_base s)
  set_value (boolean old) s = with_value boolean (parse_bool s)
  set_value (duration old) s = with_value duration (p.duration s)

-- What an argument is: the end of the flags, or a flag with or without a value.
pub data Token : Type 0 where
  positional : Token
  terminator : Token
  malformed : Token
  flag : Bytes → Option Bytes → Token

-- A name ends at the first equals sign behind its first byte.
flag_at : ℕ → Bytes → Option (Bytes × Bytes) → Token
flag_at c s none = flag (c ∷ s) none
flag_at c s (some (name, value)) = flag (c ∷ name) (some value)

named : Bytes → Token
unfolding flag_at cut
named [] = malformed
named (c ∷ s) = if c == b'-' || c == b'=' then malformed else flag_at c s (cut b'=' s)

two_dashes : Bytes → Token
unfolding named
two_dashes [] = terminator
two_dashes (c ∷ s) = named (c ∷ s)

unfoldable pub token : Bytes → Token
unfolding two_dashes
token [] = positional
token (c ∷ []) = positional
token (c ∷ d ∷ s) =
    if c == b'-' then (if d == b'-' then two_dashes s else named (d ∷ s)) else positional

abbrev Parsed : Type 0
Parsed = Result FlagError FlagSet

-- Stores a value that was parsed, and goes on.
store_value : Bytes → Bytes → Option Value → FlagSet → (FlagSet → Parsed) → Parsed
store_value name s none fs next = err (invalid_value s name)
store_value name s (some v) fs next = next (insert name v fs)

or_true : Option Bytes → Bytes
or_true none = codes "true"
or_true (some v) = v

module _ (p : Parsers) where
  -- A flag other than a Boolean takes the argument behind it if it has no value of its own.
  set_argument :
      Bytes
      → Value
      → Option Bytes
      → FlagSet
      → (FlagSet → Parsed)
      → Option (Bytes × (FlagSet → Parsed))
      → Parsed
  unfolding store_value set_value
  set_argument name old (some v) fs next more = store_value name v (set_value p old v) fs next
  set_argument name old none fs next none = err (needs_argument name)
  set_argument name old none fs next (some (arg, skip)) =
      store_value name arg (set_value p old arg) fs skip

  set_flag :
      Bytes
      → Option Value
      → Option Bytes
      → FlagSet
      → (FlagSet → Parsed)
      → Option (Bytes × (FlagSet → Parsed))
      → Parsed
  unfolding set_argument or_true
  set_flag name none v fs next more =
      if equal name (codes "help") || equal name (codes "h")
      then err help_requested
      else err (not_defined name)
  set_flag name (some (boolean old)) v fs next more =
      store_value name (or_true v) (set_value p (boolean old) (or_true v)) fs next
  set_flag name (some (text old)) v fs next more = set_argument name (text old) v fs next more
  set_flag name (some (integer old)) v fs next more = set_argument name (integer old) v fs next more
  set_flag name (some (duration old)) v fs next more =
      set_argument name (duration old) v fs next more

  -- `FlagSet.parseOne`, with what follows the argument and what follows the one behind it.
  parse_one :
      Token → Bytes → FlagSet → (FlagSet → Parsed) → Option (Bytes × (FlagSet → Parsed)) → Parsed
  unfolding set_flag lookup
  parse_one positional arg fs next more = ok fs
  parse_one terminator arg fs next more = ok fs
  parse_one malformed arg fs next more = err (bad_syntax arg)
  parse_one (flag name v) arg fs next more = set_flag name (lookup name fs) v fs next more

  -- `FlagSet.Parse`
  unfoldable pub parse : FlagSet → List Bytes → Parsed
  unfolding parse_one token
  parse fs [] = ok fs
  parse fs (a ∷ []) = parse_one (token a) a fs (λ f. ok f) none
  parse fs (a ∷ b ∷ args) =
      parse_one (token a) a fs (λ f. parse f (b ∷ args)) (some (b, λ f. parse f args))
