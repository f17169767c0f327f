-- ===== src/Vllm/Labels.antt =====
-- `parseLabels` of internal/vllm/metrics.go.
pub mod RoundTrip
use sparkwrangler.Base.{
  ℕ, Bool, true, false, not, ◌&&◌, Option, none, some, [], ◌∷◌, ◌++◌, ◌==◌, if◌then◌else◌, Bytes,
  Dict, insert,
}
use sparkwrangler.Text.Space.{trim_space}

-- The variables of the loop. The flag `in_value` is `target == &val`.
pub record Labeling : Type 0 where
  pub key : Bytes
  pub val : Bytes
  pub in_value : Bool
  pub in_quotes : Bool
  pub out : Dict Bytes

abbrev pub backslash : ℕ
backslash = 0x5c

abbrev pub quote : ℕ
quote = 0x22

-- `out[k] = val.String()` unless the trimmed key is empty.
store : Bytes → Bytes → Dict Bytes → Dict Bytes
store [] v out = out
store (c ∷ k) v out = insert (c ∷ k) v out

-- The closure `flush`.
flush : Labeling → Labeling
unfolding store
flush s = record {
  key = [];
  val = [];
  in_value = false;
  in_quotes = s.in_quotes;
  out = store (trim_space s.key) s.val s.out;
}

-- `target.WriteByte(c)`
abbrev write_byte : Labeling → ℕ → Labeling
write_byte s c =
    if s.in_value then record s { val = s.val ++ c ∷ [] } else record s { key = s.key ++ c ∷ [] }

-- `i == 0 || in[i-1] != '\\'`
abbrev unescaped : Option ℕ → Bool
unescaped none = true
unescaped (some p) = not (p == backslash)

-- One round of the loop: the byte before, and the byte.
step : Labeling → Option ℕ → ℕ → Labeling
unfolding flush
step s prev c =
    if c == quote && unescaped prev
    then record s { in_quotes = not s.in_quotes }
    else if c == b'=' && not s.in_quotes && not s.in_value
    then record s { in_value = true }
    else if c == b',' && not s.in_quotes
    then flush s
    else write_byte s c

run : Labeling → Option ℕ → Bytes → Labeling
unfolding step
run s prev [] = flush s
run s prev (c ∷ input) = run (step s prev c) (some c) input

abbrev start : Labeling
start = record { key = []; val = []; in_value = false; in_quotes = false; out = [] }

unfoldable pub parse_labels : Bytes → Dict Bytes
unfolding run
parse_labels input = (run start none input).out
