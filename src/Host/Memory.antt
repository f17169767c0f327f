-- ===== src/Host/Memory.antt =====
-- internal/host/host.go: the memory accounting of `/proc/meminfo`.
pub mod Break
pub mod Accounting
pub mod Share
use sparkwrangler.Base.Int.{ℤ, pos, ◌-ℤ◌, ◌*ℤ◌, wrap64, leb_ℤ}
use sparkwrangler.Base.{
  Bool, true, false, not, ◌&&◌, ◌||◌, ◌==◌, Option, none, some, List, [], ◌∷◌, if◌then◌else◌, Bytes,
  codes, equal, Result, ok, err, is_some, ◌>>=◌,
}
use sparkwrangler.Float.{Float}
use sparkwrangler.Text.Decimal.{parse_int64}
use sparkwrangler.Text.Lines.{
  Input, ScanError, too_long, read_failed, scan_lines, max_scan_token_size,
}
use sparkwrangler.Text.Search.{cut}
use sparkwrangler.Text.Space.{fields}

pub record Memory : Type 0 where
  pub total_bytes : Option ℤ
  pub available_bytes : Option ℤ

abbrev pub no_memory : Memory
no_memory = record { total_bytes = none; available_bytes = none }

first_int : List Bytes → Option ℤ
first_int [] = none
first_int (f ∷ fs) = parse_int64 f >>= λ kib. some (wrap64 (kib *ℤ pos 1024))

unfoldable pub kib_to_bytes : Bytes → Option ℤ
unfolding first_int
kib_to_bytes value = first_int (fields value)

-- The `switch` on the key.
assign : Memory → Bytes → Bytes → Memory
assign m key value =
    if equal key (codes "MemTotal")
    then record m { total_bytes = kib_to_bytes value }
    else if equal key (codes "MemAvailable")
    then record m { available_bytes = kib_to_bytes value }
    else m

-- One round of the loop, on the two sides of the first colon.
read_line : Memory → Option (Bytes × Bytes) → Memory
unfolding assign
read_line m none = m
read_line m (some (key, value)) = assign m key value

-- `scanner.Err()` behind the loop.
scan_result : Memory → Option ScanError → Result ScanError Memory
scan_result m none = ok m
scan_result m (some e) = err e

-- Whether an input does not end in a newline, so that it breaks off in its last line.
pub breaks_off : Bytes → Bool
breaks_off [] = false
breaks_off (c ∷ []) = not (c == b'\n')
breaks_off (c ∷ d ∷ s) = breaks_off (d ∷ s)

is_read_failed : Option ScanError → Bool
is_read_failed none = false
is_read_failed (some too_long) = false
is_read_failed (some read_failed) = true

-- `scanner.Err()` behind the break, with the lines that are left: the error of a read that the scanner
-- has met by then. It has met it if `met` says so, and also if the line is the one that the input
-- breaks off in, which the scanner yields only once the reader has ended or failed.
pub broken_result : Memory → Bool → Bool → List Bytes → Option ScanError → Result ScanError Memory
unfolding is_read_failed
broken_result m met broken [] failure =
    if met || (broken && is_read_failed failure) then err read_failed else ok m
broken_result m met broken (l ∷ ls) failure = if met then err read_failed else ok m

-- The loop, which breaks off as soon as both numbers are there. A line without a colon is passed over
-- before the test for the break, which cannot hold there.
read_lines : Memory → Bool → Bool → List Bytes → Option ScanError → Result ScanError Memory
unfolding read_line scan_result broken_result
read_lines m met broken [] failure = scan_result m failure
read_lines m met broken (l ∷ ls) failure =
    let m' = read_line m (cut b':' l) in
    let rest = read_lines m' met broken ls failure in
    if is_some m'.total_bytes && is_some m'.available_bytes
    then broken_result m' met broken ls failure
    else rest

-- `parseMemInfo` of a reader. If that fails, it is for it to say whether the scanner has met the failure
-- by the time of the break, since a reader may return its error along with its last bytes.
unfoldable pub parse_mem_info : Input → Bool → Result ScanError Memory
unfolding read_lines breaks_off
parse_mem_info r met =
    let s = scan_lines max_scan_token_size r in
    read_lines no_memory (r.fails && met) (breaks_off r.content) s.tokens s.failure

-- The outcome of `os.Open`.
pub data Opened : Type 0 where
  missing : Opened
  refused : Opened
  opened : Input → Bool → Opened

pub data MemoryError : Type 0 where
  not_opened : MemoryError
  not_scanned : ScanError → MemoryError

scanned : Result ScanError Memory → Result MemoryError Memory
scanned (ok m) = ok m
scanned (err e) = err (not_scanned e)

-- `ReadMemory`
unfoldable pub read_memory : Opened → Result MemoryError Memory
unfolding scanned
read_memory missing = ok no_memory
read_memory refused = err not_opened
read_memory (opened r met) = scanned (parse_mem_info r met)

module _ {F : Type 0} ⦃fl : Float F⦄ where
  -- `float64(total-available) / float64(total) * 100`, behind the test of the total.
  used_share : ℤ → ℤ → Option F
  used_share total available =
      if leb_ℤ total (pos 0)
      then none
      else some (
          fl.mul (fl.div (fl.of_int (wrap64 (total -ℤ available))) (fl.of_int total))
            (fl.of_int (pos 100)))

  used_of : Option ℤ → Option ℤ → Option F
  unfolding used_share
  used_of (some total) (some available) = used_share total available
  used_of (some total) none = none
  used_of none available = none

  -- `UsedPct`
  unfoldable pub used_pct : Memory → Option F
  unfolding used_of
  used_pct m = used_of m.total_bytes m.available_bytes
