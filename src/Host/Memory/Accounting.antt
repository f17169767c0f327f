-- ===== src/Host/Memory/Accounting.antt =====
-- The two numbers of `/proc/meminfo` are found and converted.
use sparkwrangler.Base.Int.{pos, mul_pos_pos, wrap64, wrap64_id}
use sparkwrangler.Base.{
  ℕ, ◌*◌, ◌^◌, ◌<◌, zero, suc, leb, is_some, not, Bool, true, false, ◌&&◌, Option, none, some, List,
  [], ◌∷◌, ◌++◌, ◌≡◌, refl, ◌∙◌, ap, arith, Bytes, codes, equal, ok, err, All, every, All-map,
  if◌then◌else◌, append_assoc,
}
use sparkwrangler.Host.Memory.Break.{broken_result-rest}
use sparkwrangler.Host.Memory.{
  Memory, no_memory, first_int, kib_to_bytes, assign, read_line, breaks_off, broken_result,
  read_lines, parse_mem_info,
}
use sparkwrangler.Text.Decimal.{
  format_nat, format_nat_cons, format_nat-IsDigit, parse_int64-format_nat,
}
use sparkwrangler.Text.Lines.{
  ScanError, read_failed, IsLine, unlines, scan_lines, scan_lines-append, max_scan_token_size,
}
use sparkwrangler.Text.Search.{cut, cut-append, Lacks, Lacks-sound}
use sparkwrangler.Text.Space.{IsGraphic, fields, fields-cons, fields-blank}

-- `MemTotal: 131072 kB`, with any number of blanks behind the colon.
abbrev pub blanks : ℕ → Bytes → Bytes
blanks zero rest = rest
blanks (suc n) rest = b' ' ∷ blanks n rest

abbrev pub print_entry : Bytes → ℕ → ℕ → Bytes
print_entry key pad kib = key ++ b':' ∷ blanks pad (format_nat kib ++ codes " kB")

digit-IsGraphic : (c : ℕ) → (leb b'0' c && leb c b'9') ≡ true → IsGraphic c
digit-IsGraphic c h = ground arith

fields-entry :
    (kib : ℕ) (rest : Bytes) → fields (format_nat kib ++ b' ' ∷ rest) ≡ format_nat kib ∷ fields rest
fields-entry kib rest =
    let (c, s, e) = format_nat_cons kib in
    rw e (
      fields-cons c s rest
        (rw e at (All-map digit-IsGraphic (format_nat kib) (format_nat-IsDigit kib))))

fields-blanks : (pad : ℕ) (s : Bytes) → fields (blanks pad s) ≡ fields s
fields-blanks zero s = refl
fields-blanks (suc pad) s = fields-blank (blanks pad s) ∙ fields-blanks pad s

-- A number of kibibytes in an entry's value becomes that number of bytes, if it fits an `int64`.
kib_to_bytes-print :
    (pad kib : ℕ)
    → kib < 2 ^ 53
    → kib_to_bytes (blanks pad (format_nat kib ++ codes " kB")) ≡ some (pos (kib * 1024))
unfolding kib_to_bytes first_int
kib_to_bytes-print pad kib h =
    rw
      (
        fields-blanks pad (format_nat kib ++ codes " kB"),
        fields-entry kib (codes "kB"),
        parse_int64-format_nat kib (omega arith),
      )
      (ap some (ap wrap64 (mul_pos_pos kib 1024) ∙ wrap64_id (pos (kib * 1024)) (omega arith)))

-- A line that is neither of the two entries.
abbrev IsOtherKey : Option (Bytes × Bytes) → Type 0
IsOtherKey none = Unit
IsOtherKey (some (key, value)) =
    (equal key (codes "MemTotal") ≡ false) × (equal key (codes "MemAvailable") ≡ false)

abbrev pub IsOther : Bytes → Type 0
IsOther l = IsOtherKey (cut b':' l)

read_line-IsOtherKey : (m : Memory) (o : Option (Bytes × Bytes)) → IsOtherKey o → read_line m o ≡ m
unfolding read_line assign
read_line-IsOtherKey m none h = refl
read_line-IsOtherKey m (some (key, value)) h = rw (h.0, h.1)

-- Whether both numbers are there.
abbrev is_full : Memory → Bool
is_full m = is_some m.total_bytes && is_some m.available_bytes

-- A round of the loop, which goes on or breaks off.
module _ (met broken : Bool) where
  read_lines-open :
      (m m' : Memory) (l : Bytes) (ls : List Bytes) (failure : Option ScanError)
      → read_line m (cut b':' l) ≡ m'
      → is_full m' ≡ false
      → read_lines m met broken (l ∷ ls) failure ≡ read_lines m' met broken ls failure
  unfolding read_lines
  read_lines-open m m' l ls failure h k = rw h (rw k)

  read_lines-full :
      (m m' : Memory) (l : Bytes) (ls : List Bytes) (failure : Option ScanError)
      → read_line m (cut b':' l) ≡ m'
      → is_full m' ≡ true
      → read_lines m met broken (l ∷ ls) failure ≡ broken_result m' met broken ls failure
  unfolding read_lines
  read_lines-full m m' l ls failure h k = rw h (rw k)

  read_lines-IsOther :
      (m : Memory) (others ls : List Bytes) (failure : Option ScanError)
      → is_full m ≡ false
      → All IsOther others
      → read_lines m met broken (others ++ ls) failure ≡ read_lines m met broken ls failure
  read_lines-IsOther m [] ls failure k h = refl
  read_lines-IsOther m (l ∷ others) ls failure k h =
      read_lines-open m m l (others ++ ls) failure (read_line-IsOtherKey m (cut b':' l) h.0) k
      ∙ read_lines-IsOther m others ls failure k h.1

cut-entry :
    (key : Bytes) (pad kib : ℕ)
    → Lacks b':' key
    → cut b':' (print_entry key pad kib) ≡ some (key, blanks pad (format_nat kib ++ codes " kB"))
cut-entry key pad kib h = cut-append b':' key (blanks pad (format_nat kib ++ codes " kB")) h

-- One of the two entries, as it is printed.
pub record Entry : Type 0 where
  pub pad : ℕ
  pub kib : ℕ

abbrev pub entry_key : Bool → Bytes
entry_key true = codes "MemTotal"
entry_key false = codes "MemAvailable"

abbrev pub with_entry : Bool → Entry → Memory → Memory
with_entry true x m = record m { total_bytes = some (pos (x.kib * 1024)) }
with_entry false x m = record m { available_bytes = some (pos (x.kib * 1024)) }

read_line-entry :
    (total : Bool) (x : Entry) (m : Memory)
    → x.kib < 2 ^ 53
    → read_line m (cut b':' (print_entry (entry_key total) x.pad x.kib)) ≡ with_entry total x m
unfolding read_line assign equal every
read_line-entry true x m h =
    rw (cut-entry (codes "MemTotal") x.pad x.kib (Lacks-sound b':' (codes "MemTotal") refl))
      (rw (kib_to_bytes-print x.pad x.kib h))
read_line-entry false x m h =
    rw (cut-entry (codes "MemAvailable") x.pad x.kib (Lacks-sound b':' (codes "MemAvailable") refl))
      (rw (kib_to_bytes-print x.pad x.kib h))

half-open : (total : Bool) (x : Entry) → is_full (with_entry total x no_memory) ≡ false
half-open true x = refl
half-open false x = refl

-- The two entries in one of their orders, with other lines in front and between.
abbrev pub print_lines : Bool → Entry → Entry → List Bytes → List Bytes → List Bytes
print_lines first x y before between =
    before
    ++ print_entry (entry_key first) x.pad x.kib
      ∷ (between ++ print_entry (entry_key (not first)) y.pad y.kib ∷ [])

both_read :
    (first : Bool) (x y : Entry)
    → is_full (with_entry (not first) y (with_entry first x no_memory)) ≡ true
both_read true x y = refl
both_read false x y = refl

abbrev pub accounted : Bool → Entry → Entry → Memory
accounted first x y = with_entry (not first) y (with_entry first x no_memory)

read_lines-print :
    (met broken first : Bool) (x y : Entry) (before between ls : List Bytes)
    (failure : Option ScanError)
    → x.kib < 2 ^ 53
    → y.kib < 2 ^ 53
    → All IsOther before
    → All IsOther between
    → read_lines no_memory met broken (print_lines first x y before between ++ ls) failure
      ≡ broken_result (accounted first x y) met broken ls failure
read_lines-print met broken first x y before between ls failure hx hy hb hw =
    let m = with_entry first x no_memory in
    let last = print_entry (entry_key (not first)) y.pad y.kib in
    ap (λ all. read_lines no_memory met broken all failure)
      (append_assoc before _ ls
        ∙ ap (λ more. before ++ print_entry (entry_key first) x.pad x.kib ∷ more)
            (append_assoc between (last ∷ []) ls))
    ∙ read_lines-IsOther met broken no_memory before _ failure refl hb
    ∙ read_lines-open met broken no_memory m _ _ failure (read_line-entry first x no_memory hx)
        (half-open first x)
    ∙ read_lines-IsOther met broken m between _ failure (half-open first x) hw
    ∙ read_lines-full met broken m (accounted first x y) last ls failure
        (read_line-entry (not first) y m hy) (both_read first x y)

-- The accounting of the kernel is read as it is printed: the total and what is available, in either order
-- and with other entries in front and between, each in kibibytes below 2^53. The bytes of both are exact,
-- and no byte behind the second matters, not even those of a line that is too long. A read that fails
-- behind them makes an error exactly if the scanner has met the failure by then.
pub parse_mem_info-print :
    (first : Bool) (x y : Entry) (before between : List Bytes) (rest : Bytes) (fails met : Bool)
    → x.kib < 2 ^ 53
    → y.kib < 2 ^ 53
    → All IsOther before
    → All IsOther between
    → All (IsLine max_scan_token_size) (print_lines first x y before between)
    → parse_mem_info
        (record { content = unlines (print_lines first x y before between) ++ rest; fails = fails })
        met
      ≡ (if fails && met then err read_failed else ok (accounted first x y))
unfolding parse_mem_info
parse_mem_info-print first x y before between rest fails met hx hy hb hw hl =
    let all = print_lines first x y before between in
    let s = scan_lines max_scan_token_size (record { content = rest; fails = fails }) in
    rw (scan_lines-append max_scan_token_size fails _ rest hl) (
      read_lines-print (fails && met) (breaks_off (unlines all ++ rest)) first x y before between
        s.tokens s.failure hx hy hb hw
      ∙ broken_result-rest (accounted first x y) (fails && met) fails all rest)
