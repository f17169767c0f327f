-- ===== src/Text/Lines.antt =====
-- `bufio.Scanner` over lines: what it yields of an input, and how it ends. A line of `max` bytes or
-- more, its end not counted, does not fit the scanner's buffer and stops it.
use sparkwrangler.Base.{
  ℕ, ◌*◌, Bool, true, false, Option, none, some, List, [], ◌∷◌, ◌++◌, reverse, ◌≡◌, refl, arith,
  ltb, ◌==◌, if◌then◌else◌, Bytes, All, length, append_assoc, append-nil, ◌<◌, lt→ltb, ap, ◌∙◌, sym,
  subst, ◌⊎◌, inl, inr, Bool-cases,
}
use mathlib.Core.List.{reverse-reverse, reverse_aux}

pub data ScanError : Type 0 where
  too_long : ScanError
  read_failed : ScanError

-- A reader: the bytes that it delivers, and whether it then fails or ends.
pub record Input : Type 0 where
  pub content : Bytes
  pub fails : Bool

pub record Scan : Type 0 where
  pub tokens : List Bytes
  pub failure : Option ScanError

-- `bufio.dropCR` on a reversed line.
strip_cr : Bytes → Bytes
strip_cr [] = []
strip_cr (c ∷ r) = if c == 13 then r else c ∷ r

drop_cr : Bytes → Bytes
unfolding strip_cr
drop_cr line = reverse (strip_cr (reverse line))

abbrev yield : Bytes → Scan → Scan
yield line s = record s { tokens = line ∷ s.tokens }

abbrev stop : Option ScanError → Scan
stop e = record { tokens = []; failure = e }

-- The line that the input breaks off in is a token if it is not empty.
last_line : Bytes → Scan → Scan
unfolding drop_cr
last_line [] s = s
last_line (c ∷ line) s = yield (drop_cr (c ∷ line)) s

scan_from : ℕ → Bool → Bytes → Bytes → Scan
unfolding drop_cr last_line
scan_from max fails line [] =
    if ltb (length line) max
    then last_line line (stop (if fails then some read_failed else none))
    else stop (some too_long)
scan_from max fails line (c ∷ s) =
    let next = scan_from max fails [] s in
    let more = scan_from max fails (line ++ c ∷ []) s in
    elim (c == 10) [
      | true ↦ if ltb (length line) max then yield (drop_cr line) next else stop (some too_long)
      | false ↦ more
    ]

-- The lines of an input under a bound on the token size.
unfoldable pub scan_lines : ℕ → Input → Scan
unfolding scan_from
scan_lines max r = scan_from max r.fails [] r.content

-- `bufio.MaxScanTokenSize`, the bound where the program sets none.
abbrev pub max_scan_token_size : ℕ
max_scan_token_size = 64 * 1024

abbrev pub NoEnd : ℕ → Type 0
NoEnd c = ((c == 10) ≡ false) × ((c == 13) ≡ false)

-- A line holds no line end, and fits the buffer.
abbrev pub IsLine : ℕ → Bytes → Type 0
IsLine max l = All NoEnd l × (length l < max)

-- Every line ended by a newline.
abbrev pub unlines : List Bytes → Bytes
unlines [] = []
unlines (l ∷ ls) = l ++ 10 ∷ unlines ls

scan_from-append :
    (max : ℕ) (fails : Bool) (l line rest : Bytes)
    → All NoEnd l
    → scan_from max fails line (l ++ rest) ≡ scan_from max fails (line ++ l) rest
unfolding scan_from
scan_from-append max fails [] line rest h = rw append-nil
scan_from-append max fails (c ∷ l) line rest h =
    ground
      (arith, scan_from-append max fails l (line ++ c ∷ []) rest h.1, append_assoc line (c ∷ []) l)

strip_cr-NoEnd : (l : Bytes) → All NoEnd l → strip_cr l ≡ l
unfolding strip_cr
strip_cr-NoEnd [] h = refl
strip_cr-NoEnd (c ∷ l) h = rw (h.0.1)

All-reverse_aux : (l acc : Bytes) → All NoEnd l → All NoEnd acc → All NoEnd (reverse_aux l acc)
All-reverse_aux [] acc h k = k
All-reverse_aux (c ∷ l) acc h k = All-reverse_aux l (c ∷ acc) h.1 (h.0, k)

All-reverse : (l : Bytes) → All NoEnd l → All NoEnd (reverse l)
All-reverse l h = All-reverse_aux l [] h tt

drop_cr-NoEnd : (l : Bytes) → All NoEnd l → drop_cr l ≡ l
unfolding drop_cr
drop_cr-NoEnd l h = rw (strip_cr-NoEnd (reverse l) (All-reverse l h)) (reverse-reverse l)

scan_from-newline :
    (max : ℕ) (fails : Bool) (l rest : Bytes)
    → IsLine max l
    → scan_from max fails l (10 ∷ rest) ≡ yield l (scan_from max fails [] rest)
unfolding scan_from
scan_from-newline max fails l rest h = rw (lt→ltb (length l) max h.1, drop_cr-NoEnd l h.0)

-- Lines ended by newlines, each within the bound, are scanned one by one, and the scan then ends
-- as the reader does.
pub scan_lines-unlines :
    (max : ℕ) (fails : Bool) (ls : List Bytes)
    → 0 < max
    → All (IsLine max) ls
    → scan_lines max (record { content = unlines ls; fails = fails })
      ≡ record { tokens = ls; failure = if fails then some read_failed else none }
unfolding scan_lines
scan_lines-unlines max fails [] pos h = unfold scan_from in rw (lt→ltb 0 max pos)
scan_lines-unlines max fails (l ∷ ls) pos h =
    scan_from-append max fails l [] (10 ∷ unlines ls) h.0.0
    ∙ scan_from-newline max fails l (unlines ls) h.0
    ∙ ap (yield l) (scan_lines-unlines max fails ls pos h.1)

-- Whole lines in front of an input are the first tokens of its scan.
pub scan_lines-append :
    (max : ℕ) (fails : Bool) (ls : List Bytes) (rest : Bytes)
    → All (IsLine max) ls
    → scan_lines max (record { content = unlines ls ++ rest; fails = fails }) ≡ (
        let s = scan_lines max (record { content = rest; fails = fails }) in
        record s { tokens = ls ++ s.tokens })
unfolding scan_lines
scan_lines-append max fails [] rest h = refl
scan_lines-append max fails (l ∷ ls) rest h =
    ap (scan_from max fails []) (append_assoc l (10 ∷ unlines ls) rest)
    ∙ scan_from-append max fails l [] (10 ∷ (unlines ls ++ rest)) h.0.0
    ∙ scan_from-newline max fails l (unlines ls ++ rest) h.0
    ∙ ap (yield l) (scan_lines-append max fails ls rest h.1)

-- A scan that yields a line, or stops at one that is too long.
abbrev pub YieldsLine : Scan → Type 0
YieldsLine s = ((l : Bytes) × (ls : List Bytes) × (s.tokens ≡ l ∷ ls)) ⊎ (s.failure ≡ some too_long)

module _ (max : ℕ) (fails : Bool) where
  scan_from-inner :
      (line : Bytes) (c : ℕ) (s : Bytes)
      → (c == 10) ≡ false
      → scan_from max fails line (c ∷ s) ≡ scan_from max fails (line ++ c ∷ []) s
  unfolding scan_from
  scan_from-inner line c s h = rw (h, scan_from)

  scan_from-end :
      (line : Bytes) (c : ℕ) (s : Bytes)
      → (c == 10) ≡ true
      → scan_from max fails line (c ∷ s) ≡ (
          if ltb (length line) max
          then yield (drop_cr line) (scan_from max fails [] s)
          else stop (some too_long))
  unfolding scan_from
  scan_from-end line c s h = rw (h, scan_from)

  YieldsLine-end :
      (fits : Bool) (line : Bytes) (s : Scan)
      → YieldsLine (if fits then yield line s else stop (some too_long))
  YieldsLine-end true line s = inl (line, s.tokens, refl)
  YieldsLine-end false line s = inr refl

  YieldsLine-byte :
      (line : Bytes) (c : ℕ) (s : Bytes)
      → YieldsLine (scan_from max fails (line ++ c ∷ []) s)
      → YieldsLine (scan_from max fails line (c ∷ s))
  YieldsLine-byte line c s h = elim (Bool-cases (c == 10)) [
    | inl end ↦
        subst YieldsLine (sym (scan_from-end line c s end))
          (YieldsLine-end (ltb (length line) max) (drop_cr line) (scan_from max fails [] s))
    | inr inner ↦ subst YieldsLine (sym (scan_from-inner line c s inner)) h
  ]

  YieldsLine-line : (c : ℕ) (line s : Bytes) → YieldsLine (scan_from max fails (c ∷ line) s)
  YieldsLine-line c line [] =
      unfold scan_from last_line in
      YieldsLine-end (ltb (length (c ∷ line)) max) (drop_cr (c ∷ line))
        (stop (if fails then some read_failed else none))
  YieldsLine-line c line (d ∷ s) =
      YieldsLine-byte (c ∷ line) d s (YieldsLine-line c (line ++ d ∷ []) s)

  pub scan_lines-YieldsLine :
      (c : ℕ) (s : Bytes) → YieldsLine (scan_lines max (record { content = c ∷ s; fails = fails }))
  unfolding scan_lines
  scan_lines-YieldsLine c s = YieldsLine-byte [] c s (YieldsLine-line c [] s)
