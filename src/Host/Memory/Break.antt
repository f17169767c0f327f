-- ===== src/Host/Memory/Break.antt =====
-- What the scanner's error is behind the break of the loop, on an input of whole lines and a rest.
use sparkwrangler.Base.{
  ℕ, Bool, false, Option, some, List, [], ◌∷◌, ◌++◌, ◌≡◌, refl, ◌∙◌, arith, Bytes, ok, err,
  if◌then◌else◌, inl, inr, append-nil,
}
use sparkwrangler.Host.Memory.{Memory, breaks_off, is_read_failed, broken_result}
use sparkwrangler.Text.Lines.{
  ScanError, too_long, read_failed, Scan, unlines, scan_lines, scan_lines-unlines, YieldsLine,
  scan_lines-YieldsLine, max_scan_token_size,
}

-- Behind whole lines the input breaks off only if something follows them.
breaks_off-newline : (l : Bytes) → breaks_off (l ++ 10 ∷ []) ≡ false
unfolding breaks_off
breaks_off-newline [] = refl
breaks_off-newline (c ∷ []) = refl
breaks_off-newline (c ∷ d ∷ l) = breaks_off-newline (d ∷ l)

breaks_off-append : (l : Bytes) (d : ℕ) (s : Bytes) → breaks_off (l ++ d ∷ s) ≡ breaks_off (d ∷ s)
unfolding breaks_off
breaks_off-append [] d s = refl
breaks_off-append (c ∷ []) d s = refl
breaks_off-append (c ∷ e ∷ l) d s = breaks_off-append (e ∷ l) d s

breaks_off-cons : (s : Bytes) → breaks_off s ≡ false → breaks_off (10 ∷ s) ≡ false
unfolding breaks_off
breaks_off-cons [] h = refl
breaks_off-cons (c ∷ s) h = h

breaks_off-unlines : (ls : List Bytes) → breaks_off (unlines ls) ≡ false
breaks_off-unlines [] = unfold breaks_off in refl
breaks_off-unlines (l ∷ []) = breaks_off-newline l
breaks_off-unlines (l ∷ k ∷ ls) =
    breaks_off-append l 10 (unlines (k ∷ ls))
    ∙ breaks_off-cons (unlines (k ∷ ls)) (breaks_off-unlines (k ∷ ls))

broken_result-too_long :
    (m : Memory) (met broken : Bool) (ls : List Bytes)
    → broken_result m met broken ls (some too_long) ≡ (if met then err read_failed else ok m)
unfolding broken_result is_read_failed
broken_result-too_long m met broken [] = ground arith
broken_result-too_long m met broken (l ∷ ls) = refl

-- While the scanner has a line to yield or to stop at, only a failure that it has met counts.
broken_result-YieldsLine :
    (m : Memory) (met broken : Bool) (s : Scan)
    → YieldsLine s
    → broken_result m met broken s.tokens s.failure ≡ (if met then err read_failed else ok m)
broken_result-YieldsLine m met broken s (inl (l, ls, e)) = rw e (unfold broken_result in refl)
broken_result-YieldsLine m met broken s (inr e) =
    rw e (broken_result-too_long m met broken s.tokens)

broken_result-whole :
    (m : Memory) (met : Bool) (failure : Option ScanError)
    → broken_result m met false [] failure ≡ (if met then err read_failed else ok m)
unfolding broken_result
broken_result-whole m met failure = ground arith

-- Behind whole lines the scanner has a line to yield, or the input ends with them.
pub broken_result-rest :
    (m : Memory) (met fails : Bool) (ls : List Bytes) (rest : Bytes)
    → (let s = scan_lines max_scan_token_size (record { content = rest; fails = fails }) in
        broken_result m met (breaks_off (unlines ls ++ rest)) s.tokens s.failure)
      ≡ (if met then err read_failed else ok m)
broken_result-rest m met fails ls [] =
    rw
      (
        append-nil,
        breaks_off-unlines ls,
        scan_lines-unlines max_scan_token_size fails [] (omega arith) tt,
      )
      (broken_result-whole m met _)
broken_result-rest m met fails ls (c ∷ rest) =
    broken_result-YieldsLine m met _ _ (scan_lines-YieldsLine max_scan_token_size fails c rest)
