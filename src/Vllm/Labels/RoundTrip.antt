-- ===== src/Vllm/Labels/RoundTrip.antt =====
-- A label set in the exposition format is parsed back.
use sparkwrangler.Base.{
  ℕ, Bool, true, false, not, ◌&&◌, Option, none, some, [], ◌∷◌, ◌++◌, ◌==◌, Bytes, Dict, insert,
  All, All-map, ap, ◌≡◌, refl, ◌∙◌, arith, append_assoc, append-nil,
}
use sparkwrangler.Text.Space.{IsGraphic, trim_space, trim_space-word}
use sparkwrangler.Vllm.Labels.{Labeling, quote, backslash, flush, store, run, parse_labels}

-- The bytes of a label's name.
abbrev pub IsNameByte : ℕ → Type 0
IsNameByte c = IsGraphic c × ((c == quote) ≡ false) × ((c == b'=') ≡ false) × ((c == b',') ≡ false)

-- The text between the quotes, behind a byte `prev`: each quote in it stands behind a backslash, and
-- it does not end with one.
abbrev pub IsQuotable : ℕ → Bytes → Type 0
IsQuotable prev [] = (prev == backslash) ≡ false
IsQuotable prev (c ∷ v) = ((c == quote && not (prev == backslash)) ≡ false) × IsQuotable c v

abbrev pub IsLabel : Bytes × Bytes → Type 0
IsLabel ([], v) = ⊥
IsLabel (c ∷ k, v) = All IsNameByte (c ∷ k) × IsQuotable quote v

-- `k="v",…` with a comma between two labels.
abbrev pub print_label : Bytes × Bytes → Bytes → Bytes
print_label (k, v) rest = k ++ b'=' ∷ quote ∷ (v ++ quote ∷ rest)

abbrev pub print_labels : Dict Bytes → Bytes
print_labels [] = []
print_labels (l ∷ []) = print_label l []
print_labels (l ∷ m ∷ ls) = print_label l (b',' ∷ print_labels (m ∷ ls))

-- The map that the labels make when they are stored one by one.
abbrev pub store_all : Dict Bytes → Dict Bytes → Dict Bytes
store_all out [] = out
store_all out ((k, v) ∷ ls) = store_all (insert k v out) ls

abbrev reading : Bytes → Bytes → Bool → Bool → Dict Bytes → Labeling
reading k v in_value in_quotes out = record {
  key = k;
  val = v;
  in_value = in_value;
  in_quotes = in_quotes;
  out = out;
}

run-name :
    (k key rest : Bytes) (prev : Option ℕ) (out : Dict Bytes)
    → All IsNameByte k
    → run (reading key [] false false out) prev (k ++ b'=' ∷ rest)
      ≡ run (reading (key ++ k) [] true false out) (some b'=') rest
unfolding run
run-name [] key rest prev out h = rw append-nil
run-name (c ∷ k) key rest prev out h =
    ground (arith, run-name k (key ++ c ∷ []) rest (some c) out h.1, append_assoc key (c ∷ []) k)

run-quote :
    (key rest : Bytes) (out : Dict Bytes)
    → run (reading key [] true false out) (some b'=') (quote ∷ rest)
      ≡ run (reading key [] true true out) (some quote) rest
unfolding run
run-quote key rest out = refl

run-value :
    (v key val rest : Bytes) (prev : ℕ) (out : Dict Bytes)
    → IsQuotable prev v
    → run (reading key val true true out) (some prev) (v ++ quote ∷ rest)
      ≡ run (reading key (val ++ v) true false out) (some quote) rest
unfolding run
run-value [] key val rest prev out h = rw append-nil (ground arith)
run-value (c ∷ v) key val rest prev out h =
    ground (arith, run-value v key (val ++ c ∷ []) rest c out h.1, append_assoc val (c ∷ []) v)

store-name :
    (c : ℕ) (k v : Bytes) (out : Dict Bytes)
    → All IsNameByte (c ∷ k)
    → store (trim_space (c ∷ k)) v out ≡ insert (c ∷ k) v out
unfolding store
store-name c k v out h = rw (trim_space-word c k (All-map (λ d p. p.0) (c ∷ k) h))

run-comma :
    (c : ℕ) (k v rest : Bytes) (out : Dict Bytes)
    → All IsNameByte (c ∷ k)
    → run (reading (c ∷ k) v true false out) (some quote) (b',' ∷ rest)
      ≡ run (reading [] [] false false (insert (c ∷ k) v out)) (some b',') rest
unfolding run flush
run-comma c k v rest out h = rw (store-name c k v out h)

run-end :
    (c : ℕ) (k v : Bytes) (out : Dict Bytes)
    → All IsNameByte (c ∷ k)
    → (run (reading (c ∷ k) v true false out) (some quote) []).out ≡ insert (c ∷ k) v out
unfolding run flush
run-end c k v out h = store-name c k v out h

run-label :
    (k v rest : Bytes) (prev : Option ℕ) (out : Dict Bytes)
    → IsLabel (k, v)
    → run (reading [] [] false false out) prev (print_label (k, v) rest)
      ≡ run (reading k v true false out) (some quote) rest
run-label [] v rest prev out h = elim h [ ]
run-label (c ∷ k) v rest prev out h =
    run-name (c ∷ k) [] (quote ∷ (v ++ quote ∷ rest)) prev out h.0
    ∙ run-quote (c ∷ k) (v ++ quote ∷ rest) out
    ∙ run-value v (c ∷ k) [] rest quote out h.1

run-labels :
    (l : Bytes × Bytes) (ls : Dict Bytes) (prev : Option ℕ) (out : Dict Bytes)
    → All IsLabel (l ∷ ls)
    → (run (reading [] [] false false out) prev (print_labels (l ∷ ls))).out
      ≡ store_all out (l ∷ ls)
run-labels ([], v) ls prev out h = elim h.0 [ ]
run-labels (c ∷ k, v) [] prev out h =
    ap (λ s. s.out) (run-label (c ∷ k) v [] prev out h.0) ∙ run-end c k v out h.0.0
run-labels (c ∷ k, v) (m ∷ ls) prev out h =
    ap (λ s. s.out)
      (run-label (c ∷ k) v (b',' ∷ print_labels (m ∷ ls)) prev out h.0
        ∙ run-comma c k v (print_labels (m ∷ ls)) out h.0.0)
    ∙ run-labels m ls (some b',') (insert (c ∷ k) v out) h.1

-- Parsing a printed label set gives the map of its labels, each with the text between its quotes as
-- it stands, escapes not undone: a comma, a brace or an equals sign in a value ends nothing. Names are
-- not empty and are of visible ASCII characters other than a quote, an equals sign and a comma. A
-- quote inside a value stands behind a backslash, and a value does not end in a backslash, not even in
-- an escaped one.
pub parse_labels-print :
    (ls : Dict Bytes) → All IsLabel ls → parse_labels (print_labels ls) ≡ store_all [] ls
unfolding parse_labels trim_space
parse_labels-print [] h = refl
parse_labels-print (l ∷ ls) h = run-labels l ls none [] h
