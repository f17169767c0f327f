-- ===== src/Gpu/Rows.antt =====
-- A row of `nvidia-smi` is read field by field.
use sparkwrangler.Base.{
  ℕ, zero, suc, List, map, All, true, Option, none, some, [], ◌∷◌, ◌++◌, ◌≡◌, refl, ◌∙◌, ap, arith,
  if◌then◌else◌, ◌==◌, Bytes, All-append, ◌↔◌, ◌⊎◌, inl, inr, Bool-cases,
}
use sparkwrangler.Float.{Float}
use sparkwrangler.Gpu.{
  GpuReading, Exec, nvidia_smi, smi_arguments, or_else, first_non_empty, first_non_empty_line,
  trimmed_float, smi_float, read_row, parse_line, parse_smi, read, no_reading, command,
  parse_output,
}
use sparkwrangler.Text.Search.{Lacks, split-append, split, split-Lacks, has_prefix_one}
use sparkwrangler.Text.Space.{
  IsTrimmed, trim_space, trim_space-IsTrimmed, trim_space-blank, IsTrimmed-append,
}

-- A field: no comma, no line end, and visible characters at its ends.
pub record IsField (s : Bytes) : Type 0 where
  pub trimmed : IsTrimmed s
  pub no_comma : Lacks b',' s
  pub no_newline : Lacks b'\n' s

-- The row that the command prints of some fields, and the output, which may begin with blank lines.
abbrev pub print_row : Bytes → List Bytes → Bytes
print_row a [] = a
print_row a (b ∷ fields) = a ++ b',' ∷ b' ' ∷ print_row b fields

abbrev pub print_output : ℕ → Bytes → Bytes
print_output zero out = out
print_output (suc n) out = b'\n' ∷ print_output n out

row-IsTrimmed :
    (a : Bytes) (fields : List Bytes)
    → IsField a
    → All IsField fields
    → IsTrimmed (print_row a fields)
row-IsTrimmed a [] h hs = h.trimmed
row-IsTrimmed a (b ∷ fields) h hs =
    IsTrimmed-append a (b',' ∷ b' ' ∷ []) (print_row b fields) h.trimmed
      (row-IsTrimmed b fields hs.0 hs.1)

row-Lacks :
    (a : Bytes) (fields : List Bytes)
    → IsField a
    → All IsField fields
    → Lacks b'\n' (print_row a fields)
row-Lacks a [] h hs = h.no_newline
row-Lacks a (b ∷ fields) h hs =
    All-append _ a _ h.no_newline (refl, (refl, row-Lacks b fields hs.0 hs.1))

-- The fields behind the first have a blank in front.
split-blank :
    (a : Bytes) (fields : List Bytes)
    → IsField a
    → All IsField fields
    → split b',' (b' ' ∷ print_row a fields) ≡ map (◌∷◌ b' ') (a ∷ fields)
split-blank a [] h hs = split-Lacks b',' (b' ' ∷ a) (refl, h.no_comma)
split-blank a (b ∷ fields) h hs =
    split-append b',' (b' ' ∷ a) _ (refl, h.no_comma)
    ∙ ap (◌∷◌ (b' ' ∷ a)) (split-blank b fields hs.0 hs.1)

split-row :
    (a : Bytes) (fields : List Bytes)
    → IsField a
    → All IsField fields
    → split b',' (print_row a fields) ≡ a ∷ map (◌∷◌ b' ') fields
split-row a [] h hs = split-Lacks b',' a h.no_comma
split-row a (b ∷ fields) h hs =
    split-append b',' a _ h.no_comma ∙ ap (◌∷◌ a) (split-blank b fields hs.0 hs.1)

or_else-IsTrimmed : (s rest : Bytes) → IsTrimmed s → or_else s rest ≡ s
unfolding or_else
or_else-IsTrimmed [] rest h = cc h.starts
or_else-IsTrimmed (c ∷ s) rest h = refl

or_else-blank : (rest : Bytes) → or_else (trim_space []) rest ≡ rest
unfolding or_else trim_space
or_else-blank rest = refl

-- The first line that is not blank is found.
first_line :
    (n : ℕ) (row rest : Bytes)
    → IsTrimmed row
    → Lacks b'\n' row
    → first_non_empty_line (print_output n (row ++ b'\n' ∷ rest)) ≡ row
unfolding first_non_empty_line first_non_empty
first_line zero row rest t l =
    rw (split-append b'\n' row rest l, trim_space-IsTrimmed row t) (or_else-IsTrimmed row _ t)
first_line (suc n) row rest t l =
    rw (split-append b'\n' [] (print_output n (row ++ b'\n' ∷ rest)) tt)
      (or_else-blank _ ∙ first_line n row rest t l)

module _ {F : Type 0} ⦃fl : Float F⦄ where
  -- What a field stands for: nothing if it begins with a bracket, and otherwise the number that it
  -- reads as, if it does.
  abbrev pub field_value : Bytes → Option F
  field_value [] = none
  field_value (c ∷ v) = if c == b'[' then none else fl.parse_float (c ∷ v)

  trimmed_float-field_value : (s : Bytes) → trimmed_float s ≡ field_value s
  unfolding trimmed_float
  trimmed_float-field_value [] = refl
  trimmed_float-field_value (c ∷ v) = rw (has_prefix_one b'[' c v)

  smi_float-field : (s : Bytes) → IsTrimmed s → smi_float s ≡ field_value s
  unfolding smi_float
  smi_float-field s h = rw (trim_space-IsTrimmed s h) (trimmed_float-field_value s)

  smi_float-blank : (s : Bytes) → IsTrimmed s → smi_float (b' ' ∷ s) ≡ field_value s
  unfolding smi_float
  smi_float-blank s h = rw (trim_space-blank s) (smi_float-field s h)

  parse_line-split : (s : Bytes) → IsTrimmed s → parse_line {F = F} s ≡ read_row (split b',' s)
  unfolding parse_line
  parse_line-split [] h = cc h.starts
  parse_line-split (c ∷ s) h = refl

  -- What a row of fields stands for: the first four, each apart from the others, and nothing at all if
  -- there are fewer.
  abbrev pub row_reading : List Bytes → GpuReading F
  row_reading [] = no_reading
  row_reading (a ∷ []) = no_reading
  row_reading (a ∷ b ∷ []) = no_reading
  row_reading (a ∷ b ∷ c ∷ []) = no_reading
  row_reading (a ∷ b ∷ c ∷ d ∷ more) = record {
    utilization_pct = field_value a;
    clock_mhz = field_value b;
    temperature_c = field_value c;
    power_w = field_value d;
  }

  read_row-fields :
      (a : Bytes) (fields : List Bytes)
      → IsField a
      → All IsField fields
      → read_row (a ∷ map (◌∷◌ b' ') fields) ≡ row_reading (a ∷ fields)
  unfolding read_row
  read_row-fields a [] h hs = refl
  read_row-fields a (b ∷ []) h hs = refl
  read_row-fields a (b ∷ c ∷ []) h hs = refl
  read_row-fields a (b ∷ c ∷ d ∷ more) h hs = rw (
    smi_float-field a h.trimmed,
    smi_float-blank b hs.0.trimmed,
    smi_float-blank c hs.1.0.trimmed,
    smi_float-blank d hs.1.1.0.trimmed,
  )

  -- The first row of the command's output that is not blank is read, whatever follows it: of four fields
  -- or more each of the first four apart from the others, where one that is bracketed, or is no number, is
  -- absent and takes no other field with it; of fewer fields nothing.
  pub parse_smi-print :
      (n : ℕ) (a : Bytes) (fields : List Bytes) (rest : Bytes)
      → IsField a
      → All IsField fields
      → parse_smi (print_output n (print_row a fields ++ b'\n' ∷ rest)) ≡ row_reading (a ∷ fields)
  unfolding parse_smi
  parse_smi-print n a fields rest h hs =
      let t = row-IsTrimmed a fields h hs in
      ap parse_line (first_line n (print_row a fields) rest t (row-Lacks a fields h hs))
      ∙ parse_line-split (print_row a fields) t
      ∙ ap read_row (split-row a fields h hs)
      ∙ read_row-fields a fields h hs

  -- A reading fails exactly if the command is found and its run fails. A host without the command
  -- gives an empty reading.
  pub read_iff :
      (x : Exec) (path : Bytes)
      → ((read {F = F} x (nvidia_smi path) ≡ none)
          ↔ ((x.look_path (command path) ≡ true) × (x.output (command path) smi_arguments ≡ none)))
        × ((x.look_path (command path) ≡ true)
            ⊎ (read {F = F} x (nvidia_smi path) ≡ some no_reading))
  unfolding read parse_output
  read_iff x path = elim (Bool-cases (x.look_path (command path))) [
    | inl found ↦ (((λ h. (found, ground arith)), (λ h. rw (found, h.1))), inl found)
    | inr missing ↦ (((λ h. cc), (λ h. cc)), inr (rw missing))
  ]
