-- ===== src/Gpu.antt =====
-- The package `internal/gpu`: the accelerator's readings, taken from the `nvidia-smi` command.
pub mod Rows
use sparkwrangler.Base.{
  Bool, true, false, Option, none, some, List, [], ◌∷◌, ◌++◌, if◌then◌else◌, Bytes, codes,
}
use sparkwrangler.Float.{Float}
use sparkwrangler.Text.Search.{has_prefix, split}
use sparkwrangler.Text.Space.{trim_space}

pub record GpuReading (F : Type 0) : Type 0 where
  pub utilization_pct : Option F
  pub clock_mhz : Option F
  pub temperature_c : Option F
  pub power_w : Option F

-- `os/exec`: whether a command is found, and the output of a run, or none if the run fails.
pub record Exec : Type 0 where
  pub look_path : Bytes → Bool
  pub output : Bytes → List Bytes → Option Bytes

-- The adapters behind the interface `Reader`.
pub data Reader : Type 0 where
  nvidia_smi : Bytes → Reader
  no_accelerator : Reader

abbrev pub smi_query : Bytes
smi_query = codes "utilization.gpu,clocks.sm,temperature.gpu,power.draw"

abbrev pub smi_arguments : List Bytes
smi_arguments = (codes "--query-gpu=" ++ smi_query) ∷ codes "--format=csv,noheader,nounits" ∷ []

or_else : Bytes → Bytes → Bytes
or_else [] rest = rest
or_else (c ∷ s) rest = c ∷ s

first_non_empty : List Bytes → Bytes
unfolding or_else
first_non_empty [] = []
first_non_empty (l ∷ ls) = or_else (trim_space l) (first_non_empty ls)

unfoldable pub first_non_empty_line : Bytes → Bytes
unfolding first_non_empty
first_non_empty_line out = first_non_empty (split b'\n' out)

-- The command that a path stands for.
unfoldable pub command : Bytes → Bytes
command [] = codes "nvidia-smi"
command (c ∷ path) = c ∷ path

-- `Name`
unfoldable pub name : Reader → Bytes
name (nvidia_smi path) = codes "nvidia-smi"
name no_accelerator = codes "none"

module _ {F : Type 0} ⦃fl : Float F⦄ where
  -- The tests of `smiFloat` on the trimmed field.
  trimmed_float : Bytes → Option F
  trimmed_float [] = none
  trimmed_float (c ∷ v) = if has_prefix (c ∷ v) (codes "[") then none else fl.parse_float (c ∷ v)

  unfoldable pub smi_float : Bytes → Option F
  unfolding trimmed_float
  smi_float field = trimmed_float (trim_space field)

  abbrev pub no_reading : GpuReading F
  no_reading = record {
    utilization_pct = none;
    clock_mhz = none;
    temperature_c = none;
    power_w = none;
  }

  -- At least four fields, or nothing is read.
  read_row : List Bytes → GpuReading F
  unfolding smi_float
  read_row [] = no_reading
  read_row (a ∷ []) = no_reading
  read_row (a ∷ b ∷ []) = no_reading
  read_row (a ∷ b ∷ c ∷ []) = no_reading
  read_row (a ∷ b ∷ c ∷ d ∷ more) = record {
    utilization_pct = smi_float a;
    clock_mhz = smi_float b;
    temperature_c = smi_float c;
    power_w = smi_float d;
  }

  parse_line : Bytes → GpuReading F
  unfolding read_row
  parse_line [] = no_reading
  parse_line (c ∷ line) = read_row (split b',' (c ∷ line))

  unfoldable pub parse_smi : Bytes → GpuReading F
  unfolding parse_line
  parse_smi out = parse_line (first_non_empty_line out)

  parse_output : Option Bytes → Option (GpuReading F)
  parse_output none = none
  parse_output (some out) = some (parse_smi out)

  -- `Read` of the two adapters; `none` is an error.
  unfoldable pub read : Exec → Reader → Option (GpuReading F)
  unfolding command parse_output
  read x no_accelerator = some no_reading
  read x (nvidia_smi path) =
      if x.look_path (command path)
      then parse_output (x.output (command path) smi_arguments)
      else some no_reading
