-- ===== src/Tests/Hosts.antt =====
-- The accelerator, the memory, the hardware address and the watchdog.
use mathlib.Core.List.{Permᴰ}
use sparkwrangler.Base.Int.{pos}
use sparkwrangler.Base.{
  arith, ◌*◌, true, false, Option, none, some, List, [], ◌∷◌, ◌++◌, ◌≡◌, inr, refl, Bytes, codes,
  ok, err, All, equal, if◌then◌else◌,
}
use sparkwrangler.Gpu.Rows.{IsField, print_row, print_output, row_reading, parse_smi-print}
use sparkwrangler.Gpu.{parse_smi}
use sparkwrangler.Host.Memory.Accounting.{
  Entry, print_lines, accounted, IsOther, parse_mem_info-print,
}
use sparkwrangler.Host.Memory.{kib_to_bytes, parse_mem_info}
use sparkwrangler.Host.Network.Choice.{
  default_routes, IsLightest, default_route_interface-IsLightest,
}
use sparkwrangler.Host.Network.Identity.{IsMacText, primary_mac-IsMacText}
use sparkwrangler.Host.Network.Listing.{listing, primary_mac-Perm}
use sparkwrangler.Host.Network.Source.{IsFrom, primary_mac-IsFrom}
use sparkwrangler.Host.Mac.{parse_mac, format_mac}
use sparkwrangler.Host.Network.{
  ethernet_interfaces, is_physical_ethernet, read_sys_attr, SysNet, Entries, Route, no_route,
  primary_mac, read_mac, default_route_interface,
}
use sparkwrangler.Sdnotify.Watchdog.{watchdog_interval-half}
use sparkwrangler.Sdnotify.{Env, getenv, watchdog_interval}
use sparkwrangler.Tests.Numbers.{Number, number_float}
use sparkwrangler.Text.Decimal.{format_nat, parse_int64}
use sparkwrangler.Text.Lines.{read_failed, IsLine, Input, unlines, scan_lines, max_scan_token_size}
use sparkwrangler.Text.Search.{cut, contains}
use sparkwrangler.Text.Space.{fields, trim_space, IsTrimmed-word}

abbrev field : Bytes
field = codes "42"

field-IsField : IsField field
field-IsField = record {
  trimmed = IsTrimmed-word b'4' (b'2' ∷ []) (ground arith);
  no_comma = ground arith;
  no_newline = ground arith;
}

parse_smi-print_example :
    parse_smi {F = Number} (
      print_output 2 (print_row field (field ∷ field ∷ field ∷ field ∷ []) ++ b'\n' ∷ codes "1, 2"))
    ≡ row_reading (field ∷ field ∷ field ∷ field ∷ field ∷ [])
parse_smi-print_example =
    parse_smi-print 2 field (field ∷ field ∷ field ∷ field ∷ []) (codes "1, 2") field-IsField
      (field-IsField, (field-IsField, (field-IsField, (field-IsField, tt))))

-- What is available stands in front of the total, and a line is cut off behind them.
abbrev available : Entry
available = record { pad = 1; kib = 16 }

abbrev total : Entry
total = record { pad = 3; kib = 64 }

abbrev accounting : List Bytes
accounting = print_lines false available total [] (codes "MemFree: 1 kB" ∷ [])

abbrev meminfo : Input
meminfo = record { content = unlines accounting ++ codes "Cached"; fails = true }

free-IsOther : IsOther (codes "MemFree: 1 kB")
unfolding cut equal
free-IsOther = (refl, refl)

entries-IsLine : All (IsLine max_scan_token_size) accounting
unfolding format_nat
entries-IsLine = ground arith

parse_mem_info-print_example : parse_mem_info meminfo false ≡ ok (accounted false available total)
parse_mem_info-print_example =
    parse_mem_info-print false available total [] (codes "MemFree: 1 kB" ∷ []) (codes "Cached") true
      false (omega arith) (omega arith) tt (free-IsOther, tt) entries-IsLine

-- The last entry without its newline: the failure of the read behind it is met.
abbrev cut_off : Input
cut_off = record { content = codes "MemTotal: 4 kB\nMemAvailable: 2 kB"; fails = true }

cut_off_read : parse_mem_info cut_off false ≡ err read_failed
unfolding parse_mem_info scan_lines cut kib_to_bytes equal fields parse_int64
cut_off_read = refl

-- Two ports, of which the directory lists the higher first.
abbrev address : Bytes → Option Bytes
address name =
    if equal name (codes "eth0")
    then some (codes "02:00:00:00:00:0A\n")
    else if equal name (codes "eth1")
    then some (codes "02-00-00-00-00-0b\n")
    else none

abbrev attributes : Bytes → Bytes → Option Bytes
attributes name file = if equal file (codes "type") then some (codes "1\n") else address name

abbrev ports : SysNet
ports = record {
  attribute = attributes;
  link = λ name. some (codes "../devices/pci0000/net");
  has = λ name file. false;
  entries = Entries.listed (codes "eth1" ∷ codes "lo" ∷ codes "eth0" ∷ []);
  route = none;
}

ports-primary : primary_mac ports [] ≡ ok (codes "02:00:00:00:00:0a")
unfolding primary_mac trim_space default_route_interface ethernet_interfaces is_physical_ethernet
    equal contains read_sys_attr read_mac parse_mac format_mac
ports-primary = refl

primary_mac-IsMacText_example : IsMacText (codes "02:00:00:00:00:0a")
primary_mac-IsMacText_example = primary_mac-IsMacText ports [] ports-primary

ports-named : primary_mac ports (codes "eth1 ") ≡ ok (codes "02:00:00:00:00:0b")
unfolding primary_mac trim_space read_mac parse_mac format_mac equal
ports-named = refl

primary_mac-IsFrom_example : IsFrom ports (codes "eth1 ") (codes "02:00:00:00:00:0b")
primary_mac-IsFrom_example = primary_mac-IsFrom ports (codes "eth1 ") ports-named

primary_mac-Perm_example :
    primary_mac (listing ports (codes "eth1" ∷ codes "eth0" ∷ [])) []
    ≡ primary_mac (listing ports (codes "eth0" ∷ codes "eth1" ∷ [])) []
primary_mac-Perm_example = primary_mac-Perm ports [] (Permᴰ.swap refl refl)

abbrev table : Input
table = record {
  content = codes "Iface\tDestination\neth0\t00000000\t0\t0\t0\t0\t100\t00000000\n";
  fails = false;
}

abbrev routed : SysNet
routed = record ports { route = some table }

default_route_interface-IsLightest_example :
    (w : Route) × (default_route_interface routed ≡ w.iface)
    × IsLightest w (no_route ∷ default_routes (scan_lines max_scan_token_size table).tokens)
default_route_interface-IsLightest_example = default_route_interface-IsLightest routed table refl

-- The variables of systemd.
abbrev variables : Env
variables name =
    if equal name (codes "WATCHDOG_USEC")
    then some (format_nat 30_000_000)
    else if equal name (codes "WATCHDOG_PID")
    then some (format_nat 7)
    else none

variables-usec : getenv variables (codes "WATCHDOG_USEC") ≡ format_nat 30_000_000
unfolding equal
variables-usec = refl

variables-pid : getenv variables (codes "WATCHDOG_PID") ≡ format_nat 7
unfolding equal
variables-pid = refl

watchdog_interval-half_example : watchdog_interval variables (pos 7) ≡ pos (30_000_000 * 500)
watchdog_interval-half_example =
    watchdog_interval-half variables 7 30_000_000 (omega arith) (omega arith) (omega arith)
      variables-usec (inr variables-pid)
