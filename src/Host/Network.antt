-- ===== src/Host/Network.antt =====
-- internal/host/network.go: the hardware address that identifies the node.
pub mod Ports
pub mod Fallback
pub mod Choice
pub mod Identity
pub mod Order
pub mod Listing
pub mod Source
use sparkwrangler.Base.Int.{ℤ, pos, ltb_ℤ}
use sparkwrangler.Base.{
  ℕ, ◌^◌, ◌-◌, Bool, true, false, not, ◌&&◌, ◌||◌, Option, none, some, List, [], ◌∷◌, ◌++◌, ltb,
  ◌==◌, if◌then◌else◌, Bytes, codes, equal, Result, ok, err, get_or, length, leb,
}
use sparkwrangler.Host.Mac.{parse_mac, format_mac}
use sparkwrangler.Text.Decimal.{parse_int64}
use sparkwrangler.Text.Lines.{Input, scan_lines, max_scan_token_size}
use sparkwrangler.Text.Search.{contains}
use sparkwrangler.Text.Space.{trim_space, fields}

pub data Entries : Type 0 where
  missing : Entries
  refused : Entries
  listed : List Bytes → Entries

-- The two trees that are read. An attribute is the content of the file `SysClassNet/name/file`, a link
-- the target of `SysClassNet/name`, and a read that fails is `none`.
pub record SysNet : Type 0 where
  pub attribute : Bytes → Bytes → Option Bytes
  pub link : Bytes → Option Bytes
  pub has : Bytes → Bytes → Bool
  pub entries : Entries
  -- the content of `ProcNetRoute`, if it opens
  pub route : Option Input

pub data MacError : Type 0 where
  unreadable : MacError
  unparsable : MacError
  no_address : MacError
  no_entries : MacError

-- `for _, b := range hw { if b != 0 … }`
pub any_nonzero : Bytes → Bool
any_nonzero [] = false
any_nonzero (b ∷ hw) = not (b == 0) || any_nonzero hw

address_text : Option Bytes → Result MacError Bytes
unfolding any_nonzero
address_text none = err unparsable
address_text (some hw) = ok (if any_nonzero hw then format_mac hw else [])

read_address : Option Bytes → Result MacError Bytes
unfolding address_text
read_address none = err unreadable
read_address (some raw) = address_text (parse_mac (trim_space raw))

-- `readMAC`
unfoldable pub read_mac : SysNet → Bytes → Result MacError Bytes
unfolding read_address
read_mac sys name = read_address (sys.attribute name (codes "address"))

attribute_text : Option Bytes → Bytes
attribute_text none = []
attribute_text (some raw) = trim_space raw

-- `readSysAttr`
unfoldable pub read_sys_attr : SysNet → Bytes → Bytes → Bytes
unfolding attribute_text
read_sys_attr sys name file = attribute_text (sys.attribute name file)

is_virtual : Option Bytes → Bool
is_virtual none = false
is_virtual (some target) = contains target (codes "/virtual/")

unfoldable pub is_physical_ethernet : SysNet → Bytes → Bool
unfolding is_virtual
is_physical_ethernet sys name =
    if equal name (codes "lo")
    then false
    else if is_virtual (sys.link name)
    then false
    else if not (equal (read_sys_attr sys name (codes "type")) (codes "1"))
    then false
    else not (sys.has name (codes "wireless") || sys.has name (codes "phy80211"))

pub record NetInterface : Type 0 where
  pub name : Bytes
  pub mac : Bytes

-- `err != nil || mac == ""` skips an entry.
found_mac : Bytes → Result MacError Bytes → List NetInterface → List NetInterface
found_mac name (err e) found = found
found_mac name (ok []) found = found
found_mac name (ok (c ∷ mac)) found = record { name = name; mac = c ∷ mac } ∷ found

pub candidates : SysNet → List Bytes → List NetInterface
unfolding found_mac
candidates sys [] = []
candidates sys (n ∷ ns) =
    let rest = candidates sys ns in
    if is_physical_ethernet sys n then found_mac n (read_mac sys n) rest else rest

-- `<` on strings.
unfoldable pub before : Bytes → Bytes → Bool
before s [] = false
before [] (y ∷ t) = true
before (x ∷ s) (y ∷ t) = ltb x y || ((x == y) && before s t)

insert_sorted : NetInterface → List NetInterface → List NetInterface
insert_sorted i [] = i ∷ []
insert_sorted i (j ∷ js) = if before j.name i.name then j ∷ insert_sorted i js else i ∷ j ∷ js

-- `sort.Slice` by name. The names of a directory's entries differ, so any sort gives the same list.
pub sort_by_name : List NetInterface → List NetInterface
unfolding insert_sorted before
sort_by_name [] = []
sort_by_name (i ∷ is) = insert_sorted i (sort_by_name is)

-- `ethernetInterfaces`
unfoldable pub ethernet_interfaces : SysNet → Entries → Result MacError (List NetInterface)
unfolding candidates sort_by_name
ethernet_interfaces sys missing = ok []
ethernet_interfaces sys refused = err no_entries
ethernet_interfaces sys (listed names) = ok (sort_by_name (candidates sys names))

-- The best route so far: its interface and its metric.
pub record Route : Type 0 where
  pub iface : Bytes
  pub metric : ℤ

abbrev pub max_int : ℤ
max_int = pos (2 ^ 63 - 1)

abbrev pub no_route : Route
no_route = record { iface = []; metric = max_int }

-- The fields of a line, by position; the tests keep every access in bounds.
abbrev field : List Bytes → ℕ → Bytes
field fs i = get_or fs i []

is_default : List Bytes → Bool
is_default fs =
    not (ltb (length fs) 8)
    && equal (field fs 1) (codes "00000000")
    && equal (field fs 7) (codes "00000000")

better : Route → Bytes → Option ℤ → Route
better best name none = best
better best name (some metric) =
    if ltb_ℤ metric best.metric then record { iface = name; metric = metric } else best

-- One round of the loop of `defaultRouteInterface`, on the fields of a line.
route_step : Route → List Bytes → Route
unfolding is_default better
route_step best fs =
    if is_default fs then better best (field fs 0) (parse_int64 (field fs 6)) else best

best_route : Route → List Bytes → Route
unfolding route_step
best_route best [] = best
best_route best (l ∷ ls) = best_route (route_step best (fields l)) ls

default_route : Option Input → Bytes
unfolding best_route
default_route none = []
default_route (some r) = (best_route no_route (scan_lines max_scan_token_size r).tokens).iface

unfoldable pub default_route_interface : SysNet → Bytes
unfolding default_route
default_route_interface sys = default_route sys.route

-- A named interface has to give an address.
named_mac : Result MacError Bytes → Result MacError Bytes
named_mac (err e) = err e
named_mac (ok []) = err no_address
named_mac (ok (c ∷ mac)) = ok (c ∷ mac)

pub first_mac : Result MacError (List NetInterface) → Result MacError Bytes
first_mac (err e) = err e
first_mac (ok []) = ok []
first_mac (ok (i ∷ is)) = ok i.mac

fallback : SysNet → Result MacError Bytes
unfolding first_mac
fallback sys = first_mac (ethernet_interfaces sys sys.entries)

-- The address of the default route's interface, if that has one.
or_fallback : SysNet → Result MacError Bytes → Result MacError Bytes
unfolding fallback
or_fallback sys (err e) = fallback sys
or_fallback sys (ok []) = fallback sys
or_fallback sys (ok (c ∷ mac)) = ok (c ∷ mac)

automatic : SysNet → Bytes → Result MacError Bytes
unfolding or_fallback
automatic sys [] = fallback sys
automatic sys (c ∷ def) = or_fallback sys (read_mac sys (c ∷ def))

preferred_or_automatic : SysNet → Bytes → Result MacError Bytes
unfolding named_mac automatic
preferred_or_automatic sys [] = automatic sys (default_route_interface sys)
preferred_or_automatic sys (c ∷ name) = named_mac (read_mac sys (c ∷ name))

-- `PrimaryMAC`
unfoldable pub primary_mac : SysNet → Bytes → Result MacError Bytes
unfolding preferred_or_automatic
primary_mac sys preferred = preferred_or_automatic sys (trim_space preferred)
