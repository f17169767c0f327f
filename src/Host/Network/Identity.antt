-- ===== src/Host/Network/Identity.antt =====
-- Which address identifies the node, and in what form.
use sparkwrangler.Base.{
  All, arith, ℕ, true, Option, none, some, List, [], ◌∷◌, ◌≡◌, ◌≢◌, ◌⊎◌, inl, inr, refl, Bytes,
  codes, Result, ok, err, Bool-cases, All, subst,
}
use sparkwrangler.Host.Mac.Canonical.{IsAddress, parse_mac-IsAddress}
use sparkwrangler.Host.Mac.{parse_mac, format_mac}
use sparkwrangler.Host.Network.{
  SysNet, Entries, NetInterface, MacError, any_nonzero, address_text, read_address, read_mac,
  ethernet_interfaces, default_route_interface, named_mac, first_mac, fallback, or_fallback,
  automatic, preferred_or_automatic, primary_mac, found_mac, candidates, insert_sorted,
  sort_by_name, before, is_physical_ethernet,
}
use sparkwrangler.Text.Space.{trim_space}

-- The print of an address that is not zero: lowercase pairs of digits between colons.
pub record IsMac (mac : Bytes) : Type 0 where
  pub hw : Bytes
  pub address : IsAddress hw
  pub printed : mac ≡ format_mac hw
  pub nonzero : ¬ All (λ b. b ≡ 0) hw

-- Nothing, or an address.
abbrev pub IsMacText : Bytes → Type 0
IsMacText mac = (mac ≡ []) ⊎ IsMac mac

abbrev IsMacResult : Result MacError Bytes → Type 0
IsMacResult (ok mac) = IsMacText mac
IsMacResult (err e) = Unit

any_nonzero_sound : (hw : Bytes) → any_nonzero hw ≡ true → ¬ All (λ b. b ≡ 0) hw
unfolding any_nonzero
any_nonzero_sound [] h = cc
any_nonzero_sound (b ∷ hw) h = λ k. any_nonzero_sound hw (ground (arith, k.0)) k.1

address_text-IsMacResult :
    (o : Option Bytes) → ((hw : Bytes) → o ≡ some hw → IsAddress hw) → IsMacResult (address_text o)
unfolding address_text
address_text-IsMacResult none h = tt
address_text-IsMacResult (some hw) h = elim (Bool-cases (any_nonzero hw)) [
  | inl good ↦ rw good (
      inr (record {
        hw = hw;
        address = h hw refl;
        printed = refl;
        nonzero = any_nonzero_sound hw good;
      }))
  | inr zeros ↦ rw zeros (inl refl)
]

read_address-IsMacResult : (o : Option Bytes) → IsMacResult (read_address o)
unfolding read_address
read_address-IsMacResult none = tt
read_address-IsMacResult (some raw) =
    address_text-IsMacResult (parse_mac (trim_space raw))
      (λ hw e. parse_mac-IsAddress (trim_space raw) e)

read_mac-IsMacResult : (sys : SysNet) (name : Bytes) → IsMacResult (read_mac sys name)
unfolding read_mac
read_mac-IsMacResult sys name = read_address-IsMacResult (sys.attribute name (codes "address"))

IsMacText-cons : (c : ℕ) (mac : Bytes) → IsMacText (c ∷ mac) → IsMac (c ∷ mac)
IsMacText-cons c mac (inl e) = cc
IsMacText-cons c mac (inr h) = h

abbrev HasMac : NetInterface → Type 0
HasMac i = IsMac i.mac

found_mac-HasMac :
    (name : Bytes) (r : Result MacError Bytes) (found : List NetInterface)
    → IsMacResult r
    → All HasMac found
    → All HasMac (found_mac name r found)
unfolding found_mac
found_mac-HasMac name (err e) found h k = k
found_mac-HasMac name (ok []) found h k = k
found_mac-HasMac name (ok (c ∷ mac)) found h k = (IsMacText-cons c mac h, k)

candidates-HasMac : (sys : SysNet) (names : List Bytes) → All HasMac (candidates sys names)
unfolding candidates
candidates-HasMac sys [] = tt
candidates-HasMac sys (n ∷ ns) = elim (Bool-cases (is_physical_ethernet sys n)) [
  | inl port ↦ rw port (
      found_mac-HasMac n (read_mac sys n) (candidates sys ns) (read_mac-IsMacResult sys n)
        (candidates-HasMac sys ns))
  | inr other ↦ rw other (candidates-HasMac sys ns)
]

insert_sorted-All :
    (P : NetInterface → Type 0) (i : NetInterface) (is : List NetInterface)
    → P i
    → All P is
    → All P (insert_sorted i is)
unfolding insert_sorted
insert_sorted-All P i [] h k = (h, tt)
insert_sorted-All P i (j ∷ js) h k = elim (Bool-cases (before j.name i.name)) [
  | inl later ↦ rw later (k.0, insert_sorted-All P i js h k.1)
  | inr first ↦ rw first (h, k)
]

sort_by_name-All :
    (P : NetInterface → Type 0) (is : List NetInterface) → All P is → All P (sort_by_name is)
unfolding sort_by_name
sort_by_name-All P [] h = tt
sort_by_name-All P (i ∷ is) h =
    insert_sorted-All P i (sort_by_name is) h.0 (sort_by_name-All P is h.1)

first_mac-IsMacResult : (is : List NetInterface) → All HasMac is → IsMacResult (first_mac (ok is))
unfolding first_mac
first_mac-IsMacResult [] h = inl refl
first_mac-IsMacResult (i ∷ is) h = inr h.0

fallback-IsMacResult :
    (sys : SysNet) (e : Entries) → IsMacResult (first_mac (ethernet_interfaces sys e))
unfolding ethernet_interfaces
fallback-IsMacResult sys Entries.missing = first_mac-IsMacResult [] tt
fallback-IsMacResult sys Entries.refused = unfold first_mac in tt
fallback-IsMacResult sys (Entries.listed names) =
    first_mac-IsMacResult _
      (sort_by_name-All HasMac (candidates sys names) (candidates-HasMac sys names))

or_fallback-IsMacResult :
    (sys : SysNet) (r : Result MacError Bytes) → IsMacResult r → IsMacResult (or_fallback sys r)
unfolding or_fallback fallback
or_fallback-IsMacResult sys (err e) h = fallback-IsMacResult sys sys.entries
or_fallback-IsMacResult sys (ok []) h = fallback-IsMacResult sys sys.entries
or_fallback-IsMacResult sys (ok (c ∷ mac)) h = h

automatic-IsMacResult : (sys : SysNet) (def : Bytes) → IsMacResult (automatic sys def)
unfolding automatic fallback
automatic-IsMacResult sys [] = fallback-IsMacResult sys sys.entries
automatic-IsMacResult sys (c ∷ def) =
    or_fallback-IsMacResult sys (read_mac sys (c ∷ def)) (read_mac-IsMacResult sys (c ∷ def))

named_mac-IsMacResult : (r : Result MacError Bytes) → IsMacResult r → IsMacResult (named_mac r)
unfolding named_mac
named_mac-IsMacResult (err e) h = h
named_mac-IsMacResult (ok []) h = tt
named_mac-IsMacResult (ok (c ∷ mac)) h = h

preferred-IsMacResult :
    (sys : SysNet) (name : Bytes) → IsMacResult (preferred_or_automatic sys name)
unfolding preferred_or_automatic
preferred-IsMacResult sys [] = automatic-IsMacResult sys (default_route_interface sys)
preferred-IsMacResult sys (c ∷ name) =
    named_mac-IsMacResult (read_mac sys (c ∷ name)) (read_mac-IsMacResult sys (c ∷ name))

-- Whatever the host's trees hold, the identity of a node is nothing or the canonical print of an
-- address that is not all zero, in lowercase with colons.
pub primary_mac-IsMacText :
    (sys : SysNet) (preferred : Bytes) {mac : Bytes}
    → primary_mac sys preferred ≡ ok mac
    → IsMacText mac
unfolding primary_mac
primary_mac-IsMacText sys preferred h =
    subst IsMacResult h (preferred-IsMacResult sys (trim_space preferred))

named_mac-ok :
    (r : Result MacError Bytes) {mac : Bytes} → named_mac r ≡ ok mac → (r ≡ ok mac) × (mac ≢ [])
unfolding named_mac
named_mac-ok (err e) h = cc
named_mac-ok (ok []) h = cc
named_mac-ok (ok (c ∷ mac)) h = (h, λ e. cc)

preferred-named :
    (sys : SysNet) (name : Bytes) {mac : Bytes}
    → name ≢ []
    → preferred_or_automatic sys name ≡ ok mac
    → (read_mac sys name ≡ ok mac) × (mac ≢ [])
unfolding preferred_or_automatic
preferred-named sys [] ne h = absurd (ne refl)
preferred-named sys (c ∷ name) ne h = named_mac-ok (read_mac sys (c ∷ name)) h

-- An interface that is named is the one whose address is returned, and the address is not empty: if
-- it has none, the result is an error and no other interface takes its place.
pub primary_mac-named :
    (sys : SysNet) (preferred : Bytes) {mac : Bytes}
    → trim_space preferred ≢ []
    → primary_mac sys preferred ≡ ok mac
    → (read_mac sys (trim_space preferred) ≡ ok mac) × (mac ≢ [])
unfolding primary_mac
primary_mac-named sys preferred ne h = preferred-named sys (trim_space preferred) ne h
