-- ===== src/Host/Network/Source.antt =====
-- Where the identity of a node comes from.
use sparkwrangler.Base.{
  All, All-map, subst, ok_injective, List, [], ◌∷◌, ◌≡◌, ◌≢◌, ◌⊎◌, inl, inr, refl, sym, ap, ◌∙◌,
  Bytes, Result, ok, err,
}
use sparkwrangler.Host.Network.Fallback.{IsLowest, sorted_first, All-sort_by_name, sort_by_name-All}
use sparkwrangler.Host.Network.Ports.{
  IsPort, IsNoPort, HasAddress, no_error, no_text, candidates-IsPort, candidates-All,
}
use sparkwrangler.Host.Network.{
  SysNet, NetInterface, candidates, sort_by_name, ethernet_interfaces, first_mac, fallback, Entries,
  primary_mac, automatic, preferred_or_automatic, or_fallback, named_mac, default_route_interface,
  read_mac, MacError,
}
use sparkwrangler.Text.Space.{trim_space}

abbrev NoRoute : SysNet → Type 0
NoRoute sys =
    (default_route_interface sys ≡ []) ⊎ (¬ HasAddress (read_mac sys (default_route_interface sys)))

-- No entry of the directory is a physical port with an address, or there is no directory.
abbrev NoPort : SysNet → Type 0
NoPort sys =
    (sys.entries ≡ Entries.missing)
    ⊎ ((names : List Bytes) × (sys.entries ≡ Entries.listed names) × All (IsNoPort sys) names)

-- The three sources of an address: the interface that is named; the one that carries the default route,
-- of whatever kind it is; and, if no route leads to an address, the physical port with the lowest name.
-- Without any of them there is no address.
pub data IsFrom (sys : SysNet) (preferred mac : Bytes) : Type 0 where
  by_name :
      trim_space preferred ≢ []
      → read_mac sys (trim_space preferred) ≡ ok mac
      → mac ≢ []
      → IsFrom sys preferred mac
  by_route :
      trim_space preferred ≡ []
      → default_route_interface sys ≢ []
      → read_mac sys (default_route_interface sys) ≡ ok mac
      → mac ≢ []
      → IsFrom sys preferred mac
  by_port :
      trim_space preferred ≡ []
      → NoRoute sys
      → (names : List Bytes) → sys.entries ≡ Entries.listed names
      → IsLowest sys names mac
      → mac ≢ []
      → IsFrom sys preferred mac
  nowhere :
      trim_space preferred ≡ [] → NoRoute sys → NoPort sys → mac ≡ [] → IsFrom sys preferred mac

named_mac_ok :
    (r : Result MacError Bytes) {mac : Bytes} → named_mac r ≡ ok mac → (r ≡ ok mac) × (mac ≢ [])
unfolding named_mac
named_mac_ok (err e) h = cc
named_mac_ok (ok []) h = cc
named_mac_ok (ok (c ∷ m)) h = (h, λ e. cc)

-- With no candidate, no entry is a port with an address.
none_left : (sys : SysNet) (n : Bytes) → IsNoPort sys n ⊎ (Bytes × ⊥) → IsNoPort sys n
none_left sys n (inl h) = h
none_left sys n (inr (mac, h)) = absurd h

module _ (sys : SysNet) (preferred : Bytes) (blank : trim_space preferred ≡ [])
    (routed : NoRoute sys) where
  sorted-IsFrom :
      (names : List Bytes) (is : List NetInterface) {mac : Bytes}
      → sys.entries ≡ Entries.listed names
      → sort_by_name (candidates sys names) ≡ is
      → first_mac (ok is) ≡ ok mac
      → IsFrom sys preferred mac
  unfolding first_mac
  sorted-IsFrom names [] p e h =
      nowhere blank routed
        (inr (
          names,
          p,
          All-map (none_left sys) names (
              candidates-All (λ i. ⊥) sys names
                (All-sort_by_name (λ i. ⊥) (candidates sys names)
                  (subst (All (λ i. ⊥)) (sym e) tt))),
        ))
        (sym (ok_injective h))
  sorted-IsFrom names (i ∷ is) p e h =
      let ports =
        subst (All (IsPort sys)) e
          (sort_by_name-All (IsPort sys) _ (candidates-IsPort sys names)) in
      let full = subst (λ m. m ≢ []) (ok_injective h) ports.0.2 in
      by_port blank routed names p (sorted_first sys names (i ∷ is) e h full) full

  ethernet_interfaces-IsFrom :
      (e : Entries) {mac : Bytes}
      → sys.entries ≡ e
      → first_mac (ethernet_interfaces sys e) ≡ ok mac
      → IsFrom sys preferred mac
  unfolding ethernet_interfaces
  ethernet_interfaces-IsFrom Entries.missing p h =
      nowhere blank routed (inl p) (unfold first_mac in sym (ok_injective h))
  ethernet_interfaces-IsFrom Entries.refused p h = unfold first_mac in cc
  ethernet_interfaces-IsFrom (Entries.listed names) p h =
      sorted-IsFrom names (sort_by_name (candidates sys names)) p refl h

  fallback-IsFrom : {mac : Bytes} → fallback sys ≡ ok mac → IsFrom sys preferred mac
  unfolding fallback
  fallback-IsFrom h = ethernet_interfaces-IsFrom sys.entries refl h

module _ (sys : SysNet) (preferred : Bytes) (blank : trim_space preferred ≡ []) where
  or_fallback-IsFrom :
      (r : Result MacError Bytes) {mac : Bytes}
      → default_route_interface sys ≢ []
      → read_mac sys (default_route_interface sys) ≡ r
      → or_fallback sys r ≡ ok mac
      → IsFrom sys preferred mac
  unfolding or_fallback
  or_fallback-IsFrom (err e) set p h =
      fallback-IsFrom sys preferred blank (inr (rw p (no_error e))) h
  or_fallback-IsFrom (ok []) set p h = fallback-IsFrom sys preferred blank (inr (rw p no_text)) h
  or_fallback-IsFrom (ok (c ∷ m)) set p h = by_route blank set (p ∙ h) (λ e. cc)

  automatic-IsFrom :
      (def : Bytes) {mac : Bytes}
      → default_route_interface sys ≡ def
      → automatic sys def ≡ ok mac
      → IsFrom sys preferred mac
  unfolding automatic
  automatic-IsFrom [] p h = fallback-IsFrom sys preferred blank (inl p) h
  automatic-IsFrom (c ∷ def) p h =
      or_fallback-IsFrom (read_mac sys (c ∷ def)) (λ e. cc (sym p ∙ e)) (ap (read_mac sys) p) h

preferred-IsFrom :
    (sys : SysNet) (preferred name : Bytes) {mac : Bytes}
    → trim_space preferred ≡ name
    → preferred_or_automatic sys name ≡ ok mac
    → IsFrom sys preferred mac
unfolding preferred_or_automatic
preferred-IsFrom sys preferred [] p h =
    automatic-IsFrom sys preferred p (default_route_interface sys) refl h
preferred-IsFrom sys preferred (c ∷ name) p h =
    let (read, full) = named_mac_ok (read_mac sys (c ∷ name)) h in
    by_name (λ e. cc (sym p ∙ e)) (ap (read_mac sys) p ∙ read) full

-- An address that is returned is that of the interface that is named, if one is; else that of the
-- interface that carries the default route, if it has one, though it be virtual; and else that of the
-- physical port whose name is the lowest of all the entries that are physical ports with an address,
-- whatever entries cannot be read. An empty one is returned only if no interface is named, no default
-- route leads to an address, and there is no directory or no entry of it is a physical port with an
-- address.
pub primary_mac-IsFrom :
    (sys : SysNet) (preferred : Bytes) {mac : Bytes}
    → primary_mac sys preferred ≡ ok mac
    → IsFrom sys preferred mac
unfolding primary_mac
primary_mac-IsFrom sys preferred h = preferred-IsFrom sys preferred (trim_space preferred) refl h
