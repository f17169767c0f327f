-- ===== src/Host/Network/Listing.antt =====
-- The identity of a node does not depend on the order in which the directory lists its ports.
use mathlib.Core.List.{Permᴰ}
use sparkwrangler.Base.{List, [], ◌∷◌, ◌≡◌, refl, sym, ap, ◌∙◌, Bytes, Result, ok, err}
use sparkwrangler.Host.Network.{
  SysNet, candidates, ethernet_interfaces, first_mac, fallback, Entries, primary_mac, automatic,
  preferred_or_automatic, or_fallback, named_mac, default_route_interface, read_mac,
  is_physical_ethernet, read_sys_attr, MacError,
}
use sparkwrangler.Host.Network.Order.{sorted, sorted-Perm}
use sparkwrangler.Text.Space.{trim_space}

-- The same machine, whose directory lists its ports in another order.
abbrev pub listing : SysNet → List Bytes → SysNet
listing sys ns = record sys { entries = Entries.listed ns }

read_mac-listing :
    (sys : SysNet) (ns : List Bytes) (n : Bytes) → read_mac (listing sys ns) n ≡ read_mac sys n
unfolding read_mac
read_mac-listing sys ns n = refl

candidates-listing :
    (sys : SysNet) (ns ms : List Bytes) → candidates (listing sys ns) ms ≡ candidates sys ms
unfolding candidates read_mac is_physical_ethernet read_sys_attr
candidates-listing sys ns [] = refl
candidates-listing sys ns (m ∷ ms) = rw (candidates-listing sys ns ms) refl

fallback-listing :
    (sys : SysNet) (ns : List Bytes) → fallback (listing sys ns) ≡ first_mac (ok (sorted sys ns))
unfolding fallback ethernet_interfaces
fallback-listing sys ns = rw (candidates-listing sys ns ns) refl

fallback-Perm :
    (sys : SysNet) {ns ms : List Bytes}
    → Permᴰ ns ms
    → fallback (listing sys ns) ≡ fallback (listing sys ms)
fallback-Perm sys {ns} {ms} p =
    fallback-listing sys ns
    ∙ ap (λ is. first_mac (ok is)) (sorted-Perm sys p)
    ∙ sym (fallback-listing sys ms)

or_fallback_eq :
    (s t : SysNet) (r : Result MacError Bytes)
    → fallback s ≡ fallback t
    → or_fallback s r ≡ or_fallback t r
unfolding or_fallback
or_fallback_eq s t (err e) h = h
or_fallback_eq s t (ok []) h = h
or_fallback_eq s t (ok (c ∷ mac)) h = refl

automatic_eq :
    (s t : SysNet) (def : Bytes)
    → ((n : Bytes) → read_mac s n ≡ read_mac t n)
    → fallback s ≡ fallback t
    → automatic s def ≡ automatic t def
unfolding automatic
automatic_eq s t [] same h = h
automatic_eq s t (c ∷ def) same h =
    ap (or_fallback s) (same (c ∷ def)) ∙ or_fallback_eq s t (read_mac t (c ∷ def)) h

preferred_eq :
    (s t : SysNet) (preferred : Bytes)
    → ((n : Bytes) → read_mac s n ≡ read_mac t n)
    → default_route_interface s ≡ default_route_interface t
    → fallback s ≡ fallback t
    → preferred_or_automatic s preferred ≡ preferred_or_automatic t preferred
unfolding preferred_or_automatic
preferred_eq s t [] same route h =
    ap (automatic s) route ∙ automatic_eq s t (default_route_interface t) same h
preferred_eq s t (c ∷ name) same route h = ap named_mac (same (c ∷ name))

-- The identity of a node, or the error in its place, is the same in whatever order the directory lists
-- the same entries, whichever interface is named and wherever the default route goes.
pub primary_mac-Perm :
    (sys : SysNet) (preferred : Bytes) {ns ms : List Bytes}
    → Permᴰ ns ms
    → primary_mac (listing sys ns) preferred ≡ primary_mac (listing sys ms) preferred
unfolding primary_mac default_route_interface
primary_mac-Perm sys preferred {ns} {ms} p =
    preferred_eq (listing sys ns) (listing sys ms) (trim_space preferred)
      (λ n. read_mac-listing sys ns n ∙ sym (read_mac-listing sys ms n)) refl (fallback-Perm sys p)
