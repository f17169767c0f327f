-- ===== src/Host/Network/Ports.antt =====
-- Which entries of the directory are candidates.
use sparkwrangler.Base.{
  true, false, List, [], ◌∷◌, ◌≡◌, ◌≢◌, ◌⊎◌, inl, inr, refl, sym, ap, ok_injective, Bytes, Result,
  ok, err, Bool-cases, All, Has,
}
use sparkwrangler.Host.Network.{
  SysNet, NetInterface, candidates, read_mac, found_mac, is_physical_ethernet, MacError,
}

pub map_right : {A B C : Type 0} → (B → C) → A ⊎ B → A ⊎ C
map_right f (inl a) = inl a
map_right f (inr b) = inr (f b)

-- A physical port with its address, which is not empty.
abbrev pub IsPort : SysNet → NetInterface → Type 0
IsPort sys i =
    (is_physical_ethernet sys i.name ≡ true) × (read_mac sys i.name ≡ ok i.mac) × (i.mac ≢ [])

found_mac-IsPort :
    (sys : SysNet) (n : Bytes) (r : Result MacError Bytes) (found : List NetInterface)
    → is_physical_ethernet sys n ≡ true
    → read_mac sys n ≡ r
    → All (IsPort sys) found
    → All (IsPort sys) (found_mac n r found)
unfolding found_mac
found_mac-IsPort sys n (err e) found p q k = k
found_mac-IsPort sys n (ok []) found p q k = k
found_mac-IsPort sys n (ok (c ∷ mac)) found p q k = ((p, q, λ e. cc), k)

pub candidates-IsPort :
    (sys : SysNet) (names : List Bytes) → All (IsPort sys) (candidates sys names)
unfolding candidates
candidates-IsPort sys [] = tt
candidates-IsPort sys (n ∷ ns) = elim (Bool-cases (is_physical_ethernet sys n)) [
  | inl port ↦ rw port (
      found_mac-IsPort sys n (read_mac sys n) (candidates sys ns) port refl
        (candidates-IsPort sys ns))
  | inr other ↦ rw other (candidates-IsPort sys ns)
]

-- An interface with an address.
abbrev pub HasAddress : Result MacError Bytes → Type 0
HasAddress r = (mac : Bytes) × (r ≡ ok mac) × (mac ≢ [])

-- An entry of the directory that is no physical port, or that has no address, be it that none can be
-- read.
abbrev pub IsNoPort : SysNet → Bytes → Type 0
IsNoPort sys n = (is_physical_ethernet sys n ≡ false) ⊎ (¬ HasAddress (read_mac sys n))

pub no_error : (e : MacError) → ¬ HasAddress (err e)
no_error e (m, h, ne) = cc

pub no_text : ¬ HasAddress (ok [])
no_text (m, h, ne) = ne (sym (ok_injective h))

-- What holds of every candidate holds of every entry that is a port with an address.
abbrev pub IsPortWith : (NetInterface → Type 0) → SysNet → Bytes → Type 0
IsPortWith Q sys n = IsNoPort sys n ⊎ ((mac : Bytes) × Q (record { name = n; mac = mac }))

found_mac-All :
    (Q : NetInterface → Type 0) (sys : SysNet) (n : Bytes) (r : Result MacError Bytes)
    (found : List NetInterface)
    → read_mac sys n ≡ r
    → All Q (found_mac n r found)
    → IsPortWith Q sys n × All Q found
unfolding found_mac
found_mac-All Q sys n (err e) found p h = (inl (inr (rw p (no_error e))), h)
found_mac-All Q sys n (ok []) found p h = (inl (inr (rw p no_text)), h)
found_mac-All Q sys n (ok (c ∷ mac)) found p h = (inr (c ∷ mac, h.0), h.1)

pub candidates-All :
    (Q : NetInterface → Type 0) (sys : SysNet) (names : List Bytes)
    → All Q (candidates sys names)
    → All (IsPortWith Q sys) names
unfolding candidates
candidates-All Q sys [] h = tt
candidates-All Q sys (n ∷ ns) h = elim (Bool-cases (is_physical_ethernet sys n)) [
  | inl port ↦
      let (here, rest) =
        found_mac-All Q sys n (read_mac sys n) (candidates sys ns) refl (rw port at h) in
      (here, candidates-All Q sys ns rest)
  | inr other ↦ (inl (inl other), candidates-All Q sys ns (rw other at h))
]

Has-found_mac :
    (a : NetInterface) (n : Bytes) (r : Result MacError Bytes) (found : List NetInterface)
    → Has a (found_mac n r found)
    → (n ≡ a.name) ⊎ Has a found
unfolding found_mac
Has-found_mac a n (err e) found h = inr h
Has-found_mac a n (ok []) found h = inr h
Has-found_mac a n (ok (c ∷ mac)) found (inl e) = inl (ap (λ i. i.name) e)
Has-found_mac a n (ok (c ∷ mac)) found (inr h) = inr h

pub Has-candidates :
    (a : NetInterface) (sys : SysNet) (names : List Bytes)
    → Has a (candidates sys names)
    → Has a.name names
unfolding candidates
Has-candidates a sys [] h = h
Has-candidates a sys (n ∷ ns) h = elim (Bool-cases (is_physical_ethernet sys n)) [
  | inl port ↦
      map_right (Has-candidates a sys ns)
        (Has-found_mac a n (read_mac sys n) (candidates sys ns) (rw port at h))
  | inr other ↦ inr (Has-candidates a sys ns (rw other at h))
]
