-- ===== src/Host/Network/Fallback.antt =====
-- Which port is chosen when no route names one.
use sparkwrangler.Host.Network.Ports.{
  map_right, IsPort, IsNoPort, candidates-IsPort, candidates-All, Has-candidates,
}
use sparkwrangler.Base.{
  true, false, List, [], ◌∷◌, ◌≡◌, ◌≢◌, ◌⊎◌, inl, inr, refl, sym, ◌∙◌, arith, Bytes, ok, Bool-cases,
  All, All-map, Has, subst,
}
use sparkwrangler.Host.Network.{
  SysNet, NetInterface, before, insert_sorted, sort_by_name, candidates, ethernet_interfaces,
  first_mac, fallback, Entries, primary_mac, automatic, preferred_or_automatic,
  default_route_interface, read_mac, is_physical_ethernet,
}
use sparkwrangler.Text.Space.{trim_space}

-- The fallback among the ports: no candidate's name comes before that of the one chosen.
abbrev pub IsFirst : NetInterface → List NetInterface → Type 0
IsFirst i is = All (λ j. before j.name i.name ≡ false) is

before_irrefl : (s : Bytes) → before s s ≡ false
unfolding before
before_irrefl [] = refl
before_irrefl (x ∷ s) = ground (arith, before_irrefl s)

pub before_asym : (s t : Bytes) → before s t ≡ true → before t s ≡ false
unfolding before
before_asym [] [] h = cc
before_asym [] (y ∷ t) h = refl
before_asym (x ∷ s) [] h = cc
before_asym (x ∷ s) (y ∷ t) h = ground (arith, before_asym s t)

pub before_trans : (r s t : Bytes) → before s r ≡ false → before t s ≡ false → before t r ≡ false
unfolding before
before_trans [] s t h k = refl
before_trans (x ∷ r) [] t h k = cc
before_trans (x ∷ r) (y ∷ s) [] h k = cc
before_trans (x ∷ r) (y ∷ s) (z ∷ t) h k = ground (arith, before_trans r s t)

abbrev IsSorted : List NetInterface → Type 0
IsSorted [] = Unit
IsSorted (i ∷ is) = IsFirst i is × IsSorted is

insert_sorted-All :
    (P : NetInterface → Type 0) (i : NetInterface) (is : List NetInterface)
    → P i
    → All P is
    → All P (insert_sorted i is)
unfolding insert_sorted
insert_sorted-All P i [] h k = (h, tt)
insert_sorted-All P i (j ∷ js) h k = elim (Bool-cases (before j.name i.name)) [
  | inl later ↦ rw later (k.0, insert_sorted-All P i js h k.1)
  | inr first ↦ rw first (h, k)
]

insert_sorted-IsSorted :
    (i : NetInterface) (is : List NetInterface) → IsSorted is → IsSorted (insert_sorted i is)
unfolding insert_sorted
insert_sorted-IsSorted i [] h = (tt, tt)
insert_sorted-IsSorted i (j ∷ js) h = elim (Bool-cases (before j.name i.name)) [
  | inl later ↦ rw later (
    insert_sorted-All (λ k. before k.name j.name ≡ false) i js (before_asym j.name i.name later)
        h.0,
    insert_sorted-IsSorted i js h.1,
  )
  | inr first ↦
      rw first ((first, All-map (λ k e. before_trans i.name j.name k.name first e) js h.0), h)
]

sort_by_name-IsSorted : (is : List NetInterface) → IsSorted (sort_by_name is)
unfolding sort_by_name
sort_by_name-IsSorted [] = tt
sort_by_name-IsSorted (i ∷ is) =
    insert_sorted-IsSorted i (sort_by_name is) (sort_by_name-IsSorted is)

pub sort_by_name-All :
    (P : NetInterface → Type 0) (is : List NetInterface) → All P is → All P (sort_by_name is)
unfolding sort_by_name
sort_by_name-All P [] h = tt
sort_by_name-All P (i ∷ is) h =
    insert_sorted-All P i (sort_by_name is) h.0 (sort_by_name-All P is h.1)

All-insert_sorted :
    (P : NetInterface → Type 0) (i : NetInterface) (is : List NetInterface)
    → All P (insert_sorted i is)
    → P i × All P is
unfolding insert_sorted
All-insert_sorted P i [] h = h
All-insert_sorted P i (j ∷ js) h = elim (Bool-cases (before j.name i.name)) [
  | inl later ↦
      let k = rw later at h in let rest = All-insert_sorted P i js k.1 in (rest.0, (k.0, rest.1))
  | inr first ↦ rw first at h
]

pub All-sort_by_name :
    (P : NetInterface → Type 0) (is : List NetInterface) → All P (sort_by_name is) → All P is
unfolding sort_by_name
All-sort_by_name P [] h = tt
All-sort_by_name P (i ∷ is) h =
    let k = All-insert_sorted P i (sort_by_name is) h in (k.0, All-sort_by_name P is k.1)

swap_has : {a i j : NetInterface} {B : Type 0} → (j ≡ a) ⊎ ((i ≡ a) ⊎ B) → (i ≡ a) ⊎ ((j ≡ a) ⊎ B)
swap_has (inl e) = inr (inl e)
swap_has (inr (inl e)) = inl e
swap_has (inr (inr b)) = inr (inr b)

Has-insert_sorted :
    (a i : NetInterface) (is : List NetInterface) → Has a (insert_sorted i is) → Has a (i ∷ is)
unfolding insert_sorted
Has-insert_sorted a i [] h = h
Has-insert_sorted a i (j ∷ js) h = elim (Bool-cases (before j.name i.name)) [
  | inl later ↦ swap_has (map_right (Has-insert_sorted a i js) (rw later at h))
  | inr first ↦ rw first at h
]

Has-sort_by_name : (a : NetInterface) (is : List NetInterface) → Has a (sort_by_name is) → Has a is
unfolding sort_by_name
Has-sort_by_name a [] h = h
Has-sort_by_name a (i ∷ is) h =
    map_right (Has-sort_by_name a is) (Has-insert_sorted a i (sort_by_name is) h)

-- An entry that is no port with an address, or whose name does not come before another.
abbrev pub IsBehind : SysNet → Bytes → Bytes → Type 0
IsBehind sys name n = IsNoPort sys n ⊎ (before n name ≡ false)

-- An entry of the directory that is a physical port with the address, and the first by name of the
-- entries that are physical ports with an address.
pub record IsLowest (sys : SysNet) (names : List Bytes) (mac : Bytes) : Type 0 where
  pub chosen : Bytes
  pub listed : Has chosen names
  pub port : is_physical_ethernet sys chosen ≡ true
  pub reads : read_mac sys chosen ≡ ok mac
  pub lowest : All (IsBehind sys chosen) names

pub sorted_first :
    (sys : SysNet) (names : List Bytes) (is : List NetInterface) {mac : Bytes}
    → sort_by_name (candidates sys names) ≡ is
    → first_mac (ok is) ≡ ok mac
    → mac ≢ []
    → IsLowest sys names mac
unfolding first_mac
sorted_first sys names [] e h ne = absurd (ne (cc))
sorted_first sys names (i ∷ is) e h ne =
    let cs = candidates sys names in
    let sorted : IsSorted (i ∷ is) = subst IsSorted e (sort_by_name-IsSorted cs) in
    let ports =
      subst (All (IsPort sys)) e (sort_by_name-All (IsPort sys) cs (candidates-IsPort sys names)) in
    let first =
      All-sort_by_name (λ j. before j.name i.name ≡ false) cs
        (subst (IsFirst i) (sym e) (before_irrefl i.name, sorted.0)) in
    record {
      chosen = i.name;
      listed =
          Has-candidates i sys names (Has-sort_by_name i cs (subst (Has i) (sym e) (inl refl)));
      port = ports.0.0;
      reads = ports.0.1 ∙ h;
      lowest =
          All-map (λ n. map_right (λ q. q.1)) names
            (candidates-All (λ j. before j.name i.name ≡ false) sys names first);
    }

fallback-IsLowest :
    (sys : SysNet) (names : List Bytes) (e : Entries) {mac : Bytes}
    → e ≡ Entries.listed names
    → first_mac (ethernet_interfaces sys e) ≡ ok mac
    → mac ≢ []
    → IsLowest sys names mac
unfolding ethernet_interfaces
fallback-IsLowest sys names Entries.missing p h ne = cc
fallback-IsLowest sys names Entries.refused p h ne = cc
fallback-IsLowest sys names (Entries.listed ns) p h ne =
    sorted_first sys names (sort_by_name (candidates sys ns)) (ground arith) h ne

-- With no interface named and no default route, an address that is found among the listed entries is
-- that of the physical port with the lowest name among those that have one, in whatever order the
-- directory lists them.
pub primary_mac-IsLowest :
    (sys : SysNet) (preferred : Bytes) (names : List Bytes) {mac : Bytes}
    → trim_space preferred ≡ []
    → default_route_interface sys ≡ []
    → sys.entries ≡ Entries.listed names
    → primary_mac sys preferred ≡ ok mac
    → mac ≢ []
    → IsLowest sys names mac
unfolding primary_mac preferred_or_automatic automatic fallback
primary_mac-IsLowest sys preferred names blank no_route e h ne =
    fallback-IsLowest sys names sys.entries e (rw (blank, no_route) at h) ne
