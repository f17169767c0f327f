-- ===== src/Host/Network/Order.antt =====
-- Sorting the ports by name forgets the order in which the directory lists them.
use mathlib.Core.List.{Permᴰ}
use sparkwrangler.Base.{
  ℕ, true, false, Option, none, some, List, [], ◌∷◌, ◌≡◌, refl, sym, ap, ◌∙◌, arith, Bytes, Result,
  ok, err, some_injective, Bool-cases, inl, inr, if◌then◌else◌,
}
use sparkwrangler.Host.Network.Fallback.{before_asym, before_trans}
use sparkwrangler.Host.Network.{
  SysNet, NetInterface, before, insert_sorted, sort_by_name, candidates, read_mac, found_mac,
  is_physical_ethernet, MacError,
}

cons_eq : {x y : ℕ} {s t : Bytes} → x ≡ y → s ≡ t → x ∷ s ≡ y ∷ t
cons_eq e h = cc

before_total : (s t : Bytes) → before s t ≡ false → before t s ≡ false → s ≡ t
unfolding before
before_total [] [] h k = refl
before_total [] (y ∷ t) h k = cc
before_total (x ∷ s) [] h k = cc
before_total (x ∷ s) (y ∷ t) h k =
    let e : x ≡ y = ground arith in cons_eq e (before_total s t (ground arith) (ground arith))

before_chain : (i j k : Bytes) → before k i ≡ false → before k j ≡ true → before i j ≡ true
before_chain i j k h l = elim (Bool-cases (before i j)) [
  | inl earlier ↦ earlier
  | inr tied ↦ cc (before_trans j i k tied h)
]

-- Two ports of one name are one port.
abbrev IsNamed : NetInterface → NetInterface → Type 0
IsNamed i j = i.name ≡ j.name → i ≡ j

two_orders :
    (i j : NetInterface) (is : List NetInterface)
    → IsNamed i j
    → (if before j.name i.name then j ∷ i ∷ is else i ∷ j ∷ is)
      ≡ (if before i.name j.name then i ∷ j ∷ is else j ∷ i ∷ is)
two_orders i j is same = elim (Bool-cases (before j.name i.name)) [
  | inl later ↦ rw (later, before_asym j.name i.name later) refl
  | inr first ↦ elim (Bool-cases (before i.name j.name)) [
    | inl earlier ↦ rw (first, earlier) refl
    | inr tied ↦ rw (first, tied) (rw (same (before_total i.name j.name tied first)) refl)
  ]
]

insert_later :
    (i k : NetInterface) (ks : List NetInterface)
    → before k.name i.name ≡ true
    → insert_sorted i (k ∷ ks) ≡ k ∷ insert_sorted i ks
unfolding insert_sorted
insert_later i k ks h = rw h refl

insert_first :
    (i k : NetInterface) (ks : List NetInterface)
    → before k.name i.name ≡ false
    → insert_sorted i (k ∷ ks) ≡ i ∷ k ∷ ks
unfolding insert_sorted
insert_first i k ks h = rw h refl

two_firsts :
    (i j k : NetInterface) (ks : List NetInterface)
    → before k.name i.name ≡ false
    → before k.name j.name ≡ false
    → IsNamed i j
    → insert_sorted i (j ∷ k ∷ ks) ≡ insert_sorted j (i ∷ k ∷ ks)
unfolding insert_sorted
two_firsts i j k ks ik jk same = rw (ik, jk) (two_orders i j (k ∷ ks) same)

-- The order in which two ports are inserted does not matter.
insert_sorted_comm :
    (i j : NetInterface) (is : List NetInterface)
    → IsNamed i j
    → insert_sorted i (insert_sorted j is) ≡ insert_sorted j (insert_sorted i is)
insert_sorted_comm i j [] same = unfold insert_sorted in two_orders i j [] same
insert_sorted_comm i j (k ∷ ks) same =
    let ih = insert_sorted_comm i j ks same in
    elim (Bool-cases (before k.name i.name)) [
      | inl ki ↦ elim (Bool-cases (before k.name j.name)) [
        | inl kj ↦ cc (
          ih,
          insert_later i k ks ki,
          insert_later j k ks kj,
          insert_later i k (insert_sorted j ks) ki,
          insert_later j k (insert_sorted i ks) kj,
        )
        | inr jk ↦ cc (
          insert_later i k ks ki,
          insert_first j k ks jk,
          insert_later i j (k ∷ ks) (before_chain j.name i.name k.name jk ki),
          insert_first j k (insert_sorted i ks) jk,
        )
      ]
      | inr ik ↦ elim (Bool-cases (before k.name j.name)) [
        | inl kj ↦ cc (
          insert_first i k ks ik,
          insert_later j k ks kj,
          insert_later j i (k ∷ ks) (before_chain i.name j.name k.name ik kj),
          insert_first i k (insert_sorted j ks) ik,
        )
        | inr jk ↦
            cc (insert_first i k ks ik, insert_first j k ks jk, two_firsts i j k ks ik jk same)
      ]
    ]

-- The port that a name stands for, if that has an address.
port_of : Bytes → Result MacError Bytes → Option NetInterface
port_of n (err e) = none
port_of n (ok []) = none
port_of n (ok (c ∷ mac)) = some (record { name = n; mac = c ∷ mac })

port : SysNet → Bytes → Option NetInterface
port sys n = if is_physical_ethernet sys n then port_of n (read_mac sys n) else none

port_of_name :
    (n : Bytes) (r : Result MacError Bytes) {i : NetInterface} → port_of n r ≡ some i → i.name ≡ n
unfolding port_of
port_of_name n (err e) h = cc
port_of_name n (ok []) h = cc
port_of_name n (ok (c ∷ mac)) h = ap (λ (i : NetInterface). i.name) (sym (some_injective h))

port_name : (sys : SysNet) (n : Bytes) {i : NetInterface} → port sys n ≡ some i → i.name ≡ n
unfolding port
port_name sys n h = elim (Bool-cases (is_physical_ethernet sys n)) [
  | inl physical ↦ port_of_name n (read_mac sys n) (rw physical at h)
  | inr other ↦ cc (rw other at h)
]

port-IsNamed :
    (sys : SysNet) (n m : Bytes) (i j : NetInterface)
    → port sys n ≡ some i
    → port sys m ≡ some j
    → IsNamed i j
port-IsNamed sys n m i j h k e =
    let same : n ≡ m = sym (port_name sys n h) ∙ e ∙ port_name sys m k in
    some_injective (sym h ∙ ap (port sys) same ∙ k)

add : Option NetInterface → List NetInterface → List NetInterface
add none is = is
add (some i) is = i ∷ is

place : Option NetInterface → List NetInterface → List NetInterface
place none is = is
place (some i) is = insert_sorted i is

place_comm :
    (o p : Option NetInterface) (is : List NetInterface)
    → ((i j : NetInterface) → o ≡ some i → p ≡ some j → IsNamed i j)
    → place o (place p is) ≡ place p (place o is)
unfolding place
place_comm none p is same = refl
place_comm (some i) none is same = refl
place_comm (some i) (some j) is same = insert_sorted_comm i j is (same i j refl refl)

found_mac-add :
    (n : Bytes) (r : Result MacError Bytes) (is : List NetInterface)
    → found_mac n r is ≡ add (port_of n r) is
unfolding found_mac add port_of
found_mac-add n (err e) is = refl
found_mac-add n (ok []) is = refl
found_mac-add n (ok (c ∷ mac)) is = refl

candidates-add :
    (sys : SysNet) (n : Bytes) (ns : List Bytes)
    → candidates sys (n ∷ ns) ≡ add (port sys n) (candidates sys ns)
unfolding candidates port
candidates-add sys n ns = elim (Bool-cases (is_physical_ethernet sys n)) [
  | inl physical ↦ rw physical (found_mac-add n (read_mac sys n) (candidates sys ns))
  | inr other ↦ rw other (unfold add in refl)
]

sort_by_name-add :
    (o : Option NetInterface) (is : List NetInterface)
    → sort_by_name (add o is) ≡ place o (sort_by_name is)
unfolding sort_by_name add place
sort_by_name-add none is = refl
sort_by_name-add (some i) is = refl

abbrev pub sorted : SysNet → List Bytes → List NetInterface
sorted sys ns = sort_by_name (candidates sys ns)

sorted-cons :
    (sys : SysNet) (n : Bytes) (ns : List Bytes)
    → sorted sys (n ∷ ns) ≡ place (port sys n) (sorted sys ns)
sorted-cons sys n ns =
    ap sort_by_name (candidates-add sys n ns) ∙ sort_by_name-add (port sys n) (candidates sys ns)

sorted-swap :
    (sys : SysNet) (n m : Bytes) (ns : List Bytes)
    → sorted sys (n ∷ m ∷ ns) ≡ sorted sys (m ∷ n ∷ ns)
sorted-swap sys n m ns = cc (
  sorted-cons sys n (m ∷ ns),
  sorted-cons sys m ns,
  sorted-cons sys m (n ∷ ns),
  sorted-cons sys n ns,
  place_comm (port sys n) (port sys m) (sorted sys ns) (port-IsNamed sys n m),
)

pub sorted-Perm : (sys : SysNet) {ns ms : List Bytes} → Permᴰ ns ms → sorted sys ns ≡ sorted sys ms
sorted-Perm sys Permᴰ.nil = refl
sorted-Perm sys (Permᴰ.cons {a = n} {b = m} {l₁ = ns} {l₂ = ms} e p) =
    sorted-cons sys n ns ∙ cc (e, sorted-Perm sys p) ∙ sym (sorted-cons sys m ms)
sorted-Perm sys (Permᴰ.swap {a = n} {b = m} {a' = a} {b' = b} {l = ns} e f) =
    sorted-swap sys n m ns ∙ cc (e, f)
sorted-Perm sys (Permᴰ.trans p q) = sorted-Perm sys p ∙ sorted-Perm sys q
