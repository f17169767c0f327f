-- ===== src/Host/Network/Choice.antt =====
-- Which route and which port are chosen.
use sparkwrangler.Base.Int.{ℤ, ltb_ℤ}
use sparkwrangler.Base.{
  Bool, true, false, Option, none, some, List, [], ◌∷◌, ◌++◌, ◌≡◌, inl, inr, refl, ◌∙◌, ap, sym,
  arith, if◌then◌else◌, Bytes, Bool-cases, All, subst,
}
use sparkwrangler.Host.Network.{
  SysNet, Route, no_route, field, is_default, better, route_step, best_route,
  default_route_interface, default_route,
}
use sparkwrangler.Text.Decimal.{parse_int64}
use sparkwrangler.Text.Lines.{Input, scan_lines, max_scan_token_size}
use sparkwrangler.Text.Space.{fields}

-- The default routes of a table: the lines with a zero destination and mask and a metric that is a
-- number.
add_route : Bytes → Option ℤ → List Route → List Route
add_route name none rs = rs
add_route name (some metric) rs = record { iface = name; metric = metric } ∷ rs

unfoldable pub default_routes : List Bytes → List Route
unfolding add_route is_default
default_routes [] = []
default_routes (l ∷ ls) =
    let fs = fields l in
    let rest = default_routes ls in
    if is_default fs then add_route (field fs 0) (parse_int64 (field fs 6)) rest else rest

abbrev lighter : Route → Route → Bool
lighter r q = ltb_ℤ r.metric q.metric

-- The loop over those routes alone.
lightest : Route → List Route → Route
lightest best [] = best
lightest best (r ∷ rs) = lightest (if lighter r best then r else best) rs

lightest-add_route :
    (best : Route) (name : Bytes) (o : Option ℤ) (rs : List Route)
    → lightest (better best name o) rs ≡ lightest best (add_route name o rs)
unfolding lightest better add_route
lightest-add_route best name none rs = refl
lightest-add_route best name (some metric) rs = refl

best_route-lightest :
    (best : Route) (ls : List Bytes) → best_route best ls ≡ lightest best (default_routes ls)
unfolding best_route default_routes route_step
best_route-lightest best [] = unfold lightest in refl
best_route-lightest best (l ∷ ls) = elim (Bool-cases (is_default (fields l))) [
  | inl good ↦ rw good (
      best_route-lightest (better best (field (fields l) 0) (parse_int64 (field (fields l) 6))) ls
      ∙ lightest-add_route best _ (parse_int64 (field (fields l) 6)) (default_routes ls))
  | inr bad ↦ rw bad (best_route-lightest best ls)
]

-- `r` is the first of the lightest routes: lighter than those before it, not heavier than those after.
pub record IsLightest (r : Route) (rs : List Route) : Type 0 where
  pub earlier : List Route
  pub later : List Route
  pub splits : rs ≡ earlier ++ r ∷ later
  pub lighter_than : All (λ q. lighter r q ≡ true) earlier
  pub not_heavier : All (λ q. lighter q r ≡ false) later

lighter_trans : (a b c : Route) → lighter a b ≡ true → lighter c b ≡ false → lighter a c ≡ true
lighter_trans a b c h k = ground arith

lighter-weaken : (a b c : Route) → lighter a b ≡ true → lighter b c ≡ true → lighter a c ≡ true
lighter-weaken a b c h k = ground arith

cons_head : {a b : Route} {qs rs : List Route} → a ∷ qs ≡ b ∷ rs → a ≡ b
cons_head h = cc

keep_best :
    (w best r : Route) (rs earlier later : List Route)
    → lighter r best ≡ false
    → best ∷ rs ≡ earlier ++ w ∷ later
    → All (λ q. lighter w q ≡ true) earlier
    → All (λ q. lighter q w ≡ false) later
    → IsLightest w (best ∷ r ∷ rs)
keep_best w best r rs [] later k h e l = record {
  earlier = [];
  later = r ∷ later;
  splits = cc;
  lighter_than = tt;
  not_heavier = (subst (λ q. lighter r q ≡ false) (cons_head h) k, l);
}
keep_best w best r rs (x ∷ earlier) later k h e l = record {
  earlier = best ∷ r ∷ earlier;
  later = later;
  splits = cc;
  lighter_than =
      let first : lighter w best ≡ true = subst (λ q. lighter w q ≡ true) (sym (cons_head h)) e.0 in
      (first, (lighter_trans w best r first k, e.1));
  not_heavier = l;
}

take_next :
    (w best r : Route) (rs earlier later : List Route)
    → lighter r best ≡ true
    → r ∷ rs ≡ earlier ++ w ∷ later
    → All (λ q. lighter w q ≡ true) earlier
    → All (λ q. lighter q w ≡ false) later
    → IsLightest w (best ∷ r ∷ rs)
take_next w best r rs [] later k h e l = record {
  earlier = best ∷ [];
  later = later;
  splits = cc;
  lighter_than = (subst (λ q. lighter q best ≡ true) (cons_head h) k, tt);
  not_heavier = l;
}
take_next w best r rs (x ∷ earlier) later k h e l = record {
  earlier = best ∷ x ∷ earlier;
  later = later;
  splits = cc;
  lighter_than =
      let first : lighter w r ≡ true = subst (λ q. lighter w q ≡ true) (sym (cons_head h)) e.0 in
      (lighter-weaken w r best first k, (e.0, e.1));
  not_heavier = l;
}

lightest-IsLightest : (best : Route) (rs : List Route) → IsLightest (lightest best rs) (best ∷ rs)
unfolding lightest
lightest-IsLightest best [] = record {
  earlier = [];
  later = [];
  splits = refl;
  lighter_than = tt;
  not_heavier = tt;
}
lightest-IsLightest best (r ∷ rs) = elim (Bool-cases (lighter r best)) [
  | inl better ↦
      let ih = lightest-IsLightest r rs in
      rw better (
        take_next (lightest r rs) best r rs ih.earlier ih.later better ih.splits ih.lighter_than
          ih.not_heavier)
  | inr worse ↦
      let ih = lightest-IsLightest best rs in
      rw worse (
        keep_best (lightest best rs) best r rs ih.earlier ih.later worse ih.splits ih.lighter_than
          ih.not_heavier)
]

-- The route that is followed is the first of the lightest default routes of the table, or none if
-- the table has no default route whose metric is below the largest integer.
pub default_route_interface-IsLightest :
    (sys : SysNet) (r : Input)
    → sys.route ≡ some r
    → (w : Route) × (default_route_interface sys ≡ w.iface)
      × IsLightest w (no_route ∷ default_routes (scan_lines max_scan_token_size r).tokens)
unfolding default_route_interface default_route
default_route_interface-IsLightest sys r h =
    let ls = (scan_lines max_scan_token_size r).tokens in
    (
      lightest no_route (default_routes ls),
      rw h (ap (λ (q : Route). q.iface) (best_route-lightest no_route ls)),
      lightest-IsLightest no_route (default_routes ls),
    )
