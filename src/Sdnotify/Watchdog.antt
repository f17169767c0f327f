-- ===== src/Sdnotify/Watchdog.antt =====
-- The interval of the watchdog.
use sparkwrangler.Base.Int.{ℤ, pos, mul_pos_pos, wrap64_id, quot}
use sparkwrangler.Base.{
  ℕ, ◌*◌, ◌^◌, ◌<◌, true, false, some, [], ◌∷◌, ◌≡◌, ◌≢◌, ◌⊎◌, inl, inr, refl, ◌∙◌, arith, Bytes,
  codes,
}
use sparkwrangler.Sdnotify.{Env, getenv, pid_matches, half_of, interval_of, watchdog_interval}
use sparkwrangler.Text.Decimal.{format_nat, format_nat_cons, parse_int64-format_nat}

half_of-pos : (m : ℕ) → 0 < m → m * 1000 < 2 ^ 63 → half_of (some (pos m)) ≡ pos (m * 500)
unfolding half_of quot
half_of-pos m h k = rw (mul_pos_pos m 1000, wrap64_id (pos (m * 1000)) (omega arith)) (ground arith)

interval_of-format :
    (pid : ℤ) (m : ℕ) (owner : Bytes)
    → m < 2 ^ 63
    → pid_matches pid owner ≡ true
    → interval_of pid (format_nat m) owner ≡ half_of (some (pos m))
unfolding interval_of
interval_of-format pid m owner h k =
    let (c, s, e) = format_nat_cons m in rw e (rw (k, rw e at (parse_int64-format_nat m h)))

-- A pid matches its own print and an unset variable.
pid_matches-own :
    (pid : ℕ) (owner : Bytes)
    → pid < 2 ^ 63
    → (owner ≡ []) ⊎ (owner ≡ format_nat pid)
    → pid_matches (pos pid) owner ≡ true
unfolding pid_matches
pid_matches-own pid owner h (inl e) = rw e
pid_matches-own pid owner h (inr e) =
    let (c, s, e') = format_nat_cons pid in
    rw (e, e') (rw (rw e' at (parse_int64-format_nat pid h)) (ground arith))

-- For a deadline of some microseconds whose nanoseconds fit an `int64`, in the process that it is
-- meant for or with no process named, the interval is exactly half of the deadline.
pub watchdog_interval-half :
    (env : Env) (pid m : ℕ)
    → 0 < m
    → m * 1000 < 2 ^ 63
    → pid < 2 ^ 63
    → getenv env (codes "WATCHDOG_USEC") ≡ format_nat m
    → (getenv env (codes "WATCHDOG_PID") ≡ [])
      ⊎ (getenv env (codes "WATCHDOG_PID") ≡ format_nat pid)
    → watchdog_interval env (pos pid) ≡ pos (m * 500)
unfolding watchdog_interval
watchdog_interval-half env pid m h k hp usec owner = rw usec (
    interval_of-format (pos pid) m _ (omega arith) (pid_matches-own pid _ hp owner)
    ∙ half_of-pos m h k)

interval_of-other :
    (pid : ℤ) (usec owner : Bytes)
    → pid_matches pid owner ≡ false
    → interval_of pid usec owner ≡ pos 0
unfolding interval_of
interval_of-other pid [] owner h = refl
interval_of-other pid (c ∷ usec) owner h = rw h

pid_matches-other :
    (pid other : ℕ)
    → other < 2 ^ 63
    → pid ≢ other
    → pid_matches (pos pid) (format_nat other) ≡ false
unfolding pid_matches
pid_matches-other pid other h ne =
    let (c, s, e') = format_nat_cons other in
    rw e' (rw (rw e' at (parse_int64-format_nat other h)) (ground arith))

-- In a process that inherited another's variables the watchdog is off.
pub watchdog_interval-inherited :
    (env : Env) (pid other : ℕ)
    → other < 2 ^ 63
    → pid ≢ other
    → getenv env (codes "WATCHDOG_PID") ≡ format_nat other
    → watchdog_interval env (pos pid) ≡ pos 0
unfolding watchdog_interval
watchdog_interval-inherited env pid other h ne e =
    interval_of-other (pos pid) _ _ (rw e (pid_matches-other pid other h ne))
