-- ===== src/Main/Elapsed.antt =====
-- Over which time a pass computes the rates that it publishes.
use sparkwrangler.Base.Int.{ℤ, ◌+ℤ◌, ◌-ℤ◌, ◌≤ℤ◌}
use sparkwrangler.Base.{
  true, Option, none, some, List, [], ◌∷◌, ◌++◌, ◌≡◌, ◌⊎◌, inl, inr, refl, arith, Bool-cases,
  Option-cases,
}
use sparkwrangler.Float.{Float}
use sparkwrangler.Main.Observe.{Round, Node, observe}
use sparkwrangler.Main.Poll.{
  Action, sent, notified, Loop, is_due, Event, ticks, connects, drops, pass, after_pass,
  publication, observed,
}
use sparkwrangler.Main.Status.{status_line}
use sparkwrangler.Publisher.Mqtt.{publish_state}
use sparkwrangler.Publisher.State.{State}
use sparkwrangler.Sdnotify
use sparkwrangler.Vllm.Reading.{Reading}

-- A loop that has a reading publishes next an interval after it.
abbrev pub IsPaced : {F : Type 0} → ℤ → Loop F → Type 0
IsPaced interval l = (l.prev ≡ none) ⊎ (l.next_publish ≡ some (l.prev_at +ℤ interval))

elapsed_from :
    (now at interval : ℤ) → is_due now (some (at +ℤ interval)) ≡ true → interval ≤ℤ now -ℤ at
unfolding ◌+ℤ◌ ◌-ℤ◌
elapsed_from now at interval h = ground arith

module _ {F : Type 0} ⦃fl : Float F⦄ where
  -- The actions of a pass that publishes a state.
  abbrev pub publishing : Node → Round F → State F → List (Action F)
  publishing n r s =
      (sent r.delivery (publish_state r.delivery n.mqtt s).messages
        ++ notified (Sdnotify.status r.socket n.notifier (status_line s)).datagrams)
      ++ notified (Sdnotify.watchdog r.socket n.notifier).datagrams

  -- What a pass does: it publishes nothing; it publishes what it observes while the loop has no reading
  -- to compare with; or it publishes what it observes against the loop's reading, and with the time since
  -- that, which is the interval or longer.
  pub data IsTimed (n : Node) (r : Round F) (l : Loop F) : Type 0 where
    unpublished :
        pass n r l ≡ notified (Sdnotify.watchdog r.socket n.notifier).datagrams → IsTimed n r l
    first :
        l.prev ≡ none
        → pass n r l ≡ publishing n r (observe n r none (r.now -ℤ l.prev_at)).0
        → IsTimed n r l
    later :
        (before : Reading F)
        → l.prev ≡ some before
        → n.interval ≤ℤ r.now -ℤ l.prev_at
        → pass n r l ≡ publishing n r (observe n r (some before) (r.now -ℤ l.prev_at)).0
        → IsTimed n r l

  -- Every pass of the loop is one of these.
  abbrev pub AllTimed : Node → Loop F → List (Event F) → Type 0
  AllTimed n l [] = Unit
  AllTimed n l (ticks r ∷ es) = IsTimed n r l × AllTimed n (after_pass n r l) es
  AllTimed n l (connects d ∷ es) = AllTimed n l es
  AllTimed n l (drops ∷ es) = AllTimed n l es

  after_pass-IsPaced :
      (n : Node) (r : Round F) (l : Loop F)
      → IsPaced n.interval l
      → IsPaced n.interval (after_pass n r l)
  unfolding after_pass
  after_pass-IsPaced n r l h = elim (Bool-cases (is_due r.now l.next_publish)) [
    | inl due ↦ rw due (inr refl)
    | inr early ↦ rw early h
  ]

  due_elapsed :
      (interval now : ℤ) (l : Loop F) (before : Reading F)
      → IsPaced interval l
      → is_due now l.next_publish ≡ true
      → l.prev ≡ some before
      → interval ≤ℤ now -ℤ l.prev_at
  due_elapsed interval now l before (inl e) due h = absurd (ground (arith, e, h))
  due_elapsed interval now l before (inr e) due h =
      elapsed_from now l.prev_at interval (rw e at due)

  pass_due :
      (n : Node) (r : Round F) (l : Loop F) (o : Option (Reading F))
      → is_due r.now l.next_publish ≡ true
      → l.prev ≡ o
      → pass n r l ≡ publishing n r (observe n r o (r.now -ℤ l.prev_at)).0
  unfolding pass publication observed
  pass_due n r l o due e = rw (due, e)

  pass-IsTimed : (n : Node) (r : Round F) (l : Loop F) → IsPaced n.interval l → IsTimed n r l
  pass-IsTimed n r l h = elim (Bool-cases (is_due r.now l.next_publish)) [
    | inl due ↦ elim (Option-cases l.prev) [
      | inl e ↦ first e (pass_due n r l none due e)
      | inr (before, e) ↦
          later before e (due_elapsed n.interval r.now l before h due e)
            (pass_due n r l (some before) due e)
    ]
    | inr early ↦ unpublished (unfold pass in rw early)
  ]

  -- Every rate that is published is computed over at least the interval, so never over no time or over a
  -- negative one if the interval is positive, whatever the clock does.
  pub poll-AllTimed :
      (n : Node) (es : List (Event F)) (l : Loop F) → IsPaced n.interval l → AllTimed n l es
  poll-AllTimed n [] l h = tt
  poll-AllTimed n (connects d ∷ es) l h = poll-AllTimed n es l h
  poll-AllTimed n (drops ∷ es) l h = poll-AllTimed n es l h
  poll-AllTimed n (ticks r ∷ es) l h =
      (pass-IsTimed n r l h, poll-AllTimed n es (after_pass n r l) (after_pass-IsPaced n r l h))
