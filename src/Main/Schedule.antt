-- ===== src/Main/Schedule.antt =====
-- When the poll loop publishes.
use sparkwrangler.Base.Int.{ℤ, pos, ◌+ℤ◌, ◌≤ℤ◌, ◌<ℤ◌}
use sparkwrangler.Base.{
  Bytes, Bool, false, true, some, List, [], ◌∷◌, ◌≡◌, ◌⊎◌, inl, inr, refl, arith, if◌then◌else◌,
  Bool-cases,
}
use sparkwrangler.Float.{Float}
use sparkwrangler.Main.Observe.{Round, Node}
use sparkwrangler.Main.Poll.{
  Action, sends, notifies, expires, releases, disconnects, notified, Loop, is_due, Event, ticks,
  connects, drops, pass, after_pass,
}
use sparkwrangler.Main.Setup.{watchdog_tick}

-- The loop runs at the pace of the watchdog if that is on and tighter than the interval, and at the
-- interval otherwise: it never runs slower than either asks for, and never stands still.
pub watchdog_tick-least :
    (interval watchdog : ℤ)
    → pos 0 <ℤ interval
    → (pos 0 <ℤ watchdog_tick interval watchdog)
      × (watchdog_tick interval watchdog ≤ℤ interval)
      × ((watchdog ≤ℤ pos 0) ⊎ (watchdog_tick interval watchdog ≤ℤ watchdog))
unfolding watchdog_tick
watchdog_tick-least interval watchdog h = ground arith

-- Every two successive times of a list are at least an interval apart.
abbrev pub Spaced : ℤ → List ℤ → Type 0
Spaced interval [] = Unit
Spaced interval (t ∷ []) = Unit
Spaced interval (t ∷ u ∷ ts) = (t +ℤ interval ≤ℤ u) × Spaced interval (u ∷ ts)

abbrev Follows : ℤ → List ℤ → Type 0
Follows t [] = Unit
Follows t (u ∷ us) = t ≤ℤ u

Spaced-cons :
    (interval t : ℤ) (ts : List ℤ)
    → Follows (t +ℤ interval) ts
    → Spaced interval ts
    → Spaced interval (t ∷ ts)
Spaced-cons interval t [] h k = tt
Spaced-cons interval t (u ∷ us) h k = (h, k)

≤ℤ_trans : (a b c : ℤ) → a ≤ℤ b → b ≤ℤ c → a ≤ℤ c
≤ℤ_trans a b c h k = ground arith

≤ℤ_refl : (a : ℤ) → a ≤ℤ a
≤ℤ_refl a = ground arith

later : (t now interval : ℤ) → pos 0 ≤ℤ interval → t ≤ℤ now → t ≤ℤ now +ℤ interval
unfolding ◌+ℤ◌
later t now interval h k = ground arith

due_from : (now t : ℤ) → is_due now (some t) ≡ true → t ≤ℤ now
due_from now t h = ground arith

module _ {F : Type 0} where
  -- Whether a message is among the actions.
  any_send : List (Action F) → Bool
  any_send [] = false
  any_send (sends m t ∷ acts) = true
  any_send (notifies d ∷ acts) = any_send acts
  any_send (expires m ∷ acts) = any_send acts
  any_send (releases ∷ acts) = any_send acts
  any_send (disconnects ∷ acts) = any_send acts

any_send-notified : (F : Type 0) (ds : List Bytes) → any_send {F = F} (notified ds) ≡ false
unfolding any_send notified
any_send-notified F [] = refl
any_send-notified F (d ∷ ds) = any_send-notified F ds

module _ {F : Type 0} ⦃fl : Float F⦄ where
  -- The times of the passes that give a message to the transport.
  unfoldable pub publish_times : Node → Loop F → List (Event F) → List ℤ
  unfolding any_send
  publish_times n l [] = []
  publish_times n l (ticks r ∷ es) =
      let rest = publish_times n (after_pass n r l) es in
      if any_send (pass n r l) then r.now ∷ rest else rest
  publish_times n l (connects d ∷ es) = publish_times n l es
  publish_times n l (drops ∷ es) = publish_times n l es

  pass-early :
      (n : Node) (r : Round F) (l : Loop F)
      → is_due r.now l.next_publish ≡ false
      → any_send (pass n r l) ≡ false
  unfolding pass
  pass-early n r l early = rw early (any_send-notified F _)

  Follows-publish_times :
      (n : Node) (es : List (Event F)) (l : Loop F) (t u : ℤ)
      → pos 0 ≤ℤ n.interval
      → l.next_publish ≡ some u
      → t ≤ℤ u
      → Follows t (publish_times n l es)
  unfolding publish_times after_pass
  Follows-publish_times n [] l t u pace h k = tt
  Follows-publish_times n (connects d ∷ es) l t u pace h k =
      Follows-publish_times n es l t u pace h k
  Follows-publish_times n (drops ∷ es) l t u pace h k = Follows-publish_times n es l t u pace h k
  Follows-publish_times n (ticks r ∷ es) l t u pace h k =
      elim (Bool-cases (is_due r.now l.next_publish)) [
        | inl due ↦
            let k2 : t ≤ℤ r.now = ≤ℤ_trans t u r.now k (due_from r.now u (rw h at due)) in
            elim (Bool-cases (any_send (pass n r l))) [
              | inl sent ↦ rw sent k2
              | inr unsent ↦
                  rw (unsent, due)
                    (Follows-publish_times n es _ t (r.now +ℤ n.interval) pace refl
                      (later t r.now n.interval pace k2))
            ]
        | inr early ↦ rw (pass-early n r l early, early) (Follows-publish_times n es l t u pace h k)
      ]

  -- Two passes that give the transport a message are at least the interval apart, if the interval is not
  -- negative, however often the loop runs, whatever the clock does and whenever the client reconnects.
  pub publish_times-Spaced :
      (n : Node) (es : List (Event F)) (l : Loop F)
      → pos 0 ≤ℤ n.interval
      → Spaced n.interval (publish_times n l es)
  unfolding publish_times after_pass
  publish_times-Spaced n [] l pace = tt
  publish_times-Spaced n (connects d ∷ es) l pace = publish_times-Spaced n es l pace
  publish_times-Spaced n (drops ∷ es) l pace = publish_times-Spaced n es l pace
  publish_times-Spaced n (ticks r ∷ es) l pace = elim (Bool-cases (is_due r.now l.next_publish)) [
    | inl due ↦ elim (Bool-cases (any_send (pass n r l))) [
      | inl sent ↦
          rw (sent, due)
            (Spaced-cons n.interval r.now _
              (Follows-publish_times n es _ (r.now +ℤ n.interval) (r.now +ℤ n.interval) pace refl
                (≤ℤ_refl (r.now +ℤ n.interval)))
              (publish_times-Spaced n es _ pace))
      | inr unsent ↦ rw (unsent, due) (publish_times-Spaced n es _ pace)
    ]
    | inr early ↦ rw (pass-early n r l early, early) (publish_times-Spaced n es l pace)
  ]
