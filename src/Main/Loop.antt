-- ===== src/Main/Loop.antt =====
-- The loop of `poll` in cmd/sparkwrangler/main.go as it stands there: a pass and a `select` at each turn,
-- until the `select` takes the branch of the context.
use sparkwrangler.Base.{
  ℕ, zero, suc, ◌<◌, Bool, true, Option, none, some, List, [], ◌∷◌, ◌++◌, map, ◌≡◌, sym,
  append_assoc, ap, ◌∙◌, arith, if◌then◌else◌, Bytes, Bool-cases, inl, inr,
}
use sparkwrangler.Discovery.Device.{Device}
use sparkwrangler.Float.{Float}
use sparkwrangler.Main.Callbacks.{Callback, event, called, poll-called}
use sparkwrangler.Main.Observe.{Round, Node}
use sparkwrangler.Main.Poll.{Action, notified, Event, ticks, Loop, pass, after_pass, poll}
use sparkwrangler.Vllm.Reading.{map_option}
use sparkwrangler.Sdnotify

-- A turn: the answers that its pass gets, the callbacks that come until its `select` returns, and whether
-- that takes the branch of `ctx.Done()`. If a tick is ready too, it may take either.
pub record Turn (F : Type 0) : Type 0 where
  pub round : Round F
  pub meanwhile : List (Callback F)
  pub done : Bool

module _ {F : Type 0} where
  -- The events of a turn, and those of the turns up to the first that is the last one.
  abbrev pub events_of : Turn F → List (Event F)
  events_of t = ticks t.round ∷ map event t.meanwhile

  unfoldable pub events_until : ℕ → (ℕ → Turn F) → List (Event F)
  events_until zero turns = []
  events_until (suc k) turns =
      let rest = events_until k (λ i. turns (suc i)) in
      events_of (turns 0) ++ (if (turns 0).done then [] else rest)

module _ {F : Type 0} ⦃fl : Float F⦄ (n : Node) (dev : Device) (socket : Bytes → Bool) where
  -- The statement `for`, for as many turns as there is fuel.
  unfoldable pub loop : ℕ → Loop F → (ℕ → Turn F) → Option (List (Action F))
  unfolding pass after_pass called
  loop zero l turns = none
  loop (suc fuel) l turns =
      let t = turns 0 in
      let acts = pass n t.round l ++ called dev n.mqtt t.meanwhile in
      let rest = loop fuel (after_pass n t.round l) (λ i. turns (suc i)) in
      if t.done
      then some (acts ++ notified (Sdnotify.stopping socket n.notifier).datagrams)
      else map_option (acts ++◌) rest

  poll-events_of :
      (t : Turn F) (l : Loop F) (es : List (Event F))
      → poll n dev socket l (events_of t ++ es)
        ≡ (pass n t.round l ++ called dev n.mqtt t.meanwhile)
          ++ poll n dev socket (after_pass n t.round l) es
  unfolding poll
  poll-events_of t l es =
      ap (pass n t.round l ++◌) (poll-called n dev socket (after_pass n t.round l) t.meanwhile es)
      ∙ sym (append_assoc (pass n t.round l) (called dev n.mqtt t.meanwhile) _)

  poll-last :
      (t : Turn F) (l : Loop F)
      → (pass n t.round l ++ called dev n.mqtt t.meanwhile)
          ++ notified (Sdnotify.stopping socket n.notifier).datagrams
        ≡ poll n dev socket l (events_of t ++ [])
  unfolding poll
  poll-last t l = sym (poll-events_of t l [])

  -- If some turn takes the branch of the context, the loop returns, with one more turn of fuel than come
  -- before that turn and with any more fuel alike, and what it has done is what the passes and the
  -- callbacks of the turns up to the first such turn do.
  pub loop-poll :
      (k fuel : ℕ) (l : Loop F) (turns : ℕ → Turn F)
      → k < fuel
      → (turns k).done ≡ true
      → loop fuel l turns ≡ some (poll n dev socket l (events_until (suc k) turns))
  unfolding loop events_until
  loop-poll k zero l turns h e = absurd (omega arith)
  loop-poll zero (suc fuel) l turns h e = rw e (ap some (poll-last (turns 0) l))
  loop-poll (suc k) (suc fuel) l turns h e = elim (Bool-cases (turns 0).done) [
    | inl last ↦ rw last (ap some (poll-last (turns 0) l))
    | inr more ↦
        let next =
          loop-poll k fuel (after_pass n (turns 0).round l) (λ i. turns (suc i)) (omega arith) e in
        rw more (
          ap (map_option ((pass n (turns 0).round l ++ called dev n.mqtt (turns 0).meanwhile) ++◌))
            next
          ∙ ap some (sym (poll-events_of (turns 0) l _)))
  ]
