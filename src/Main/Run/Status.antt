-- ===== src/Main/Run/Status.antt =====
-- The status that `main` exits with.
use sparkwrangler.Base.{
  List, [], ◌∷◌, ◌≡◌, ◌↔◌, ◌⊎◌, inl, inr, refl, Bytes, codes, equal, lookup, Result, ok, err,
}
use sparkwrangler.Config.Flags.{Parsers, help_requested, parse}
use sparkwrangler.Config.Load.{flags, flag_set, short_hostname, load}
use sparkwrangler.Float.{Float}
use sparkwrangler.Main.Poll.{Action, Event}
use sparkwrangler.Main.Run.{World, Ending, RunError, bad_config, run, exit_status}
use sparkwrangler.Sdnotify.{Env}

exit_status_iff :
    {A : Type 0} (r : Result RunError A)
    → (exit_status r ≡ 0) ↔ (((a : A) × (r ≡ ok a)) ⊎ (r ≡ err (bad_config (flags help_requested))))
unfolding exit_status
exit_status_iff (ok a) = ((λ h. inl (a, refl)), (λ h. refl))
exit_status_iff (err (bad_config (flags help_requested))) = ((λ h. inr refl), (λ h. refl))
exit_status_iff r = ((λ h. cc), (λ h. elim h [ inl (a, e) ↦ cc | inr e ↦ cc ]))

parse-help :
    (p : Parsers) (e : Env) (host : Bytes) (args : List Bytes)
    → parse p (flag_set p e host) (codes "-h" ∷ args) ≡ err help_requested
unfolding parse flag_set lookup equal
parse-help p e host [] = refl
parse-help p e host (b ∷ args) = refl

module _ {F : Type 0} ⦃fl : Float F⦄ (w : World F) (es : List (Event F)) (e : Ending F) where
  run-help :
      (args : List Bytes) → run w es e (codes "-h" ∷ args) ≡ err (bad_config (flags help_requested))
  unfolding run load
  run-help args = rw (parse-help w.parsers w.env (short_hostname w.hostname) args)

  -- The daemon exits with the status 0 exactly if its run serves or help was asked for, and a command line
  -- that begins with `-h` asks for help, whatever follows it and whatever the environment holds.
  pub run-exit_status :
      (args : List Bytes)
      → ((exit_status (run w es e args) ≡ 0) ↔ (
          ((acts : List (Action F)) × (run w es e args ≡ ok acts))
          ⊎ (run w es e args ≡ err (bad_config (flags help_requested)))))
        × (exit_status (run w es e (codes "-h" ∷ args)) ≡ 0)
  run-exit_status args = (
    exit_status_iff (run w es e args),
    (exit_status_iff (run w es e (codes "-h" ∷ args))).1 (inr (run-help args)),
  )
