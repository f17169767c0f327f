-- ===== src/Main/Run/Return.antt =====
-- When a run returns, and what it has done by then.
use sparkwrangler.Base.{ℕ, suc, ◌<◌, true, some, List, ◌++◌, ◌≡◌, Bytes, ok}
use sparkwrangler.Float.{Float}
use sparkwrangler.Main.Loop.{Turn, events_until, loop, loop-poll}
use sparkwrangler.Main.Observe.{node}
use sparkwrangler.Main.Poll.{Action, notified, start, poll}
use sparkwrangler.Main.Run.Inversion.{IsServing, run_ok}
use sparkwrangler.Main.Run.{World, Ending, greeted, closing, serve, run}
use sparkwrangler.Main.Setup.{node_device}
use sparkwrangler.Sdnotify
use sparkwrangler.Sdnotify.{new}

module _ {F : Type 0} ⦃fl : Float F⦄ (w : World F) (turns : ℕ → Turn F) (e : Ending F) where
  -- A run that serves returns if the `select` of some turn of its loop takes the branch of the context:
  -- the loop ends, with one more turn of fuel than come before that turn and with any more fuel alike, and
  -- what the run has done is its start, what the loop has done, and its shutdown.
  pub run-returns :
      (args : List Bytes) (k fuel : ℕ) {acts : List (Action F)}
      → k < fuel
      → (turns k).done ≡ true
      → run w (events_until (suc k) turns) e args ≡ ok acts
      → (s : IsServing w (events_until (suc k) turns) e args acts) × (looped : List (Action F))
        × (loop
              (node s.cfg s.mq (new w.env w.dial) s.mac)
              (node_device s.cfg s.mac)
              e.socket
              fuel
              (start w.started)
              turns
            ≡ some looped)
        × (acts
            ≡ greeted w.early (node_device s.cfg s.mac) s.mq
              ++ (notified (Sdnotify.ready w.socket (new w.env w.dial)).datagrams
                  ++ (looped ++ closing e s.mq (new w.env w.dial))))
  unfolding serve
  run-returns args k fuel h done r =
      let s = run_ok w (events_until (suc k) turns) e args r in
      let n = node s.cfg s.mq (new w.env w.dial) s.mac in
      let dev = node_device s.cfg s.mac in
      (
        s,
        poll n dev e.socket (start w.started) (events_until (suc k) turns),
        loop-poll n dev e.socket k fuel (start w.started) turns h done,
        s.served,
      )
