-- ===== src/Main/Run/Pace.antt =====
-- At which pace a run publishes.
use sparkwrangler.Base.Int.{ℤ, pos, ◌≤ℤ◌, ◌<ℤ◌}
use sparkwrangler.Base.{List, ◌≡◌, inl, refl, arith, Bytes, ok}
use sparkwrangler.Config.Load.Valid.{load-IsValid}
use sparkwrangler.Config.Load.{second}
use sparkwrangler.Float.{Float}
use sparkwrangler.Main.Elapsed.{AllTimed, poll-AllTimed}
use sparkwrangler.Main.Observe.{node}
use sparkwrangler.Main.Poll.{Action, Event, start}
use sparkwrangler.Main.Run.Inversion.{IsServing, run_ok}
use sparkwrangler.Main.Run.{World, Ending, run}
use sparkwrangler.Main.Schedule.{Spaced, publish_times, publish_times-Spaced, watchdog_tick-least}
use sparkwrangler.Main.Setup.{watchdog_tick}
use sparkwrangler.Sdnotify.{new, watchdog_interval}

from_second : (i : ℤ) → second ≤ℤ i → pos 0 ≤ℤ i
from_second i h = ground arith

over_second : (i : ℤ) → second ≤ℤ i → pos 0 <ℤ i
over_second i h = ground arith

module _ {F : Type 0} ⦃fl : Float F⦄ (w : World F) (es : List (Event F)) (e : Ending F) where
  -- Whatever settings it is given, whatever systemd asks for and whatever happens to it, a run that serves
  -- has an interval of a second at least, gives its ticker a positive period, publishes no oftener than the
  -- interval says, and every pass that publishes a state observes it without an earlier reading, or against
  -- the loop's last one with the time since that, which is the interval or longer, so that no rate is over
  -- no time or over a negative one.
  pub run-Spaced :
      (args : List Bytes) (pid : ℤ) {acts : List (Action F)}
      → run w es e args ≡ ok acts
      → (s : IsServing w es e args acts) × (second ≤ℤ s.cfg.interval)
        × (pos 0 <ℤ watchdog_tick s.cfg.interval (watchdog_interval w.env pid))
        × Spaced s.cfg.interval
            (publish_times (node s.cfg s.mq (new w.env w.dial) s.mac) (start w.started) es)
        × AllTimed (node s.cfg s.mq (new w.env w.dial) s.mac) (start w.started) es
  unfolding node
  run-Spaced args pid h =
      let s = run_ok w es e args h in
      let n = node s.cfg s.mq (new w.env w.dial) s.mac in
      let v = load-IsValid w.parsers w.env w.hostname args s.loaded in
      (
        s,
        v.interval,
        (watchdog_tick-least s.cfg.interval (watchdog_interval w.env pid)
            (over_second s.cfg.interval v.interval)).0,
        publish_times-Spaced n es (start w.started) (from_second s.cfg.interval v.interval),
        poll-AllTimed n es (start w.started) (inl refl),
      )
