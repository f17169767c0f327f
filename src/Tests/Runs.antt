-- ===== src/Tests/Runs.antt =====
-- The poll loop.
use sparkwrangler.Base.Int.{pos, ◌+ℤ◌}
use sparkwrangler.Main.Status.Line.{IsOneLine, status_iff, format_int-IsOneLine}
use sparkwrangler.Main.Status.{status_line}
use sparkwrangler.Publisher.State.{State}
use sparkwrangler.Base.{
  ℕ, ◌==◌, map, ◌↔◌, Bool, arith, true, none, some, List, [], ◌∷◌, ◌≡◌, refl, Bytes, codes, All,
  lookup,
}
use sparkwrangler.Gpu
use sparkwrangler.Gpu.{nvidia_smi}
use sparkwrangler.Host.Memory.{read_memory, used_pct}
use sparkwrangler.Main.Callbacks.{connected, event}
use sparkwrangler.Main.Interleaving.View.{view, after_catalogs, after_rounds, view-interleaved}
use sparkwrangler.Main.Interleaving.{rounds_of, callbacks_of, poll-Interleaves}
use sparkwrangler.Main.Loop.{Turn, events_until}
use sparkwrangler.Main.Observe.{observe}
use sparkwrangler.Main.Pings.{count_pings, count_ticks, poll-pings}
use sparkwrangler.Main.Poll.{
  Event, sent, notified, ticks, connects, drops, start, poll, pass, after_pass,
}
use sparkwrangler.Main.Presence.{retained, after_events}
use sparkwrangler.Main.Schedule.{publish_times}
use sparkwrangler.Publisher.Json.{marshal_state}
use sparkwrangler.Publisher.Mqtt.Connect.{new_topics}
use sparkwrangler.Publisher.Mqtt.Topics.{new_topics-HasOwnTopic}
use sparkwrangler.Publisher.Mqtt.{publish_state}
use sparkwrangler.Publisher.State.{worker_state}
use sparkwrangler.Sdnotify
use sparkwrangler.Sdnotify.{Notifier, enabled}
use sparkwrangler.Tests.Numbers.{Number, nan, infinity, whole, number_float}
use sparkwrangler.Tests.Sessions.{options, deliver, device}
use sparkwrangler.Tests.Rounds.{round, notifier, worker_node}

-- A loop of three passes, of which the second comes too early, and of two connections.
abbrev pub events : List (Event Number)
events =
    connects deliver
    ∷ ticks (round (pos 1))
    ∷ ticks (round (pos 2))
    ∷ drops
    ∷ connects deliver
    ∷ ticks (round (pos 15_000_000_001))
    ∷ []

abbrev pub taken : Bytes → Bool
taken datagram = true

published_times : publish_times worker_node (start (pos 0)) events ≡ pos 1 ∷ pos 15_000_000_001 ∷ []
unfolding publish_times after_pass ◌+ℤ◌ pass publish_state marshal_state observe read_memory
    Gpu.read worker_state used_pct Sdnotify.watchdog sent notified
published_times = refl

poll-pings_example :
    count_pings (poll worker_node device taken (start (pos 0)) events) ≡ count_ticks events
poll-pings_example =
    poll-pings worker_node device taken events (start (pos 0)) (unfold enabled in refl)

view-interleaved_example :
    view (new_topics options) (retained [] (poll worker_node device taken (start (pos 0)) events))
    ≡ record {
      presence = after_events device (new_topics options) none (map event (callbacks_of events));
      catalog = after_catalogs device (new_topics options) none (callbacks_of events);
      document = after_rounds worker_node (start (pos 0)) none (rounds_of events);
    }
unfolding lookup
view-interleaved_example =
    view-interleaved worker_node device taken (rounds_of events) (start (pos 0))
      (callbacks_of events) [] (new_topics-HasOwnTopic options)
      (poll-Interleaves worker_node device taken events (start (pos 0)))

-- A loop whose third turn takes the branch of the context, with more fuel than it needs.
abbrev pub turns : ℕ → Turn Number
turns i = record { round = round (pos i); meanwhile = connected deliver ∷ []; done = i == 2 }

three_turns : count_ticks (events_until 3 turns) ≡ 3
unfolding events_until
three_turns = refl

prints_line : (n : ℕ) (x : Number) → IsOneLine (number_float.format_fixed n x)
prints_line n nan = ground arith
prints_line n infinity = ground arith
prints_line n (whole m) = format_int-IsOneLine m

-- A model whose name has a line feed.
abbrev two_lines : State Number
two_lines = record (worker_state []) { vllm_up = some true; model = codes "a\nSTOPPING=1" }

status_iff_example :
    All IsOneLine (Sdnotify.status taken notifier (status_line two_lines)).datagrams
    ↔ ((two_lines.vllm_up ≡ some true) → IsOneLine two_lines.model)
status_iff_example = status_iff prints_line taken notifier two_lines (unfold enabled in refl)

two_lines_sent :
    (Sdnotify.status taken notifier (status_line two_lines)).datagrams
    ≡ codes "STATUS=serving a\nSTOPPING=1" ∷ []
unfolding Sdnotify.status enabled status_line worker_state
two_lines_sent = refl
