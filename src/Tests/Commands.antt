-- ===== src/Tests/Commands.antt =====
-- Whole runs: of a worker that serves, and of one that names an interface that is not there.
use sparkwrangler.Base.Int.{◌<ℤ◌, pos, ◌≤ℤ◌, ◌*ℤ◌}
use sparkwrangler.Base.{
  arith, some, ◌++◌, true, false, none, List, [], ◌∷◌, ◌≡◌, ◌↔◌, ◌⊎◌, refl, Bytes, codes, ok, err,
  All, lookup, insert, equal, one_of,
}
use sparkwrangler.Config.Flags.Forms.{print_all}
use sparkwrangler.Config.Flags.{parse, parse_bool}
use sparkwrangler.Config.Load.{second, load}
use sparkwrangler.Host.Network.{
  SysNet, listed, refused, primary_mac, no_entries, default_route_interface, ethernet_interfaces,
}
use sparkwrangler.Main.Elapsed.{AllTimed}
use sparkwrangler.Main.Observe.{node}
use sparkwrangler.Main.Poll.{Action, sent, notified, start}
use sparkwrangler.Main.Presence.{retained}
use sparkwrangler.Main.Run.Contract.{IsAllowed, run-IsAllowed}
use sparkwrangler.Main.Run.Failures.{IsStopped, run_err_iff}
use sparkwrangler.Main.Run.Inversion.{IsServing}
use sparkwrangler.Main.Run.Order.{greeting, farewell, EndsIn, run-EndsIn}
use sparkwrangler.Publisher.Mqtt.Topics.{new_topics-HasOwnTopic}
use sparkwrangler.Publisher.Mqtt.{raw, announce, close, payload_online, payload_offline, will}
use sparkwrangler.Main.Interleaving.View.{view, after_catalogs, after_rounds}
use sparkwrangler.Main.Interleaving.{Interleaves, rounds_of, callbacks_of}
use sparkwrangler.Main.Run.Retained.{early_callbacks, run-view}
use sparkwrangler.Main.Overlap.{overlapped, closing-overlapped}
use sparkwrangler.Tests.Rounds.{notifier}
use sparkwrangler.Main.Run.Pace.{run-Spaced}
use sparkwrangler.Main.Run.Shutdown.{IsConcurrent, run-IsConcurrent, left}
use sparkwrangler.Main.Run.{
  closing, greeted, World, Ending, no_mac, bad_config, exit_status, serve, run,
}
use sparkwrangler.Main.Schedule.{Spaced, publish_times}
use sparkwrangler.Main.Setup.{node_device, node_options, watchdog_tick}
use sparkwrangler.Publisher.Mqtt.Connect.{new_topics, new_mqtt}
use sparkwrangler.Sdnotify.{enabled, new, watchdog_interval}
use sparkwrangler.Publisher.Tls.{validate_broker_url, build_tls_config, scheme_is_tls}
use sparkwrangler.Text.Decimal.{parse_int64}
use sparkwrangler.Text.Search.{to_lower, contains}
use sparkwrangler.Text.Space.{trim_space}
use sparkwrangler.Tests.Numbers.{Number, number_float}
use sparkwrangler.Sdnotify
use sparkwrangler.Main.Loop.{events_until, loop}
use sparkwrangler.Main.Run.Return.{run-returns}
use sparkwrangler.Main.Run.Status.{run-exit_status}
use sparkwrangler.Config.Flags.{help_requested}
use sparkwrangler.Config.Load.{flags}
use sparkwrangler.Tests.Runs.{events, taken, turns}
use sparkwrangler.Tests.Sessions.{
  loaded, parsers, environment, assignments, trust, accept, deliver, device, options, announced,
}

-- A machine without a network of its own.
abbrev no_net : SysNet
no_net = record {
  attribute = λ name file. none;
  link = λ name. none;
  has = λ name file. false;
  entries = listed [];
  route = none;
}

abbrev world : World Number
world = record {
  parsers = parsers;
  env = environment;
  hostname = codes "spark.lan";
  sys = no_net;
  trust = trust;
  connect = accept;
  early = some deliver;
  dial = λ name. true;
  socket = taken;
  started = pos 0;
}

abbrev ending : Ending Number
ending = record { socket = taken; closes = true; delivery = deliver }

abbrev arguments : List Bytes
arguments = print_all assignments

abbrev actions : List (Action Number)
actions = serve world events ending loaded [] (new_topics (node_options loaded))

served : run world events ending arguments ≡ ok actions
unfolding run load parse insert parse_int64 ◌*ℤ◌ primary_mac new_mqtt validate_broker_url
    build_tls_config scheme_is_tls to_lower equal one_of contains trim_space default_route_interface
    ethernet_interfaces node_options parse_bool
served = refl

abbrev serving :
    (s : IsServing world events ending arguments actions) × IsConcurrent world events ending s.cfg
      s.mac s.mq actions
serving = run-IsConcurrent world events ending arguments served

run-view_example : view serving.0.mq (retained [] actions) ≡ record {
  presence = left world events ending (node_device serving.0.cfg serving.0.mac) serving.0.mq [];
  catalog =
      after_catalogs
        (node_device serving.0.cfg serving.0.mac)
        serving.0.mq
        (after_catalogs
          (node_device serving.0.cfg serving.0.mac)
          serving.0.mq
          (lookup serving.0.mq.disco_topic [])
          (early_callbacks world.early))
        (callbacks_of events);
  document =
      after_rounds
        (node serving.0.cfg serving.0.mq (new world.env world.dial) serving.0.mac)
        (start world.started)
        (lookup serving.0.mq.state_topic [])
        (rounds_of events);
}
run-view_example = run-view world events ending arguments [] serving.0 serving.1

-- The same node, stopped at the third turn of its loop.
abbrev turned : List (Action Number)
turned = serve world (events_until 3 turns) ending loaded [] (new_topics (node_options loaded))

turned_served : run world (events_until 3 turns) ending arguments ≡ ok turned
unfolding run load parse insert parse_int64 ◌*ℤ◌ primary_mac new_mqtt validate_broker_url
    build_tls_config scheme_is_tls to_lower equal one_of contains trim_space default_route_interface
    ethernet_interfaces node_options parse_bool
turned_served = refl

run-returns_example :
    (s : IsServing world (events_until 3 turns) ending arguments turned) × (looped : List
      (Action Number))
    × (loop
          (node s.cfg s.mq (new world.env world.dial) s.mac)
          (node_device s.cfg s.mac)
          taken
          7
          (start world.started)
          turns
        ≡ some looped)
    × (turned
        ≡ greeted world.early (node_device s.cfg s.mac) s.mq
          ++ (notified (Sdnotify.ready taken (new world.env world.dial)).datagrams
              ++ (looped ++ closing ending s.mq (new world.env world.dial))))
run-returns_example = run-returns world turns ending arguments 2 7 (omega arith) refl turned_served

offline_delivered : (close ending.delivery (new_topics options)).error ≡ none
unfolding close
offline_delivered = refl

-- A shutdown between a reconnection and its announcement.
closing-overlapped_example :
    (lookup (new_topics options).avail_topic (
        retained [] (
          sent deliver (announce deliver device (new_topics options)).messages
          ++ closing ending (new_topics options) notifier))
      ≡ some (raw payload_offline))
    × (front : List (Action Number)) × Interleaves
        (closing ending (new_topics options) notifier)
        (sent deliver (announce deliver device (new_topics options)).messages)
        (front ++ overlapped ending (new_topics options) device deliver)
    × (lookup
          (new_topics options).avail_topic
          (retained [] (front ++ overlapped ending (new_topics options) device deliver))
        ≡ some (raw payload_online))
closing-overlapped_example =
    closing-overlapped ending (new_topics options) notifier device deliver []
      (new_topics-HasOwnTopic options) announced offline_delivered

run-IsAllowed_example :
    (s : IsServing world events ending arguments actions) × All (IsAllowed s.mq) actions
run-IsAllowed_example = run-IsAllowed world events ending arguments served

run-Spaced_example :
    (s : IsServing world events ending arguments actions) × (second ≤ℤ s.cfg.interval)
    × (pos 0 <ℤ watchdog_tick s.cfg.interval (watchdog_interval world.env (pos 7)))
    × Spaced s.cfg.interval (
        publish_times
          (node s.cfg s.mq (new world.env world.dial) s.mac)
          (start world.started)
          events)
    × AllTimed (node s.cfg s.mq (new world.env world.dial) s.mac) (start world.started) events
run-Spaced_example = run-Spaced world events ending arguments (pos 7) served

run-EndsIn_example :
    (s : IsServing world events ending arguments actions) × (rest : List (Action Number)) × (actions
      ≡ greeted world.early (node_device s.cfg s.mac) s.mq
        ++ (greeting (enabled (new world.env world.dial)) ++ rest))
    × EndsIn (farewell (enabled (new world.env world.dial)) (will s.mq) ending.delivery) rest
run-EndsIn_example = run-EndsIn world events ending arguments served

-- An interface of a single blank is named, though it is trimmed to none when its address is looked up.
abbrev blank_arguments : List Bytes
blank_arguments = codes "-net-interface= " ∷ []

abbrev locked_world : World Number
locked_world = record world { sys = record no_net { entries = refused } }

run_err_iff_example :
    (run locked_world events ending blank_arguments ≡ err (no_mac no_entries))
    ↔ IsStopped locked_world blank_arguments (no_mac no_entries)
run_err_iff_example = run_err_iff locked_world events ending blank_arguments (no_mac no_entries)

run-exit_status_example :
    ((exit_status (run locked_world events ending blank_arguments) ≡ 0) ↔ (
      ((acts : List (Action Number)) × (run locked_world events ending blank_arguments ≡ ok acts))
      ⊎ (run locked_world events ending blank_arguments ≡ err (bad_config (flags help_requested)))))
    × (exit_status (run locked_world events ending (codes "-h" ∷ blank_arguments)) ≡ 0)
run-exit_status_example = run-exit_status locked_world events ending blank_arguments

blank_stops : run locked_world events ending blank_arguments ≡ err (no_mac no_entries)
unfolding run load parse insert parse_int64 ◌*ℤ◌ primary_mac trim_space default_route_interface
    ethernet_interfaces
blank_stops = refl
