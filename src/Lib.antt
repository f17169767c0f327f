-- ===== src/Lib.antt =====
-- Sparkwrangler publishes the state of one vLLM node to Home Assistant over MQTT. This library models the
-- daemon's Go code and proves what its parts promise.
--
-- The parts and the code that they are about:
--   Vllm       internal/vllm: the parser of the exposition format (Metrics and Labels, of metrics.go), the
--              reading (Reading, of client.go) and the client (Client, of client.go).
--   Publisher  internal/publisher: the state document (State and Json, of state.go), the transport's security
--              (Tls, of tls.go) and the broker's side (Mqtt, of mqtt.go).
--   Discovery  internal/hadiscovery: the records and topics (Device), the catalog of an engine (Engine) and of
--              a host (Host), and their union (Sensors), of device.go and sensors.go.
--   Gpu        internal/gpu: the readings of nvidia-smi.
--   Host       internal/host: the memory (Memory, of host.go) and the hardware address (Network, of network.go);
--              Mac describes net.ParseMAC and HardwareAddr.String.
--   Sdnotify   internal/sdnotify: systemd's messages and the watchdog's interval.
--   Config     internal/config: the settings (Load); Flags describes the part of package flag that is used.
--   Main       cmd/sparkwrangler/main.go: what run makes of the settings (Setup), a round of observation
--              (Observe), the status line (Status), the poll loop (Poll, and Loop for its statement for), the
--              callbacks of the broker's client (Callbacks), and run and main (Run).
--   Text       the functions of strings, strconv and bufio that the code calls, on bytes.
--   Float      the operations on float64 that the code uses, as a record.
--   Base       shared types, operators and lemmas. Tests holds concrete runs.
--
-- How they interact: in each pass Main asks Vllm, Gpu and Host for readings, builds a state of Publisher from
-- them, gives its document to the transport and its status line to Sdnotify. The keys of the document are
-- those that the catalog of Discovery reads, and the transport announces that catalog. A run is a function of
-- what it starts with (World), of the events between its first and its last pass (Event), and of what it is
-- answered at the end (Ending), and gives the sequence of what it does to the world (Action). The calls of
-- OnConnect, which the broker's client makes on a goroutine of its own, and the losses that the broker finds
-- stand among the passes in any order, and one of the calls may come before the readiness. In a list of events
-- a pass and an announcement each count as one step; Interleaving has the messages of the two goroutines in any
-- order, of which that list is one, and Overlap an announcement beside the shutdown.
--
-- Texts are lists of bytes. A nil pointer is none, and a returned error is none or a value of a result type. An int
-- or int64 is a signed integer with the wrap-around written out where the code multiplies or subtracts; a
-- duration counts nanoseconds. Functions that recurse on a text are structural, so fuel is used in two places:
-- the print of decimal numbers, where the number's successor is given and shown to be enough by the round trip;
-- and the statement for of poll, which needs one turn more than come before the first that ends it (Return has the run around it).
-- A scanner's bound is that of the code: 64 KiB, and 1 MiB for metrics, the line's end not counted.
--
-- Parameters: the floating-point numbers (Float), the HTTP transport and the JSON decoder (Http), the commands
-- (Exec), the kernel's trees (SysNet, Opened, with what the scanner has met of a failing read), the URL parser and the certificate loaders (Trust), the parsers
-- of durations and of integers in any base (Parsers), the environment (Env), what becomes of each
-- connection and message (Token, Delivery), and what becomes of each datagram of systemd's socket.
--
-- Not modelled: logging and the levels of the logger; which signal ends a run and when the ticker fires, since
-- the events of a run are whatever they are; the intervals of reconnection; a message that is
-- delivered behind its time-out; the text that the JSON encoder makes of a member's value; and the print of
-- usage and of errors.
pub mod Base
pub mod Float
pub mod Text
pub mod Vllm
pub mod Publisher
pub mod Discovery
pub mod Gpu
pub mod Host
pub mod Sdnotify
pub mod Config
pub mod Main
pub mod Tests
