-- ===== src/Sdnotify.antt =====
-- The package `internal/sdnotify`: systemd's readiness protocol. The environment is a function, and what
-- the socket does with a datagram is a parameter.
pub mod Watchdog
use sparkwrangler.Base.Int.{ℤ, pos, ◌*ℤ◌, wrap64, quot, leb_ℤ}
use sparkwrangler.Base.{
  Bool, true, false, not, ◌&&◌, ◌||◌, Option, none, some, List, [], ◌∷◌, ◌++◌, ◌==◌, if◌then◌else◌,
  Bytes, codes, is_some,
}
use sparkwrangler.Text.Decimal.{parse_int64}

-- `os.LookupEnv`
abbrev pub Env : Type 0
Env = Bytes → Option Bytes

-- `os.Getenv`
abbrev pub getenv : Env → Bytes → Bytes
getenv env name = elim (env name) [ none ↦ [] | some v ↦ v ]

-- The connection is the address of the socket that it was dialled to.
pub record Notifier : Type 0 where
  pub conn : Option Bytes

-- A leading @ denotes the abstract namespace.
socket_address : Bytes → Bytes
socket_address [] = []
socket_address (c ∷ addr) = if c == b'@' then 0 ∷ addr else c ∷ addr

dialled : (Bytes → Bool) → Bytes → Option Bytes
unfolding socket_address
dialled dial [] = none
dialled dial (c ∷ addr) = let a = socket_address (c ∷ addr) in if dial a then some a else none

-- `New`; the argument `dial` says whether `net.DialUnix` succeeds.
unfoldable pub new : Env → (Bytes → Bool) → Notifier
unfolding dialled
new env dial = record { conn = dialled dial (getenv env (codes "NOTIFY_SOCKET")) }

unfoldable pub enabled : Notifier → Bool
enabled n = is_some n.conn

-- What an operation gives to the socket, and whether it returns an error.
pub record Written : Type 0 where
  pub datagrams : List Bytes
  pub failed : Bool

-- The argument `writes` says of a datagram whether the socket takes it.
unfoldable pub send : (Bytes → Bool) → Notifier → Bytes → Written
unfolding enabled
send writes n msg =
    if enabled n
    then record { datagrams = msg ∷ []; failed = not (writes msg) }
    else record { datagrams = []; failed = false }

unfoldable pub ready : (Bytes → Bool) → Notifier → Written
unfolding send
ready writes n = send writes n (codes "READY=1")

unfoldable pub status : (Bytes → Bool) → Notifier → Bytes → Written
unfolding send
status writes n text = send writes n (codes "STATUS=" ++ text)

unfoldable pub watchdog : (Bytes → Bool) → Notifier → Written
unfolding send
watchdog writes n = send writes n (codes "WATCHDOG=1")

unfoldable pub stopping : (Bytes → Bool) → Notifier → Written
unfolding send
stopping writes n = send writes n (codes "STOPPING=1")

-- `Close`: whether the socket is released, and whether that fails.
pub record Closed : Type 0 where
  pub released : Bool
  pub failed : Bool

unfoldable pub close : Bool → Notifier → Closed
unfolding enabled
close closes n =
    if enabled n
    then record { released = true; failed = not closes }
    else record { released = false; failed = false }

-- `err != nil || p != os.Getpid()`, negated.
same_pid : ℤ → Option ℤ → Bool
same_pid pid none = false
same_pid pid (some p) = leb_ℤ p pid && leb_ℤ pid p

-- The test of `WATCHDOG_PID`, which an empty value passes.
pid_matches : ℤ → Bytes → Bool
unfolding same_pid
pid_matches pid [] = true
pid_matches pid (c ∷ text) = same_pid pid (parse_int64 (c ∷ text))

-- Half of the microseconds, as a duration; the product is an `int64`.
half_of : Option ℤ → ℤ
half_of none = pos 0
half_of (some micros) = if leb_ℤ micros (pos 0) then pos 0 else quot (wrap64 (micros *ℤ pos 1000)) 2

interval_of : ℤ → Bytes → Bytes → ℤ
unfolding pid_matches half_of
interval_of pid [] owner = pos 0
interval_of pid (c ∷ usec) owner =
    if pid_matches pid owner then half_of (parse_int64 (c ∷ usec)) else pos 0

-- `WatchdogInterval`, in the process `pid`.
unfoldable pub watchdog_interval : Env → ℤ → ℤ
unfolding interval_of
watchdog_interval env pid =
    interval_of pid (getenv env (codes "WATCHDOG_USEC")) (getenv env (codes "WATCHDOG_PID"))
