-- ===== src/Scheduler.antt =====
-- vm/roundrobin_scheduler.c and .h: the scheduler's threads, when a thread sleeps, and the loops
-- that wake the threads that wait for a monitor. Objects, threads and execution records are numbers
-- that stand for their addresses, 0 for a null pointer. The fields of `vm_thread` and of its Java
-- thread object that the scheduler reads or writes are in `Thread`.
mod Next
mod Sleep
pub mod Wake
mod Handles
mod Step
mod Runs
mod Roots
mod Tests
use b_jvm.Common.{
  ℕ, ◌≡◌, Bool, true, false, ◌&&◌, ◌||◌, not, List, [], ◌∷◌, Option, none, some, ltb, leb, ◌==◌,
  if◌then◌else◌, length, All,
}

pub data WakeupKind : Type 0 where
  yielding : WakeupKind
  sleep : WakeupKind
  reference_pending : WakeupKind
  park : WakeupKind
  monitor_enter_waiting : WakeupKind
  monitor_wait : WakeupKind

pub record WakeupInfo : Type 0 where
  pub kind : WakeupKind
  pub wakeup_us : ℕ
  -- the object behind the monitor's handle
  pub monitor : ℕ
  pub ready : Bool

pub record Thread : Type 0 where
  pub tid : ℕ
  pub thread_obj : ℕ
  pub interrupted : Bool
  pub unpark_permit : Bool
  pub is_daemon : Bool
  pub fuel : ℕ
  pub yield_at_time : ℕ
  pub synchronous_depth : ℕ

-- A call that the interpreter makes progress with: its arguments and, for each, whether it is a
-- reference, as `is_nth_arg_reference` reads it off the method; `progress` stands for its frames.
pub record Call : Type 0 where
  pub thread : ℕ
  pub args : List ℕ
  pub is_static : Bool
  pub arg_references : List Bool
  pub returns_reference : Bool
  pub progress : ℕ

pub record PendingCall : Type 0 where
  pub call : Call
  pub execution : ℕ

pub record ThreadInfo : Type 0 where
  pub thread : Thread
  pub call_queue : List PendingCall
  pub wakeup_info : Option WakeupInfo

abbrev is_reference_pending : WakeupKind → Bool
is_reference_pending WakeupKind.reference_pending = true
is_reference_pending _ = false

abbrev pub is_enter_waiting : WakeupKind → Bool
is_enter_waiting WakeupKind.monitor_enter_waiting = true
is_enter_waiting _ = false

abbrev pub is_monitor_wait : WakeupKind → Bool
is_monitor_wait WakeupKind.monitor_wait = true
is_monitor_wait _ = false

-- The kinds that a wake-up time ends, unless a permit or `ready` has ended the wait before.
unfoldable pub is_blocked : Thread → WakeupInfo → Bool
is_blocked t w = elim w.kind [
  | WakeupKind.sleep ↦ true
  | WakeupKind.park ↦ not t.unpark_permit
  | WakeupKind.monitor_wait ↦ not w.ready
  | WakeupKind.monitor_enter_waiting ↦ not w.ready
  | _ ↦ false
]

unfoldable waits : Thread → WakeupInfo → ℕ → Bool
unfolding is_blocked
waits t w time =
    if is_blocked t w
    then not (t.interrupted && not (is_enter_waiting w.kind))
      && (w.wakeup_us == 0 || leb time w.wakeup_us)
    else false

unfoldable sleeps : Bool → ℕ → Thread → Option WakeupInfo → Bool
unfolding waits
sleeps pending time t none = false
sleeps pending time t (some w) = if is_reference_pending w.kind then not pending else waits t w time

-- `pending` is whether the VM's list of pending references is there.
unfoldable pub is_sleeping : Bool → ℕ → ThreadInfo → Bool
unfolding sleeps
is_sleeping pending time info = sleeps pending time info.thread info.wakeup_info

abbrev waiting_for : (WakeupKind → Bool) → ℕ → Option WakeupInfo → Bool
waiting_for kind obj none = false
waiting_for kind obj (some w) = kind w.kind && w.monitor == obj

-- Whether the thread waits, in the way that `kind` tests for, for the object's monitor.
abbrev pub waits_for : (WakeupKind → Bool) → ℕ → ThreadInfo → Bool
waits_for kind obj info = waiting_for kind obj info.wakeup_info

abbrev made_ready : Option WakeupInfo → Option WakeupInfo
made_ready none = none
made_ready (some w) = some (record w { ready = true })

abbrev pub set_ready : ThreadInfo → ThreadInfo
set_ready info = record info { wakeup_info = made_ready info.wakeup_info }

-- The loop that `monitor_notify_one` and `monitor_exit_handler` share: it ends at the first match.
unfoldable wake_first : (ThreadInfo → Bool) → List ThreadInfo → List ThreadInfo
wake_first p [] = []
wake_first p (i ∷ l) = if p i then set_ready i ∷ l else i ∷ wake_first p l

unfoldable pub monitor_notify_one : ℕ → List ThreadInfo → List ThreadInfo
unfolding wake_first
monitor_notify_one obj = wake_first (waits_for is_monitor_wait obj)

unfoldable pub monitor_notify_all : ℕ → List ThreadInfo → List ThreadInfo
monitor_notify_all obj [] = []
monitor_notify_all obj (i ∷ l) =
    (if waits_for is_monitor_wait obj i then set_ready i else i) ∷ monitor_notify_all obj l

unfoldable pub monitor_exit_handler : ℕ → List ThreadInfo → List ThreadInfo
unfolding wake_first
monitor_exit_handler obj = wake_first (waits_for is_enter_waiting obj)

unfoldable pub only_daemons_running : List ThreadInfo → Bool
only_daemons_running [] = true
only_daemons_running (i ∷ l) = if not i.thread.is_daemon then false else only_daemons_running l
