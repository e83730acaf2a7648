-- ===== src/Monitor.antt =====
-- vm/monitors.c: the monitors of objects, as reentrant locks. The VM is single-threaded: nothing
-- runs between the loads and the compare-exchanges of one call, so that these succeed where their
-- operands match, and an asynchronous function is cut only where it yields. A handle is the object
-- it stands for, a number. No thread has the `tid` -1, NOT_HELD_TID, which is none here.
mod Owner
mod Refine
mod Interleave
mod Handover
mod Others
mod Exclusion
mod Tests
use b_jvm.Common.{
  ℕ, ◌+◌, ◌-◌, ◌≡◌, Bool, true, false, ◌&&◌, not, List, [], ◌∷◌, Option, none, some, ◌==◌,
  if◌then◌else◌, u32,
}
use b_jvm.Scheduler.{WakeupKind, WakeupInfo, ThreadInfo, monitor_exit_handler}

pub record MonitorData : Type 0 where
  pub mark_word : ℕ
  pub tid : Option ℕ
  pub hold_count : ℕ

-- The two readings of the word at the start of an object, told apart by its lowest bit.
pub data HeaderWord : Type 0 where
  mark_word : ℕ → HeaderWord
  expanded_data : MonitorData → HeaderWord

pub record World : Type 0 where
  pub headers : ℕ → HeaderWord
  pub round_robin : List ThreadInfo

abbrev inspect_monitor : HeaderWord → Option MonitorData
inspect_monitor (HeaderWord.mark_word m) = none
inspect_monitor (HeaderWord.expanded_data d) = some d

abbrev update {ℓ} : {A : Type ℓ} → (ℕ → A) → ℕ → A → ℕ → A
update f o a p = if p == o then a else f p

abbrev store : ℕ → MonitorData → World → World
store obj d w = record w { headers = update w.headers obj (HeaderWord.expanded_data d) }

abbrev is_held_by : ℕ → MonitorData → Bool
is_held_by tid d = elim d.tid [ none ↦ false | some o ↦ o == tid ]

abbrev is_free : MonitorData → Bool
is_free d = elim d.tid [ none ↦ true | some o ↦ false ]

-- What a call comes to: 0 or -1, a yield, which leaves the function's own wake-up record behind, or
-- a failed assertion.
pub data Outcome : Type 0 where
  ok : Outcome
  refused : Outcome
  blocked : WakeupInfo → Outcome
  fault : Outcome

-- As the function's frame starts.
abbrev no_wakeup : WakeupInfo
no_wakeup = record { kind = WakeupKind.yielding; wakeup_us = 0; monitor = 0; ready = false }

-- The fields that are set before the yield; `ready` is not one of them.
abbrev enter_waiting : ℕ → WakeupInfo → WakeupInfo
enter_waiting obj self = record self {
  kind = WakeupKind.monitor_enter_waiting;
  wakeup_us = 0;
  monitor = obj;
}

-- One round of the loop of `monitor_acquire` that takes the monitor.
unfoldable try_acquire : ℕ → ℕ → WakeupInfo → MonitorData → World → Outcome × World
try_acquire tid obj self d w =
    if is_free d
    then (Outcome.ok, store obj (record d { tid = some tid; hold_count = 1 }) w)
    else if is_held_by tid d
    then (Outcome.ok, store obj (record d { hold_count = u32 (d.hold_count + 1) }) w)
    else (Outcome.blocked (enter_waiting obj self), w)

-- The loop, where it is entered anew after a yield; the monitor's data is there by then.
unfoldable resume_acquire : ℕ → ℕ → WakeupInfo → World → Outcome × World
unfolding try_acquire
resume_acquire tid obj self w = elim (inspect_monitor (w.headers obj)) [
  | none ↦ (Outcome.fault, w)
  | some d ↦ try_acquire tid obj self d w
]

abbrev new_monitor : ℕ → MonitorData
new_monitor m = record { mark_word = m; tid = none; hold_count = 0 }

-- `room` is whether `allocate_monitor_for` succeeds.
unfoldable acquire_header : Bool → ℕ → ℕ → HeaderWord → World → Outcome × World
unfolding try_acquire
acquire_header room tid obj (HeaderWord.mark_word m) w =
    if room
    then try_acquire tid obj no_wakeup (new_monitor m) (store obj (new_monitor m) w)
    else (Outcome.refused, w)
acquire_header room tid obj (HeaderWord.expanded_data d) w = try_acquire tid obj no_wakeup d w

unfoldable monitor_acquire : Bool → ℕ → ℕ → World → Outcome × World
unfolding acquire_header
monitor_acquire room tid obj w = acquire_header room tid obj (w.headers obj) w

unfoldable try_reacquire : ℕ → ℕ → ℕ → WakeupInfo → MonitorData → World → Outcome × World
try_reacquire tid obj count self d w =
    if is_free d
    then (Outcome.ok, store obj (record d { tid = some tid; hold_count = count }) w)
    else if is_held_by tid d
    then (Outcome.refused, w)
    else (Outcome.blocked (enter_waiting obj self), w)

-- From the start or after a yield: the function does not tell the two apart.
unfoldable reacquire_header : ℕ → ℕ → ℕ → WakeupInfo → HeaderWord → World → Outcome × World
unfolding try_reacquire
reacquire_header tid obj count self (HeaderWord.mark_word m) w = (Outcome.fault, w)
reacquire_header tid obj count self (HeaderWord.expanded_data d) w =
    try_reacquire tid obj count self d w

unfoldable monitor_reacquire_hold_count : ℕ → ℕ → ℕ → WakeupInfo → World → Outcome × World
unfolding reacquire_header
monitor_reacquire_hold_count tid obj count self w =
    reacquire_header tid obj count self (w.headers obj) w

abbrev held_count : ℕ → HeaderWord → ℕ
held_count tid (HeaderWord.mark_word m) = 0
held_count tid (HeaderWord.expanded_data d) = if not (is_held_by tid d) then 0 else d.hold_count

unfoldable current_thread_hold_count : ℕ → ℕ → World → ℕ
current_thread_hold_count tid obj w = held_count tid (w.headers obj)

-- The monitor is let go of and the first thread that waits to enter is woken.
unfoldable let_go : ℕ → MonitorData → World → World
unfolding monitor_exit_handler
let_go obj d w = record (store obj (record d { tid = none; hold_count = 0 }) w) {
  round_robin = monitor_exit_handler obj w.round_robin;
}

unfoldable release_all_header : ℕ → ℕ → HeaderWord → World → ℕ × World
unfolding let_go
release_all_header tid obj (HeaderWord.mark_word m) w = (0, w)
release_all_header tid obj (HeaderWord.expanded_data d) w =
    if not (is_held_by tid d)
    then (0, w)
    else if d.hold_count == 0
    then (0, w)
    else (d.hold_count, let_go obj d w)

unfoldable monitor_release_all_hold_count : ℕ → ℕ → World → ℕ × World
unfolding release_all_header
monitor_release_all_hold_count tid obj w = release_all_header tid obj (w.headers obj) w

unfoldable release_header : ℕ → ℕ → HeaderWord → World → Outcome × World
unfolding let_go
release_header tid obj (HeaderWord.mark_word m) w = (Outcome.refused, w)
release_header tid obj (HeaderWord.expanded_data d) w =
    if not (is_held_by tid d)
    then (Outcome.refused, w)
    else if d.hold_count == 0
    then (Outcome.refused, w)
    else if d.hold_count - 1 == 0
    then (Outcome.ok, let_go obj d w)
    else (Outcome.ok, store obj (record d { hold_count = d.hold_count - 1 }) w)

unfoldable monitor_release : ℕ → ℕ → World → Outcome × World
unfolding release_header
monitor_release tid obj w = release_header tid obj (w.headers obj) w
