-- ===== src/Monitor/Owner.antt =====
-- vm/monitors.c: what the monitors stand for, a reentrant lock for each object.
use b_jvm.Common.{ℕ, ◌+◌, ◌-◌, ◌<◌, ◌≤◌, Bool, Option, none, some, ◌==◌, if◌then◌else◌}
use b_jvm.Monitor.{
  HeaderWord, World, Outcome, monitor_acquire, monitor_reacquire_hold_count,
  current_thread_hold_count, monitor_release_all_hold_count, monitor_release, no_wakeup,
}

-- A lock that was never taken, a free one, or its owner and how often the owner has taken it.
pub data Lock : Type 0 where
  fresh : Lock
  free : Lock
  held : ℕ → ℕ → Lock

abbrev lock_of : Option ℕ → ℕ → Lock
lock_of none c = Lock.free
lock_of (some o) c = Lock.held o c

abbrev pub owner : HeaderWord → Lock
owner (HeaderWord.mark_word m) = Lock.fresh
owner (HeaderWord.expanded_data d) = lock_of d.tid d.hold_count

-- `acquire` says whether there is memory for the monitor's data.
pub data Action : Type 0 where
  acquire : Bool → Action
  release : Action
  release_all : Action
  reacquire : ℕ → Action
  query : Action

pub data Answer : Type 0 where
  ok : Answer
  refused : Answer
  blocked : Answer
  fault : Answer
  count : ℕ → Answer

abbrev pub answer : Outcome → Answer
answer Outcome.ok = Answer.ok
answer Outcome.refused = Answer.refused
answer (Outcome.blocked w) = Answer.blocked
answer Outcome.fault = Answer.fault

-- The lock of the specification, and what it answers to a thread.
abbrev pub lock_step : Action → ℕ → Lock → Answer × Lock
lock_step (Action.acquire room) t Lock.fresh =
    if room then (Answer.ok, Lock.held t 1) else (Answer.refused, Lock.fresh)
lock_step (Action.acquire room) t Lock.free = (Answer.ok, Lock.held t 1)
lock_step (Action.acquire room) t (Lock.held o c) =
    if o == t then (Answer.ok, Lock.held o (c + 1)) else (Answer.blocked, Lock.held o c)
lock_step Action.release t (Lock.held o c) =
    if o == t
    then (Answer.ok, (if c - 1 == 0 then Lock.free else Lock.held o (c - 1)))
    else (Answer.refused, Lock.held o c)
lock_step Action.release t l = (Answer.refused, l)
lock_step Action.release_all t (Lock.held o c) =
    if o == t then (Answer.count c, Lock.free) else (Answer.count 0, Lock.held o c)
lock_step Action.release_all t l = (Answer.count 0, l)
lock_step (Action.reacquire n) t Lock.fresh = (Answer.fault, Lock.fresh)
lock_step (Action.reacquire n) t Lock.free = (Answer.ok, Lock.held t n)
lock_step (Action.reacquire n) t (Lock.held o c) =
    if o == t then (Answer.refused, Lock.held o c) else (Answer.blocked, Lock.held o c)
lock_step Action.query t (Lock.held o c) =
    if o == t then (Answer.count c, Lock.held o c) else (Answer.count 0, Lock.held o c)
lock_step Action.query t l = (Answer.count 0, l)

abbrev pub answering : Outcome × World → Answer × World
answering (o, w) = (answer o, w)

abbrev pub counting : ℕ × World → Answer × World
counting (n, w) = (Answer.count n, w)

-- The code's operation on an object, from the start of its call.
unfoldable pub perform : Action → ℕ → ℕ → World → Answer × World
unfolding monitor_acquire monitor_release monitor_release_all_hold_count
    monitor_reacquire_hold_count current_thread_hold_count
perform (Action.acquire room) t obj w = answering (monitor_acquire room t obj w)
perform Action.release t obj w = answering (monitor_release t obj w)
perform Action.release_all t obj w = counting (monitor_release_all_hold_count t obj w)
perform (Action.reacquire n) t obj w = answering (monitor_reacquire_hold_count t obj n no_wakeup w)
perform Action.query t obj w = (Answer.count (current_thread_hold_count t obj w), w)

-- How many holds an action may add.
abbrev pub weight : Action → ℕ
weight (Action.acquire room) = 1
weight (Action.reacquire n) = n
weight _ = 0

-- A held lock is held at least once, and not more often than `bound`.
abbrev pub IsWithin : ℕ → Lock → Type 0
IsWithin bound (Lock.held o c) = (0 < c) × (c ≤ bound)
IsWithin bound l = Unit

-- A monitor that is let go of is taken back with a positive count.
abbrev pub IsRequest : Action → Type 0
IsRequest (Action.reacquire n) = 0 < n
IsRequest _ = Unit
