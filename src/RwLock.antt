-- ===== src/RwLock.antt =====
-- The read/write lock of locks.h: class a4_rwlock, its counters, and what one caller does to it.
pub mod Idle
pub mod System
pub mod Exclusion
pub mod Termination
pub mod Progress
use file_system.Base.{Bool, true, false, ◌||◌, if◌then◌else◌, ok, blocked, Cmd, ◌>>◌, fault}
use file_system.Base.Int.{ℤ, pos, increment, decrement, is_positive, is_zero}

-- The counters; C's ints, without the overflow that is undefined there.
pub record Counters : Type 0 where
  pub waiting_writers : ℤ
  pub waiting_readers : ℤ
  pub active_writers : ℤ
  pub active_readers : ℤ

-- class a4_rwlock; `mutex` is true while the member `lock` is locked.
pub record RwLock : Type 0 where
  pub counters : Counters
  pub mutex : Bool

-- a4_rwlock::a4_rwlock
abbrev pub init_counters : Counters
init_counters = record {
  waiting_writers = pos 0;
  waiting_readers = pos 0;
  active_writers = pos 0;
  active_readers = pos 0;
}

abbrev pub init_rwlock : RwLock
init_rwlock = record { counters = init_counters; mutex = false }

-- Which condition variable an exit wakes.
pub data Signal : Type 0 where
  no_signal signal_can_write broadcast_can_read : Signal

-- The tests of the two while loops.
unfoldable pub reader_waits : Counters → Bool
reader_waits c = is_positive c.active_writers || is_positive c.waiting_writers

unfoldable pub writer_waits : Counters → Bool
writer_waits c = is_positive c.active_writers || is_positive c.active_readers

-- What reader_enter does behind its loop, and writer_enter before and behind its loop.
unfoldable pub reader_entered : Counters → Counters
reader_entered c = record c {
  waiting_readers = decrement c.waiting_readers;
  active_readers = increment c.active_readers;
}

unfoldable pub writer_arrived : Counters → Counters
writer_arrived c = record c { waiting_writers = increment c.waiting_writers }

unfoldable pub writer_entered : Counters → Counters
writer_entered c = record c {
  waiting_writers = decrement c.waiting_writers;
  active_writers = pos 1;
}

-- What the exits do before they unlock.
unfoldable pub reader_left : Counters → Counters
reader_left c = record c { active_readers = decrement c.active_readers }

unfoldable pub reader_signal : Counters → Signal
reader_signal c =
    if is_zero c.active_readers
    then (if is_positive c.waiting_writers then signal_can_write else no_signal)
    else no_signal

unfoldable pub writer_left : Counters → Counters
writer_left c = record c { active_writers = pos 0 }

unfoldable pub writer_signal : Counters → Signal
writer_signal c =
    if is_positive c.waiting_writers
    then signal_can_write
    else (if is_positive c.waiting_readers then broadcast_can_read else no_signal)

abbrev pub lock_mutex : Cmd RwLock (Unit {0})
lock_mutex l = if l.mutex then blocked else ok tt (record l { mutex = true })

-- To unlock a mutex that is not locked is undefined.
abbrev pub unlock_mutex : Cmd RwLock (Unit {0})
unlock_mutex l = if l.mutex then ok tt (record l { mutex = false }) else fault

abbrev pub change : (Counters → Counters) → Cmd RwLock (Unit {0})
change f l = ok tt (record l { counters = f l.counters })

-- pthread_cond_wait, for a caller on its own: nobody else can wake it.
abbrev pub wait_while : (Counters → Bool) → Cmd RwLock (Unit {0})
wait_while test l = if test l.counters then blocked else ok tt l

-- reader_enter keeps the mutex, and reader_exit unlocks it; so do the writer's two. A lone caller's
-- signals reach nobody.
unfoldable pub reader_enter : Cmd RwLock (Unit {0})
unfolding reader_waits reader_entered
reader_enter = do lock_mutex; wait_while reader_waits; change reader_entered

unfoldable pub reader_exit : Cmd RwLock (Unit {0})
unfolding reader_left
reader_exit = do change reader_left; unlock_mutex

unfoldable pub writer_enter : Cmd RwLock (Unit {0})
unfolding writer_waits writer_arrived writer_entered
writer_enter = do lock_mutex; change writer_arrived; wait_while writer_waits; change writer_entered

unfoldable pub writer_exit : Cmd RwLock (Unit {0})
unfolding writer_left
writer_exit = do change writer_left; unlock_mutex
