-- ===== src/RwLock/System.antt =====
-- Any number of threads that use one a4_rwlock, interleaved in any order. A step is what one thread
-- does while it holds the mutex, up to the next test, wait or exit; wake-ups may come at any time.
use file_system.Base.{ℕ, ◌≡◌, true, false, Option, none, some, update}
use file_system.RwLock.{
  Counters, init_counters, reader_waits, writer_waits, reader_entered, writer_arrived,
  writer_entered, reader_left, writer_left,
}

-- Where a thread stands: outside, before the test of a while loop, in pthread_cond_wait, or between an
-- enter and its exit.
pub data Pc : Type 0 where
  outside reader_test reader_asleep reading writer_test writer_asleep writing : Pc

-- What a step does to the mutex.
pub data Action : Type 0 where
  take keep release : Action

pub data Move (c : Counters) : Pc → Action → Counters → Pc → Type 0 where
  reader_arrives : Move c outside take c reader_test
  reader_sleeps : reader_waits c ≡ true → Move c reader_test release c reader_asleep
  reader_wakes : Move c reader_asleep take c reader_test
  reader_enters : reader_waits c ≡ false → Move c reader_test keep (reader_entered c) reading
  reader_leaves : Move c reading release (reader_left c) outside
  writer_arrives : Move c outside take (writer_arrived c) writer_test
  writer_sleeps : writer_waits c ≡ true → Move c writer_test release c writer_asleep
  writer_wakes : Move c writer_asleep take c writer_test
  writer_enters : writer_waits c ≡ false → Move c writer_test keep (writer_entered c) writing
  writer_leaves : Move c writing release (writer_left c) outside

-- `holder` is the thread that has the mutex locked.
pub record System : Type 0 where
  pub counters : Counters
  pub holder : Option ℕ
  pub pc : ℕ → Pc

abbrev pub holder_after : Action → ℕ → Option ℕ → Option ℕ
holder_after take i h = some i
holder_after keep i h = h
holder_after release i h = none

-- A step of thread i; to take the mutex it must be free.
pub data Step (s : System) : System → Type 0 where
  pick :
      (i : ℕ) {a : Action} {c : Counters} {p : Pc}
      → Move s.counters (s.pc i) a c p
      → (a ≡ take → s.holder ≡ none)
      → Step s (record { counters = c; holder = holder_after a i s.holder; pc = update s.pc i p })

abbrev pub init : System
init = record { counters = init_counters; holder = none; pc = λ i. outside }

pub data Reach : System → Type 0 where
  start : Reach init
  later : {s t : System} → Reach s → Step s t → Reach t
