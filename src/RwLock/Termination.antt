-- ===== src/RwLock/Termination.antt =====
-- The calls of locks.h on a lock end or wait, whatever the counters are.
use file_system.Base.{ok, fault, blocked, Bool, true, false}
use file_system.Base.Meets.{Meets, Any, Outcome-if, Meets-next}
use file_system.RwLock.{
  Counters, RwLock, lock_mutex, unlock_mutex, change, wait_while, reader_enter, reader_exit,
  writer_enter, writer_exit, reader_waits, writer_waits, reader_entered, reader_left,
  writer_arrived, writer_left, writer_entered,
}

lock_mutex-Meets : Meets {A = Unit {0}} Any lock_mutex
lock_mutex-Meets = record {
  at = λ l.
      Outcome-if {S = RwLock} {A = Unit {0}} Any l.mutex blocked (ok tt (record l { mutex = true }))
        tt tt;
}

unlock_mutex-Meets : Meets {A = Unit {0}} Any unlock_mutex
unlock_mutex-Meets = record {
  at = λ l.
      Outcome-if {S = RwLock} {A = Unit {0}} Any l.mutex (ok tt (record l { mutex = false })) fault
        tt tt;
}

change-Meets : (f : Counters → Counters) → Meets {A = Unit {0}} Any (change f)
change-Meets f = record { at = λ l. tt }

wait_while-Meets : (test : Counters → Bool) → Meets {A = Unit {0}} Any (wait_while test)
wait_while-Meets test = record {
  at = λ l. Outcome-if {S = RwLock} {A = Unit {0}} Any (test l.counters) blocked (ok tt l) tt tt;
}

pub reader_enter-Meets : Meets {A = Unit {0}} Any reader_enter
unfolding reader_enter
reader_enter-Meets =
    Meets-next Any _ _ lock_mutex-Meets
      (Meets-next Any _ _ (wait_while-Meets reader_waits) (change-Meets reader_entered))

pub reader_exit-Meets : Meets {A = Unit {0}} Any reader_exit
unfolding reader_exit
reader_exit-Meets = Meets-next Any _ _ (change-Meets reader_left) unlock_mutex-Meets

pub writer_enter-Meets : Meets {A = Unit {0}} Any writer_enter
unfolding writer_enter
writer_enter-Meets = Meets-next Any _ _ lock_mutex-Meets (
    Meets-next Any _ _ (change-Meets writer_arrived)
      (Meets-next Any _ _ (wait_while-Meets writer_waits) (change-Meets writer_entered)))

pub writer_exit-Meets : Meets {A = Unit {0}} Any writer_exit
unfolding writer_exit
writer_exit-Meets = Meets-next Any _ _ (change-Meets writer_left) unlock_mutex-Meets
