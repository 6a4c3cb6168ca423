-- ===== src/RwLock/Idle.antt =====
-- A lock that nobody holds or waits for, as each call finds it and leaves it.
use file_system.Base.{◌≡◌, refl, true, false, ok}
use file_system.Base.Int.{ℤ, pos, increment, decrement, is_positive}
use file_system.RwLock.{RwLock, reader_enter, reader_exit, writer_enter, writer_exit}

-- The count of waiting readers is left open: reader_enter takes one away, and nothing adds to it.
abbrev pub idle : ℤ → RwLock
idle readers = record {
  counters = record {
    waiting_writers = pos 0;
    waiting_readers = readers;
    active_writers = pos 0;
    active_readers = pos 0;
  };
  mutex = false;
}

abbrev pub held_by_reader : ℤ → RwLock
held_by_reader readers = record {
  counters = record {
    waiting_writers = pos 0;
    waiting_readers = decrement readers;
    active_writers = pos 0;
    active_readers = pos 1;
  };
  mutex = true;
}

abbrev pub held_by_writer : ℤ → RwLock
held_by_writer readers = record {
  counters = record {
    waiting_writers = pos 0;
    waiting_readers = readers;
    active_writers = pos 1;
    active_readers = pos 0;
  };
  mutex = true;
}

pub reader_enter-idle : (r : ℤ) → reader_enter (idle r) ≡ ok tt (held_by_reader r)
unfolding reader_enter increment is_positive
reader_enter-idle r = refl

pub reader_exit-held : (r : ℤ) → reader_exit (held_by_reader r) ≡ ok tt (idle (decrement r))
unfolding reader_exit decrement
reader_exit-held r = refl

pub writer_enter-idle : (r : ℤ) → writer_enter (idle r) ≡ ok tt (held_by_writer r)
unfolding writer_enter increment decrement is_positive
writer_enter-idle r = refl

pub writer_exit-held : (r : ℤ) → writer_exit (held_by_writer r) ≡ ok tt (idle r)
unfolding writer_exit
writer_exit-held r = refl
