-- ===== src/InodeLayer/Locks.antt =====
-- The calls on rwlocks[inum] around the file operations, at a lock that is idle.
use file_system.Base.{ℕ, ◌<◌, ◌≡◌, refl, ok, update, lt→leb, ==_of_eq, Cmd}
use file_system.Base.Int.{ℤ, decrement}
use file_system.BlockLayer.{BlockLayer}
use file_system.RwLock.{RwLock, reader_enter, reader_exit, writer_enter, writer_exit}
use file_system.RwLock.Idle.{
  idle, held_by_reader, held_by_writer, reader_enter-idle, reader_exit-held, writer_enter-idle,
  writer_exit-held,
}
use file_system.InodeLayer.{InodeLayer, on_rwlock, on_bm}

abbrev pub layer : BlockLayer → (ℕ → RwLock) → InodeLayer
layer b locks = record { bm = b; rwlocks = locks }

module _ (inum : ℕ) (small : inum < 1024) (locks : ℕ → RwLock) (r : ℤ) (b : BlockLayer) where
  pub enter_reader :
      locks inum ≡ idle r
      → on_rwlock inum reader_enter (layer b locks)
        ≡ ok tt (layer b (update locks inum (held_by_reader r)))
  unfolding on_rwlock
  enter_reader e = rw (lt→leb 1024 inum small, e, reader_enter-idle r)

  pub enter_writer :
      locks inum ≡ idle r
      → on_rwlock inum writer_enter (layer b locks)
        ≡ ok tt (layer b (update locks inum (held_by_writer r)))
  unfolding on_rwlock
  enter_writer e = rw (lt→leb 1024 inum small, e, writer_enter-idle r)

  pub leave_reader :
      locks inum ≡ held_by_reader r
      → on_rwlock inum reader_exit (layer b locks)
        ≡ ok tt (layer b (update locks inum (idle (decrement r))))
  unfolding on_rwlock
  leave_reader e = rw (lt→leb 1024 inum small, e, reader_exit-held r)

  pub leave_writer :
      locks inum ≡ held_by_writer r
      → on_rwlock inum writer_exit (layer b locks) ≡ ok tt (layer b (update locks inum (idle r)))
  unfolding on_rwlock
  leave_writer e = rw (lt→leb 1024 inum small, e, writer_exit-held r)

-- The cell that was just written.
pub update_self : (locks : ℕ → RwLock) (i : ℕ) (l : RwLock) → update locks i l i ≡ l
update_self locks i l = rw (==_of_eq i i refl)

-- The locks after a call that took and released one.
abbrev pub after_reader : (ℕ → RwLock) → ℕ → ℤ → ℕ → RwLock
after_reader locks inum r = update (update locks inum (held_by_reader r)) inum (idle (decrement r))

abbrev pub after_writer : (ℕ → RwLock) → ℕ → ℤ → ℕ → RwLock
after_writer locks inum r = update (update locks inum (held_by_writer r)) inum (idle r)

pub on_bm-ok :
    {A : Type 0} (m : Cmd BlockLayer A) (locks : ℕ → RwLock) {b b' : BlockLayer} {a : A}
    → m b ≡ ok a b'
    → on_bm m (layer b locks) ≡ ok a (layer b' locks)
on_bm-ok m locks e = rw (e, on_bm)
