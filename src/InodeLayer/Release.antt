-- ===== src/InodeLayer/Release.antt =====
-- read_file and write_file release the lock that they took, on every path.
use file_system.Base.{
  ℕ, lt→ltb, ◌<◌, ◌≡◌, refl, true, false, Bool, Bool-cases, some, none, Option, ok, fault, blocked,
  out_of_fuel, inl, inr, ◌⊎◌, Run, Cmd, and_then, update, bind-ok, ◌∙◌, ap, ◌≢◌, ==_of_eq, ==_of_ne,
}
use file_system.Base.Int.{ℤ, pos, negsuc, decrement, pos_part}
use file_system.Disk.{Disk, Block, Stack}
use file_system.BlockLayer.{BlockLayer, mounted}
use file_system.RwLock.{RwLock, reader_exit, writer_exit}
use file_system.RwLock.Idle.{idle, held_by_reader, held_by_writer}
use file_system.Inode.{Inode, get_inode}
use file_system.Inode.Table.{find_inode, get_inode-mounted}
use file_system.InodeLayer.{InodeLayer, on_bm, on_rwlock}
use file_system.InodeLayer.Locks.{
  layer, enter_reader, leave_reader, enter_writer, leave_writer, update_self, after_reader,
  after_writer, on_bm-ok,
}
use file_system.InodeLayer.Read.{read_file, read_found, read_contents}
use file_system.InodeLayer.Write.{write_file, write_found, write_contents, size_refused}

-- A size that write_file takes for no file: negative, or more than the 8 direct and 128 indirect blocks
-- of 512 bytes.
abbrev pub IsRefused : ℤ → Type 0
IsRefused (pos n) = 69632 < n
IsRefused (negsuc n) = Unit

IsRefused-refused : (size : ℤ) → IsRefused size → size_refused size ≡ true
unfolding size_refused
IsRefused-refused (pos n) h = lt→ltb 69632 n h
IsRefused-refused (negsuc n) h = refl

-- A run that ends normally leaves these locks.
abbrev Leaves : {A : Type 0} → (ℕ → RwLock) → Run InodeLayer A → Type 0
Leaves locks (ok a s) = s.rwlocks ≡ locks
Leaves locks fault = Unit
Leaves locks blocked = Unit
Leaves locks out_of_fuel = Unit

-- A command on the member `bm` changes no lock.
Leaves-on_bm :
    {A B : Type 0} (final locks : ℕ → RwLock) (m : Cmd BlockLayer A) (k : A → Cmd InodeLayer B)
    (b : BlockLayer) (r : Run BlockLayer A)
    → m b ≡ r
    → ((a : A) (b' : BlockLayer) → Leaves final (k a (layer b' locks)))
    → Leaves final (and_then (on_bm m (layer b locks)) k)
Leaves-on_bm final locks m k b (ok a b') e rest = rw (e, on_bm) (rest a b')
Leaves-on_bm final locks m k b fault e rest = rw (e, on_bm) tt
Leaves-on_bm final locks m k b blocked e rest = rw (e, on_bm) tt
Leaves-on_bm final locks m k b out_of_fuel e rest = rw (e, on_bm) tt

Leaves-ok :
    {A : Type 0} (final : ℕ → RwLock) (m : Run InodeLayer A) (a : A) (s : InodeLayer)
    → m ≡ ok a s
    → Leaves final m
    → s.rwlocks ≡ final
Leaves-ok final m a s e h = rw e at h

module _ (stack : Stack) (inum : ℕ) (small : inum < 1024) (locks : ℕ → RwLock) (r : ℤ)
    (free : locks inum ≡ idle r) where
  exit_reader :
      (b : BlockLayer)
      → on_rwlock inum reader_exit (layer b (update locks inum (held_by_reader r)))
        ≡ ok tt (layer b (after_reader locks inum r))
  exit_reader b =
      leave_reader inum small (update locks inum (held_by_reader r)) r b
        (update_self locks inum (held_by_reader r))

  exit_writer :
      (b : BlockLayer)
      → on_rwlock inum writer_exit (layer b (update locks inum (held_by_writer r)))
        ≡ ok tt (layer b (after_writer locks inum r))
  exit_writer b =
      leave_writer inum small (update locks inum (held_by_writer r)) r b
        (update_self locks inum (held_by_writer r))

  read_found-Leaves :
      (now : ℕ) (o : Option Inode) (b : BlockLayer)
      → Leaves
          (after_reader locks inum r)
          (read_found stack inum now o (layer b (update locks inum (held_by_reader r))))
  unfolding read_found
  read_found-Leaves now none b = rw (exit_reader b) refl
  read_found-Leaves now (some ino) b =
      Leaves-on_bm _ _ (read_contents stack inum ino now) _ b _ refl
        (λ a b'. rw (exit_reader b') refl)

  read_file-Leaves :
      (given : Bool) (now : ℕ) (b : BlockLayer)
      → Leaves (after_reader locks inum r) (read_file stack inum given now (layer b locks))
  unfolding read_file
  read_file-Leaves false now b = rw (enter_reader inum small locks r b free, exit_reader b) refl
  read_file-Leaves true now b = rw (enter_reader inum small locks r b free) (
      Leaves-on_bm _ _ (get_inode stack inum) (read_found stack inum now) b _ refl
        (read_found-Leaves now))

  write_found-Leaves :
      (buf : Block) (size : ℕ) (o : Option Inode) (b : BlockLayer)
      → Leaves
          (after_writer locks inum r)
          (write_found stack inum buf size o (layer b (update locks inum (held_by_writer r))))
  unfolding write_found
  write_found-Leaves buf size none b = rw (exit_writer b) refl
  write_found-Leaves buf size (some ino) b =
      Leaves-on_bm _ _ (write_contents stack inum ino buf size) (λ _. on_rwlock inum writer_exit) b
        _ refl (λ a b'. rw (exit_writer b') refl)

  write_file-Leaves :
      (buf : Block) (size : ℤ) (b : BlockLayer)
      → Leaves (after_writer locks inum r) (write_file stack inum buf size (layer b locks))
  unfolding write_file
  write_file-Leaves buf size b = elim (Bool-cases (size_refused size)) [
    | inl yes_refused ↦ rw (enter_writer inum small locks r b free, yes_refused, exit_writer b) refl
    | inr taken ↦
        rw (enter_writer inum small locks r b free, taken)
          (Leaves-on_bm _ _ (get_inode stack inum) (write_found stack inum buf (pos_part size)) b _
            refl (write_found-Leaves buf (pos_part size)))
  ]

  -- With the inode's lock idle, whatever the disk, the inode and the arguments are: where read_file ends
  -- normally, it has released the lock, which is idle again, and no other lock has changed.
  pub read_file-releases :
      (given : Bool) (now : ℕ) (b : BlockLayer) (out : Option (ℤ × Block)) (s : InodeLayer)
      → read_file stack inum given now (layer b locks) ≡ ok out s
      → (s.rwlocks inum ≡ idle (decrement r)) × ((i : ℕ) → i ≢ inum → s.rwlocks i ≡ locks i)
  read_file-releases given now b out s e =
      let h = Leaves-ok _ _ out s e (read_file-Leaves given now b) in
      (rw (h, ==_of_eq inum inum refl), λ i ne. rw (h, ==_of_ne i inum ne))

  -- With the inode's lock idle, whatever the disk, the inode and the arguments are: where write_file ends
  -- normally, it has released the lock, which is idle again, and no other lock has changed.
  pub write_file-releases :
      (buf : Block) (size : ℤ) (b : BlockLayer) (s : InodeLayer)
      → write_file stack inum buf size (layer b locks) ≡ ok tt s
      → (s.rwlocks inum ≡ idle r) × ((i : ℕ) → i ≢ inum → s.rwlocks i ≡ locks i)
  write_file-releases buf size b s e =
      let h = Leaves-ok _ _ tt s e (write_file-Leaves buf size b) in
      (rw (h, ==_of_eq inum inum refl), λ i ne. rw (h, ==_of_ne i inum ne))

  missing :
      (d : Disk) → find_inode d inum ≡ none → get_inode stack inum (mounted d) ≡ ok none (mounted d)
  missing d m = get_inode-mounted stack d inum ∙ ap (λ o. ok o (mounted d)) m

  -- With the inode's lock idle: write_file with a size that is negative or above 69632, or at an inode
  -- that is not in use, ends normally and changes nothing but the lock that it took and released.
  pub write_refused :
      (buf : Block) (size : ℤ) (d : Disk)
      → IsRefused size ⊎ (find_inode d inum ≡ none)
      → write_file stack inum buf size (layer (mounted d) locks)
        ≡ ok tt (layer (mounted d) (after_writer locks inum r))
  unfolding write_file write_found
  write_refused buf size d (inl e) =
      bind-ok _ (enter_writer inum small locks r (mounted d) free)
      ∙ rw (IsRefused-refused size e) (exit_writer (mounted d))
  write_refused buf size d (inr m) =
      bind-ok _ (enter_writer inum small locks r (mounted d) free)
      ∙ elim (Bool-cases (size_refused size)) [
        | inl e ↦ rw e (exit_writer (mounted d))
        | inr e ↦ rw e (
            bind-ok (write_found stack inum buf (pos_part size))
              (on_bm-ok (get_inode stack inum) (update locks inum (held_by_writer r)) (missing d m))
            ∙ exit_writer (mounted d))
      ]

  -- With the inode's lock idle: read_file at an inode that is not in use, or without places for its
  -- results, ends normally without a result and changes nothing but the lock that it took and released.
  pub read_refused :
      (given : Bool) (now : ℕ) (d : Disk)
      → (given ≡ false) ⊎ (find_inode d inum ≡ none)
      → read_file stack inum given now (layer (mounted d) locks)
        ≡ ok none (layer (mounted d) (after_reader locks inum r))
  unfolding read_file read_found
  read_refused false now d why =
      bind-ok _ (enter_reader inum small locks r (mounted d) free)
      ∙ bind-ok _ (exit_reader (mounted d))
  read_refused true now d (inl e) = cc
  read_refused true now d (inr m) =
      bind-ok _ (enter_reader inum small locks r (mounted d) free)
      ∙ (bind-ok (read_found stack inum now)
            (on_bm-ok (get_inode stack inum) (update locks inum (held_by_reader r)) (missing d m))
          ∙ bind-ok _ (exit_reader (mounted d)))
