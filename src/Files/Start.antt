-- ===== src/Files/Start.antt =====
-- Sessions of a client whose file system was just constructed.
use file_system.InodeLayer.Locks.{layer}
use file_system.Base.{
  ==_of_ne, ℕ, zero, suc, ◌+◌, ◌≤◌, ◌<◌, ◌≡◌, ◌≢◌, ok, refl, sym, arith, List, [], some, none,
  eq_or_ne, inl, inr, update, subst, true, false, lt→leb,
}
use file_system.Disk.{Disk, Stack, block_num, direct_buffer}
use file_system.Disk.Laws.{IsBytes}
use file_system.BlockLayer.Bitmap.{used}
use file_system.BlockLayer.Space.{free_count}
use file_system.RwLock.{init_rwlock}
use file_system.Base.Int.{pos}
use file_system.InodeLayer.{InodeLayer, init_inode_layer, new_inode}
use file_system.Inode.{Inode}
use file_system.Inode.Table.{inode_at, find_inode, find_inode-some}
use file_system.InodeLayer.Init.{init_inode_layer_lem}
use file_system.InodeLayer.Write.Stored.{IsBuffer}
use file_system.Files.{Files, Request, replies, AllAllowed, puts}
use file_system.Files.Represents.{IsEntry, Entry, IsLive, Represents}
use file_system.Files.Session.{serve, serve_refines}
use file_system.BlockLayer.{mounted, Mutex, unlocked}
use file_system.BlockLayer.Alloc.{first_data}

-- The root directory alone.
abbrev pub fresh : Files
fresh = update (λ _. none) 0 (some (record { type = 1; content = [] }))

find_inode-type : (d : Disk) (i : ℕ) → i < 1024 → find_inode d i ≡ none → (inode_at d i).type ≡ 0
unfolding find_inode
find_inode-type d i lt e = ground (arith, lt→leb 1024 i lt)

free_count-all :
    (d : Disk) (k id : ℕ)
    → id + k ≤ block_num
    → ((j : ℕ) → j < block_num → used d j ≡ false)
    → free_count d k id ≡ k
unfolding free_count
free_count-all d zero id h free = refl
free_count-all d (suc k) id h free =
    rw (free id (omega arith)) (omega (arith, free_count-all d k (suc id) (omega arith) free))

module _ (d : Disk) (time : ℕ → ℕ) (root : find_inode d 0 ≡ some (new_inode 1 time))
    (others : (j : ℕ) → j ≢ 0 → find_inode d j ≡ none) (bytes : IsBytes d) where
  root_struct : inode_at d 0 ≡ new_inode 1 time
  root_struct = sym (find_inode-some d 0 (new_inode 1 time) root).1

  root-IsEntry : IsEntry d (inode_at d 0) (record { type = 1; content = [] })
  root-IsEntry = rw root_struct (record {
    type = refl;
    positive = omega arith;
    fits = omega arith;
    size = refl;
    short = omega arith;
    bytes = λ i. omega arith;
    held = λ j lt. absurd (omega arith);
    clear = λ j le. refl;
  })

  fresh-entry : (i : ℕ) → i < 1024 → Entry d (inode_at d i) (fresh i)
  fresh-entry i lt = elim (eq_or_ne i 0) [
    | inl e ↦ rw e root-IsEntry
    | inr ne ↦ rw (==_of_ne i 0 ne) (find_inode-type d i lt (others i ne))
  ]

  no_live : (i k : ℕ) → i < 1024 → IsLive (inode_at d i) k → ⊥
  no_live i k lt live = elim (eq_or_ne i 0) [
    | inl e ↦
        let at : IsLive (inode_at d 0) k = subst (λ (j : ℕ). IsLive (inode_at d j) k) e live in
        let new : IsLive (new_inode 1 time) k =
          subst (λ (ino : Inode). IsLive ino k) root_struct at in
        omega (arith, new.1)
    | inr ne ↦ live.0 (find_inode-type d i lt (others i ne))
  ]

  fresh-Represents : Represents d fresh
  fresh-Represents = record {
    bytes = bytes;
    entry = fresh-entry;
    apart = λ i j k l hi hj li lj ne. absurd (no_live i k hi li);
  }

-- Where the memory for the mutex of the bitmap happens to hold an unlocked one, the constructor leaves
-- the files of that map, and all 32645 data blocks free.
pub init-Represents :
    (stack : Stack) (time : ℕ → ℕ)
    → (d : Disk) × (init_inode_layer stack unlocked time
        ≡ ok true (layer (mounted d) (λ i. init_rwlock)))
      × Represents d fresh
      × (free_count d 32645 first_data ≡ 32645)
init-Represents stack time =
    let (d, run, root, others, free, bytes, _) = init_inode_layer_lem stack unlocked time in
    (
      d,
      run,
      fresh-Represents d time root others bytes,
      free_count-all d 32645 first_data (omega arith) free,
    )

-- For local buffers that hold bytes, and where the memory for the mutex of the bitmap, which the
-- constructor does not initialise, happens to hold an unlocked mutex: the constructor ends normally, and
-- then every sequence of requests that is allowed from the root directory alone, with at most 4080 puts,
-- ends normally with the answers of the map.
pub serve-init_refines :
    (stack : Stack)
    → ((k : ℕ) → IsBuffer (stack direct_buffer k))
    → (time clock : ℕ → ℕ) (qs : List Request) → AllAllowed qs fresh
    → puts qs ≤ 4080
    → (mutex : Mutex) → mutex ≡ unlocked
    → (s s' : InodeLayer) × (init_inode_layer stack mutex time ≡ ok true s)
      × (serve stack clock qs s ≡ ok (replies qs fresh) s')
serve-init_refines stack stack_bytes time clock qs allowed few mutex is_unlocked =
    let (d, run, files, room) = init-Represents stack time in
    let (d', locks', e, _, _) =
      serve_refines stack stack_bytes 32645 (omega arith) qs clock d (λ i. init_rwlock) fresh files
        (λ i lt. (pos 0, refl)) allowed (omega (arith, room)) in
    (_, _, rw is_unlocked run, e)
