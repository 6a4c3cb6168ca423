-- ===== src/InodeLayer.antt =====
-- The inode layer of inode_layer.cc: its state, inode allocation, attributes and the constructor.
-- The files below model read_file, write_file and remove_file.
pub mod Read
pub mod Write
pub mod Remove
pub mod Locks
pub mod Alloc
pub mod RoundTrip
pub mod LargeFiles
pub mod Gap
pub mod Release
pub mod Init
pub mod Unlocked
pub mod Termination
use file_system.Base.{
  ℕ, zero, suc, ◌+◌, ◌-◌, ◌%◌, ◌^◌, Option, none, some, ltb, leb, ◌==◌, if◌then◌else◌, update, Run,
  ok, fault, blocked, out_of_fuel, Cmd, pure, and_then, ◌>>=◌, ◌>>◌, Bool,
}
use file_system.Disk.{Stack}
use file_system.BlockLayer.{BlockLayer, inode_num, init_block_layer, Mutex}
use file_system.RwLock.{RwLock, init_rwlock}
use file_system.Inode.{Inode, get_inode, put_inode}

-- class inode_layer
pub record InodeLayer : Type 0 where
  pub bm : BlockLayer
  pub rwlocks : ℕ → RwLock

-- A command on the member `bm`.
abbrev pub on_bm : {A : Type 0} → Cmd BlockLayer A → Cmd InodeLayer A
on_bm m s = elim (m s.bm) [
  | ok a b ↦ ok a (record s { bm = b })
  | fault ↦ fault
  | blocked ↦ blocked
  | out_of_fuel ↦ out_of_fuel
]

-- A call on rwlocks[inum]; an index behind the array is undefined behaviour.
unfoldable pub on_rwlock : ℕ → Cmd RwLock (Unit {0}) → Cmd InodeLayer (Unit {0})
on_rwlock inum m s = if leb inode_num inum then fault else elim (m (s.rwlocks inum)) [
  | ok a l ↦ ok a (record s { rwlocks = update s.rwlocks inum l })
  | fault ↦ fault
  | blocked ↦ blocked
  | out_of_fuel ↦ out_of_fuel
]

-- `new inode()`, with the fields that alloc_inode sets; a time_t is cut to its low 32 bits, and the
-- type to a short.
abbrev pub new_inode : ℕ → (ℕ → ℕ) → Inode
new_inode type time = record {
  type = type % 2 ^ 16;
  size = 0;
  atime = time 0 % 2 ^ 32;
  mtime = time 2 % 2 ^ 32;
  ctime = time 1 % 2 ^ 32;
  blocks = λ k. 0;
}

-- The fields of fs_protocol::attr that getattr fills.
pub record Attr : Type 0 where
  pub type : ℕ
  pub atime : ℕ
  pub mtime : ℕ
  pub ctime : ℕ
  pub size : ℕ

-- A short as a uint32_t.
abbrev pub sign_extend : ℕ → ℕ
sign_extend w = if ltb w (2 ^ 15) then w else w + 2 ^ 32 - 2 ^ 16

module _ (stack : Stack) where
  -- The search of alloc_inode from inode x on; 0 if every inode is in use.
  unfoldable pub find_slot : ℕ → ℕ → Cmd BlockLayer ℕ
  find_slot zero x = pure 0
  find_slot (suc rounds) x = do
    this_one ← get_inode stack x
    elim this_one [ none ↦ pure x | some _ ↦ find_slot rounds (suc x) ]

  -- inode_layer::alloc_inode; `time n` is what its call number n of time returns.
  unfoldable pub alloc_inode : ℕ → (ℕ → ℕ) → Cmd BlockLayer ℕ
  unfolding find_slot
  alloc_inode type time = do
    where_to_alloc ← find_slot inode_num 0
    put_inode stack where_to_alloc (some (new_inode type time))
    pure where_to_alloc

  -- inode_layer::free_inode; it writes through the pointer that get_inode returns, NULL or not.
  unfoldable pub free_inode : ℕ → Cmd BlockLayer (Unit {0})
  free_inode inum = do
    ino ← get_inode stack inum
    elim ino [
      | none ↦ λ _. fault
      | some ino ↦ put_inode stack inum (some (record ino { type = 0 }))
    ]

  -- inode_layer::getattr; the caller's attributes are left alone when there is no such inode.
  unfoldable pub getattr : ℕ → Attr → Cmd BlockLayer Attr
  getattr inum a = do
    ino ← get_inode stack inum
    elim ino [
      | none ↦ pure a
      | some ino ↦ pure (record {
        type = sign_extend ino.type;
        atime = ino.atime;
        mtime = ino.mtime;
        ctime = ino.ctime;
        size = ino.size;
      })
    ]

  -- inode_layer::inode_layer, with T_DIR = 1; `false` stands for exit(0). The memory from
  -- `new` holds `mutex` where bitmap_mutex is.
  unfoldable pub init_inode_layer : Mutex → (ℕ → ℕ) → Run InodeLayer Bool
  unfolding alloc_inode
  init_inode_layer mutex time =
      and_then
        (on_bm (alloc_inode 1 time)
          (record { bm = init_block_layer mutex; rwlocks = λ i. init_rwlock }))
        λ root_dir. pure (root_dir == 0)
