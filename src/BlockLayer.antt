-- ===== src/BlockLayer.antt =====
-- The block layer of inode_layer.cc: class block_layer, with the bitmap of allocated blocks.
pub mod Blocks
pub mod Bitmap
pub mod Alloc
pub mod Space
pub mod Pointers
pub mod Reuse
pub mod Termination
use file_system.Base.{
  ℕ, zero, suc, ◌+◌, ◌-◌, ◌*◌, ◌/◌, ◌%◌, ◌^◌, Bool, true, false, ltb, if◌then◌else◌, update, Run,
  ok, fault, blocked, out_of_fuel, Cmd, pure, and_then, ◌>>=◌, ◌>>◌,
}
use file_system.Base.Bytes.{bit_test, bit_flip, bit_clear}
use file_system.Disk
use file_system.Disk.{Block, Disk, Stack, bitmap_buf, block_size, block_num, init_disk}

-- Inode count, and the macros BPB, IPB (the size of struct inode is 56), BBLOCK and IBLOCK.
abbrev pub inode_num : ℕ
inode_num = 1024

abbrev pub bits_per_block : ℕ
bits_per_block = block_size * 8

abbrev pub inode_size : ℕ
inode_size = 56

abbrev pub inodes_per_block : ℕ
inodes_per_block = block_size / inode_size

abbrev pub bblock : ℕ → ℕ
bblock b = b / bits_per_block + 1

abbrev pub iblock : ℕ → ℕ → ℕ
iblock i nblocks = nblocks / bits_per_block + i / inodes_per_block + 1

pub record Superblock : Type 0 where
  pub size : ℕ
  pub nblocks : ℕ
  pub ninodes : ℕ

-- A pthread_mutex_t. What is no mutex, as memory that nobody initialised may be, must not be locked.
pub data Mutex : Type 0 where
  unlocked locked uninitialised : Mutex

-- class block_layer
pub record BlockLayer : Type 0 where
  pub disk : Disk
  pub sb : Superblock
  pub bitmap_mutex : Mutex

-- The state that every operation on an unlocked mutex starts from and ends in.
abbrev pub mounted : Disk → BlockLayer
mounted d = record {
  disk = d;
  sb = record { size = block_size * block_num; nblocks = block_num; ninodes = inode_num };
  bitmap_mutex = unlocked;
}

-- block_layer::block_layer. It leaves bitmap_mutex alone, so that it is what the memory from `new` holds.
abbrev pub init_block_layer : Mutex → BlockLayer
init_block_layer mutex = record (mounted init_disk) { bitmap_mutex = mutex }

abbrev pub on_disk : {A : Type 0} → BlockLayer → Run Disk A → Run BlockLayer A
on_disk s (ok a d) = ok a (record s { disk = d })
on_disk s fault = fault
on_disk s blocked = blocked
on_disk s out_of_fuel = out_of_fuel

-- block_layer::read_block and write_block, and the calls of d->read_block and d->write_block
unfoldable pub read_block : ℕ → Block → Cmd BlockLayer Block
read_block id buf s = on_disk s (Disk.read_block id buf s.disk)

unfoldable pub write_block : ℕ → Block → Cmd BlockLayer (Unit {0})
write_block id buf s = on_disk s (Disk.write_block id buf s.disk)

-- pthread_mutex_lock and unlock of bitmap_mutex
abbrev pub lock_bitmap : Cmd BlockLayer (Unit {0})
lock_bitmap s = elim s.bitmap_mutex [
  | unlocked ↦ ok tt (record s { bitmap_mutex = locked })
  | locked ↦ blocked
  | uninitialised ↦ fault
]

abbrev pub unlock_bitmap : Cmd BlockLayer (Unit {0})
unlock_bitmap s = ok tt (record s { bitmap_mutex = unlocked })

-- The byte and the bit of a block's mark in its bitmap block.
abbrev pub byte_offset : ℕ → ℕ
byte_offset id = id % bits_per_block / 8

abbrev pub bit_offset : ℕ → ℕ
bit_offset id = id % bits_per_block % 8

-- What -1 is as a blockid_t.
abbrev pub no_block : ℕ
no_block = 2 ^ 32 - 1

module _ (stack : Stack) where
  -- The search of alloc_block from `id` on, with the rounds left up to BLOCK_NUM.
  unfoldable pub alloc_loop : ℕ → ℕ → Cmd BlockLayer ℕ
  unfolding read_block write_block
  alloc_loop zero id = do unlock_bitmap; pure no_block
  alloc_loop (suc rounds) id = do
    buf ← read_block (bblock id) (stack bitmap_buf id)
    elim (bit_test (buf (byte_offset id)) (bit_offset id)) [
      | true ↦ alloc_loop rounds (suc id)
      | false ↦ do
        write_block (bblock id)
            (update buf (byte_offset id) (bit_flip (buf (byte_offset id)) (bit_offset id)))
        unlock_bitmap
        pure id
    ]

  -- block_layer::alloc_block
  unfoldable pub alloc_block : Cmd BlockLayer ℕ
  unfolding alloc_loop
  alloc_block = do
    lock_bitmap
    λ s.
        let first_data_block = iblock 1023 s.sb.nblocks + 1 in
        alloc_loop (block_num - first_data_block) first_data_block s

  -- block_layer::free_block
  unfoldable pub free_block : ℕ → Cmd BlockLayer (Unit {0})
  unfolding read_block write_block
  free_block id = do
    lock_bitmap
    buf ← read_block (bblock id) (stack bitmap_buf id)
    write_block (bblock id)
        (update buf (byte_offset id) (bit_clear (buf (byte_offset id)) (bit_offset id)))
    unlock_bitmap
