-- ===== src/Disk.antt =====
-- The simulated disk of inode_layer.cc: class disk, its size macros, and the stack arrays that the
-- code reads blocks into.
pub mod Laws
use file_system.Base.{ℕ, ◌+◌, ◌-◌, ◌*◌, ◌/◌, ltb, ◌==◌, if◌then◌else◌, update, Cmd, ok, fault}

-- DISK_SIZE, BLOCK_SIZE and BLOCK_NUM
abbrev pub disk_size : ℕ
disk_size = 1024 * 1024 * 16

abbrev pub block_size : ℕ
block_size = 512

abbrev pub block_num : ℕ
block_num = disk_size / block_size

-- A buffer of BLOCK_SIZE bytes, as a function of the offset.
abbrev pub Block : Type 0
Block = ℕ → ℕ

-- unsigned char blocks[BLOCK_NUM][BLOCK_SIZE]
abbrev pub Disk : Type 0
Disk = ℕ → Block

-- The local arrays of the code. What one holds before it is filled is indeterminate, so a `Stack`
-- is a parameter of each function that declares one; the number tells the rounds of a loop apart.
pub data Buffer : Type 0 where
  get_inode_buf put_inode_buf bitmap_buf : Buffer
  read_indirect full_direct_buffer full_indirect_buffer malloc_buf : Buffer
  direct_buffer indirect_buffer temp_buffer write_indirect final_indirect : Buffer
  old_indirect remove_indirect remainder_buffer entry_buffer : Buffer

abbrev pub Stack : Type 0
Stack = Buffer → ℕ → Block

-- disk::disk
unfoldable pub init_disk : Disk
init_disk i j = 0

-- disk::read_block. The buffer is left as it is when the id is too large; the row BLOCK_NUM passes
-- the code's test and lies outside the array.
unfoldable pub read_block : ℕ → Block → Cmd Disk Block
read_block id buf d =
    if ltb block_num id then ok buf d else if id == block_num then fault else ok (d id) d

-- disk::write_block
unfoldable pub write_block : ℕ → Block → Cmd Disk (Unit {0})
write_block id buf d =
    if ltb block_num id then ok tt d else if id == block_num then fault else ok tt (update d id buf)

-- memcpy(dst + at, src + from, n)
unfoldable pub memcpy : Block → ℕ → Block → ℕ → ℕ → Block
memcpy dst at src from n =
    λ i. if ltb i at then dst i else if ltb i (at + n) then src (from + (i - at)) else dst i
