-- ===== src/OldStuff.antt =====
-- The earlier block and inode layer of old_stuff.cc, where it differs from inode_layer.cc: alloc_block,
-- read_file, and the bodies of free_inode and remove_file that were still to be written.
pub mod Alloc
pub mod Reading
pub mod Write
pub mod Partial
use file_system.Base.{
  ℕ, zero, suc, ◌+◌, ◌-◌, ◌*◌, ◌/◌, ◌%◌, ◌^◌, Bool, true, false, Option, none, some, ltb, leb, ◌==◌,
  if◌then◌else◌, update, minimum, ok, blocked, out_of_fuel, Cmd, pure, and_then, ◌>>=◌, ◌>>◌,
  undefined,
}
use file_system.Base.Int.{ℤ, to_int, pos_part}
use file_system.Base.Bytes.{bit_test, bit_flip}
use file_system.Disk.{
  Block, Stack, block_size, block_num, memcpy, bitmap_buf, malloc_buf, read_indirect,
  remainder_buffer, entry_buffer,
}
use file_system.BlockLayer.{
  BlockLayer, read_block, write_block, lock_bitmap, unlock_bitmap, bblock, iblock, inode_num,
  bits_per_block, byte_offset, bit_offset,
}
use file_system.RwLock.{reader_exit}
use file_system.Inode.{Inode, get_inode, put_inode}
use file_system.InodeLayer.{InodeLayer, on_bm, on_rwlock}
use file_system.InodeLayer.Read.{entry, direct_entry}

-- *byte |= 1 << bit
abbrev pub bit_set : ℕ → ℕ → ℕ
bit_set byte bit = if bit_test byte bit then byte else bit_flip byte bit

module _ (stack : Stack) where
  -- The search of alloc_block. It tests the byte at the offset that it has computed for a bit, which
  -- the buffer of 512 bytes has for the first ids only.
  unfoldable pub alloc_loop : ℕ → ℕ → Cmd BlockLayer ℕ
  unfolding read_block write_block
  alloc_loop zero id = do unlock_bitmap; pure 0
  alloc_loop (suc rounds) id = do
    buf ← read_block (bblock id) (stack bitmap_buf id)
    let next = alloc_loop rounds (suc id)
    if leb block_size (id % bits_per_block)
        then undefined
        else if buf (id % bits_per_block) == 48
        then (do
          write_block (bblock id)
              (update buf (byte_offset id) (bit_set (buf (byte_offset id)) (bit_offset id)))
          unlock_bitmap
          pure id)
        else next

  -- block_layer::alloc_block
  unfoldable pub alloc_block : Cmd BlockLayer ℕ
  unfolding alloc_loop
  alloc_block =
      let first_data_block = iblock inode_num block_num + 1 in
      do lock_bitmap; alloc_loop (block_num - first_data_block) first_data_block

module _ (stack : Stack) (ino : Inode) where
  -- The loop over the full direct blocks, with the rounds left; a block is read into `buf` itself.
  unfoldable pub read_full : ℕ → ℕ → Block → Cmd BlockLayer Block
  unfolding direct_entry
  read_full zero x buf = pure buf
  read_full (suc rounds) x buf = do
    id ← direct_entry ino x
    block ← read_block id (λ i. buf (x * block_size + i))
    read_full rounds (suc x) (memcpy buf (x * block_size) block 0 block_size)

  -- The bytes behind the full blocks.
  unfoldable pub read_remainder : (calls rest : ℕ) → Block → Cmd BlockLayer Block
  unfolding direct_entry
  read_remainder calls rest buf =
      if ltb 0 rest
      then (do
        id ← direct_entry ino calls
        this_buffer ← read_block id (stack remainder_buffer 0)
        pure (memcpy buf (calls * block_size) this_buffer 0 rest))
      else pure buf

  -- The loop over the indirect section, on fuel.
  unfoldable pub read_entries : Block → ℕ → (remaining index : ℕ) → Block → Cmd BlockLayer Block
  unfolding entry
  read_entries ptr zero remaining index buf = λ _. out_of_fuel
  read_entries ptr (suc fuel) remaining index buf =
      let next = (do
        id ← entry ptr index
        this_buffer ← read_block id (stack entry_buffer index)
        read_entries ptr fuel (remaining - minimum block_size remaining) (index + 1) (
            memcpy buf (8 * block_size + index * block_size) this_buffer 0
              (minimum block_size remaining))) in
      if remaining == 0 then pure buf else next

  -- The three parts, for a file of `size` bytes.
  unfoldable pub read_sections : ℕ → Cmd BlockLayer Block
  unfolding read_full read_remainder read_entries
  read_sections size = do
    let full : ℕ = size / block_size
    let rest : ℕ = size % block_size
    let total : ℕ = if ltb 0 rest then full + 1 else full
    let calls : ℕ = if ltb 8 total then 8 else full
    buf ← read_full calls 0 (stack malloc_buf 0)
    buf' ← read_remainder calls rest buf
    if ltb 8 total
        then (do
          indirect_block ← read_block (ino.blocks 8) (stack read_indirect 0)
          read_entries indirect_block (size - 8 * block_size + 1) (size - 8 * block_size) 0 buf')
        else pure buf'

module _ (stack : Stack) where
  -- The part of read_file behind the check of the inode.
  unfoldable pub read_contents : ℕ → Inode → ℕ → Cmd BlockLayer (ℤ × Block)
  unfolding read_sections
  read_contents inum ino now = do
    let ino' : Inode = record ino { atime = now % 2 ^ 32 }
    put_inode stack inum (some ino')
    buf ← read_sections stack ino' (pos_part (to_int ino'.size))
    pure (to_int ino'.size, buf)

  -- inode_layer::read_file: it takes no lock, and leaves one where it returns early.
  unfoldable pub read_file : ℕ → Bool → ℕ → Cmd InodeLayer (Option (ℤ × Block))
  unfolding read_contents
  read_file inum given now =
      if given
      then (do
        ino ← on_bm (get_inode stack inum)
        elim ino [
          | none ↦ do on_rwlock inum reader_exit; pure none
          | some ino ↦ do out ← on_bm (read_contents inum ino now); pure (some out)
        ])
      else (do on_rwlock inum reader_exit; pure none)

  -- inode_layer::free_inode
  unfoldable pub free_inode : ℕ → Cmd BlockLayer (Unit {0})
  free_inode inum = pure tt

  -- inode_layer::remove_file
  unfoldable pub remove_file : ℕ → Cmd BlockLayer (Unit {0})
  remove_file inum = do ino ← get_inode stack inum; pure tt
