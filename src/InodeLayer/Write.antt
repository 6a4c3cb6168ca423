-- ===== src/InodeLayer/Write.antt =====
-- inode_layer::write_file.
pub mod Round
pub mod Stored
pub mod Direct
pub mod Freeing
pub mod Contents
pub mod Entries
pub mod Each
pub mod Indirect
pub mod Large
use file_system.Base.{
  ℕ, zero, suc, ◌+◌, ◌-◌, ◌*◌, ◌/◌, ◌%◌, ◌^◌, Bool, true, false, ◌&&◌, Option, none, some, ltb, leb,
  ◌==◌, if◌then◌else◌, update, minimum, ok, fault, out_of_fuel, Cmd, pure, and_then, ◌>>=◌, ◌>>◌,
}
use file_system.Base.Int.{ℤ, pos, negsuc, to_int, pos_part, geb}
use file_system.Disk.{Block, Stack, block_size, old_indirect, final_indirect}
use file_system.BlockLayer.{BlockLayer, read_block, write_block, free_block}
use file_system.RwLock.{writer_enter, writer_exit}
use file_system.Inode.{Inode, maxfile, get_inode, put_inode}
use file_system.InodeLayer.{InodeLayer, on_bm, on_rwlock}
use file_system.InodeLayer.Read.{entry}
use file_system.InodeLayer.Write.Round.{Progress, write_round}

-- The first check of write_file.
unfoldable pub size_refused : ℤ → Bool
size_refused (pos n) = ltb (block_size * maxfile) n
size_refused (negsuc n) = true

module _ (stack : Stack) where
  -- for (x = 0; x < 8; x++) free_block(ino->blocks[x]), with the rounds left.
  unfoldable pub free_direct : Inode → ℕ → ℕ → Cmd BlockLayer (Unit {0})
  free_direct ino zero x = pure tt
  free_direct ino (suc rounds) x = do
    free_block stack (ino.blocks x)
    free_direct ino rounds (suc x)

  -- The loop over the blocks of the file, on fuel.
  unfoldable pub write_loop : Block → ℕ → ℤ → ℕ → Progress → Cmd BlockLayer Progress
  write_loop buf size old_size zero p = λ _. out_of_fuel
  write_loop buf size old_size (suc fuel) p =
      let next = (do
        p' ← write_round stack buf size old_size p
        write_loop buf size old_size fuel p') in
      if p.remaining == 0 then pure p else next

  -- The loop that frees the entries behind the last one kept, on fuel.
  unfoldable pub free_entries : Block → ℕ → ℕ → ℕ → Cmd BlockLayer (Unit {0})
  unfolding entry
  free_entries ptr zero number_to_free indirect_index = λ _. out_of_fuel
  free_entries ptr (suc fuel) number_to_free indirect_index =
      let next = (do
        id ← entry ptr indirect_index
        free_block stack id
        free_entries ptr fuel (number_to_free - block_size) (indirect_index + 1)) in
      if number_to_free == 0 then pure tt else next

  -- What follows the loop, up to put_inode: old entries freed, the indirect block written, and the
  -- block in blocks[8] freed.
  unfoldable pub finish : ℕ → ℤ → Progress → Cmd BlockLayer (Unit {0})
  unfolding free_entries
  finish size old_size p = do
    if p.need_to_overwrite_indirect && (if geb size old_size then false else true)
        then (do
          indirect_block ← read_block (p.ino.blocks 8) (stack old_indirect 0)
          free_entries indirect_block (pos_part old_size - size + 1) (pos_part old_size - size)
              p.indirect_index)
        else pure tt
    if p.need_to_overwrite_indirect
        then write_block (p.ino.blocks 8) p.final_indirect_block
        else pure tt
    if leb size (8 * block_size) then free_block stack (p.ino.blocks 8) else pure tt

  -- The part of write_file behind the check of the inode.
  unfoldable pub write_contents : ℕ → Inode → Block → ℕ → Cmd BlockLayer (Unit {0})
  unfolding free_direct write_loop finish
  write_contents inum ino buf size = do
    free_direct ino 8 0
    let old_size : ℤ = to_int ino.size
    p ← write_loop buf size old_size (size + 1) (record {
      remaining = size;
      already = 0;
      need_to_overwrite_indirect = false;
      already_allocated_indirect = false;
      index = 0;
      indirect_index = 0;
      ino = ino;
      final_indirect_block = stack final_indirect 0;
    })
    finish size old_size p
    let ino' : Inode = record p.ino { size = size }
    put_inode stack inum (some ino')

  -- What write_file does with the pointer that get_inode returns.
  unfoldable pub write_found : ℕ → Block → ℕ → Option Inode → Cmd InodeLayer (Unit {0})
  unfolding write_contents
  write_found inum buf size none = on_rwlock inum writer_exit
  write_found inum buf size (some ino) = do
    on_bm (write_contents inum ino buf size)
    on_rwlock inum writer_exit

  -- inode_layer::write_file
  unfoldable pub write_file : ℕ → Block → ℤ → Cmd InodeLayer (Unit {0})
  unfolding write_found size_refused
  write_file inum buf size = do
    on_rwlock inum writer_enter
    if size_refused size
        then on_rwlock inum writer_exit
        else (do ino ← on_bm (get_inode stack inum); write_found inum buf (pos_part size) ino)
