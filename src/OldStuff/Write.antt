-- ===== src/OldStuff/Write.antt =====
-- The earlier write_file of old_stuff.cc. Its loop over the indirect block starts at a counter that is
-- never set; what the counter holds is a parameter, as the contents of local arrays are.
use file_system.Base.{
  ℕ, zero, suc, ◌+◌, ◌-◌, ◌*◌, none, some, ltb, ◌==◌, if◌then◌else◌, out_of_fuel, Cmd, pure, ◌>>=◌,
  ◌>>◌, undefined,
}
use file_system.Base.Int.{ℤ, pos, negsuc, pos_part}
use file_system.Disk.{
  Block, Stack, block_size, memcpy, direct_buffer, indirect_buffer, write_indirect,
}
use file_system.BlockLayer.{BlockLayer, read_block, write_block, free_block}
use file_system.RwLock.{writer_exit}
use file_system.Inode.{Inode, load_word, get_inode, put_inode}
use file_system.InodeLayer.{InodeLayer, on_bm, on_rwlock}
use file_system.InodeLayer.Write.{free_direct, size_refused}
use file_system.InodeLayer.Write.Round.{set_entry}
use file_system.OldStuff.{alloc_block}

-- The variables of the loop.
pub record Position : Type 0 where
  pub ino : Inode
  pub remaining : ℕ
  pub already : ℕ
  pub index : ℕ

module _ (stack : Stack) where
  -- for (; x < 128; x++) free_block(ptr[x]), with the rounds left.
  unfoldable pub free_from : Block → ℕ → ℕ → Cmd BlockLayer (Unit {0})
  free_from ptr zero x = pure tt
  free_from ptr (suc rounds) x = do
    free_block stack (load_word ptr 0 x)
    free_from ptr rounds (suc x)

  -- The same loop from an int on; a negative one reads in front of the block.
  unfoldable pub free_from_counter : Block → ℤ → Cmd BlockLayer (Unit {0})
  unfolding free_from
  free_from_counter ptr (pos x) = free_from ptr (128 - x) x
  free_from_counter ptr (negsuc x) = undefined

  module _ (buf : Block) where
    -- A full block. &ino->blocks[8] + 0 * 4 is the cell of the indirect block.
    unfoldable pub write_full : Position → Cmd BlockLayer Position
    unfolding set_entry
    write_full p =
        let next : Inode → Position = λ ino. record {
          ino = ino;
          remaining = p.remaining - block_size;
          already = p.already + block_size;
          index = p.index + 1;
        } in
        if ltb (8 * block_size) p.already
        then (do
          block_id ← alloc_block stack
          write_block block_id
              (memcpy (stack indirect_buffer p.index) 0 buf (p.index * block_size) block_size)
          ino' ← set_entry p.ino 8 block_id
          pure (next ino'))
        else (do
          block_id ← alloc_block stack
          write_block block_id
              (memcpy (stack direct_buffer p.index) 0 buf (p.index * block_size) block_size)
          ino' ← set_entry p.ino p.index block_id
          pure (next ino'))

    -- The last block. Its buffer has as many bytes as remain, and write_block reads 512 of them.
    unfoldable pub write_partial : Position → Cmd BlockLayer Position
    unfolding set_entry
    write_partial p = do
      block_id ← alloc_block stack
      if ltb p.remaining block_size
          then undefined
          else write_block block_id
              (memcpy (stack direct_buffer p.index) 0 buf (p.index * block_size) p.remaining)
      ino' ← set_entry p.ino (if ltb (8 * block_size) p.already then 8 else p.index) block_id
      pure (record {
        ino = ino';
        remaining = 0;
        already = p.already + p.remaining;
        index = p.index + 1;
      })

    -- The loop, on fuel.
    unfoldable pub write_loop : ℕ → Position → Cmd BlockLayer Position
    unfolding write_full write_partial
    write_loop zero p = λ _. out_of_fuel
    write_loop (suc fuel) p =
        let next = (do
          p' ← (if ltb block_size p.remaining then write_full p else write_partial p)
          write_loop fuel p') in
        if p.remaining == 0 then pure p else next

  -- The part of write_file behind the check of the inode; the size of the inode is not set.
  unfoldable pub write_contents : ℤ → ℕ → Inode → Block → ℕ → Cmd BlockLayer (Unit {0})
  unfolding free_from_counter write_loop
  write_contents counter inum ino buf size = do
    free_direct stack ino 8 0
    indirect_block ← read_block (ino.blocks 8) (stack write_indirect 0)
    free_from_counter indirect_block counter
    p ← write_loop buf (size + 1) (record { ino = ino; remaining = size; already = 0; index = 0 })
    put_inode stack inum (some p.ino)

  -- inode_layer::write_file: it takes no lock, and leaves one where it returns early.
  unfoldable pub write_file : ℤ → ℕ → Block → ℤ → Cmd InodeLayer (Unit {0})
  unfolding write_contents
  write_file counter inum buf size = if size_refused size then on_rwlock inum writer_exit else (do
    ino ← on_bm (get_inode stack inum)
    elim ino [
      | none ↦ on_rwlock inum writer_exit
      | some ino ↦ on_bm (write_contents counter inum ino buf (pos_part size))
    ])
