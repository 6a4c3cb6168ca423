-- ===== src/InodeLayer/Write/Round.antt =====
-- One round of the loop of inode_layer::write_file: lines 289 to 373 of inode_layer.cc.
use file_system.Base.{
  ℕ, ◌+◌, ◌-◌, ◌*◌, Bool, true, ltb, leb, if◌then◌else◌, update, minimum, Cmd, pure, ◌>>=◌, ◌>>◌,
  undefined,
}
use file_system.Base.Int.{ℤ, geb}
use file_system.Disk.{
  Block, Stack, block_size, memcpy, direct_buffer, indirect_buffer, temp_buffer, write_indirect,
}
use file_system.BlockLayer.{BlockLayer, read_block, write_block, alloc_block}
use file_system.Inode.{Inode, byte_of}
use file_system.InodeLayer.Read.{entry}

-- The variables of the loop; `already` is num_bytes_already_written.
pub record Progress : Type 0 where
  pub remaining : ℕ
  pub already : ℕ
  pub need_to_overwrite_indirect : Bool
  pub already_allocated_indirect : Bool
  pub index : ℕ
  pub indirect_index : ℕ
  pub ino : Inode
  pub final_indirect_block : Block

-- ino->blocks[k] = id, in an array of nine.
unfoldable pub set_entry : Inode → ℕ → ℕ → Cmd BlockLayer Inode
set_entry ino k id =
    if leb 9 k then undefined else pure (record ino { blocks = update ino.blocks k id })

-- memcpy of one id into the final indirect block, which has 128 cells.
unfoldable pub record_entry : Block → ℕ → ℕ → Cmd BlockLayer Block
record_entry block k id =
    if leb 128 k then undefined else pure (memcpy block (4 * k) (λ r. byte_of id r) 0 4)

-- A local buffer of one of the branches, with this round's part of the file copied in.
abbrev pub chunk : Block → (ℕ → Block) → Progress → Block
chunk buf fresh p =
    memcpy (fresh p.index) 0 buf (p.index * block_size) (minimum block_size p.remaining)

-- The updates at the end of the round; `already` grows by what is left to write.
abbrev pub advance : Progress → Progress
advance p =
    let left = p.remaining - minimum block_size p.remaining in
    record p {
      remaining = left;
      already = p.already + minimum block_size left;
      index = p.index + 1;
    }

module _ (stack : Stack) (buf : Block) where
  -- The direct section.
  unfoldable pub write_direct : Progress → Cmd BlockLayer Progress
  unfolding set_entry
  write_direct p = do
    block_id ← alloc_block stack
    ino' ← set_entry p.ino p.index block_id
    write_block block_id (chunk buf (stack direct_buffer) p)
    pure (record p { ino = ino' })

  -- A block that the file did not have in the indirect section.
  unfoldable pub write_new : Progress → Cmd BlockLayer Progress
  unfolding record_entry
  write_new p = do
    block_id ← alloc_block stack
    write_block block_id (chunk buf (stack indirect_buffer) p)
    final' ← record_entry p.final_indirect_block p.indirect_index block_id
    pure (record p { final_indirect_block = final' })

  -- A block that the file has already in the indirect section.
  unfoldable pub write_old : Progress → Cmd BlockLayer Progress
  unfolding record_entry entry
  write_old p = do
    indirect_block ← read_block (p.ino.blocks 8) (stack write_indirect p.index)
    id ← entry indirect_block p.indirect_index
    write_block id (chunk buf (stack temp_buffer) p)
    final' ← record_entry p.final_indirect_block p.indirect_index id
    pure (record p { final_indirect_block = final' })

  -- The indirect block, allocated at its first use.
  unfoldable pub ensure_indirect : Progress → Cmd BlockLayer Progress
  unfolding set_entry
  ensure_indirect p = if p.already_allocated_indirect then pure p else (do
    indirect_block_id ← alloc_block stack
    ino' ← set_entry p.ino 8 indirect_block_id
    pure (record p { ino = ino'; already_allocated_indirect = true }))

  -- The branches of the indirect section.
  unfoldable pub write_indirect_section : ℕ → ℤ → Progress → Cmd BlockLayer Progress
  unfolding write_new write_old ensure_indirect
  write_indirect_section size old_size p =
      if geb size old_size
      then (if geb (8 * block_size) old_size
          then (do p' ← ensure_indirect p; write_new p')
          else (if geb p.already old_size then write_new p else write_old p))
      else write_old p

  unfoldable pub write_round : ℕ → ℤ → Progress → Cmd BlockLayer Progress
  unfolding write_direct write_indirect_section
  write_round size old_size p =
      if ltb p.already (8 * block_size) then (do p' ← write_direct p; pure (advance p')) else (do
        p' ← write_indirect_section size old_size (record p { need_to_overwrite_indirect = true })
        pure (advance (record p' { indirect_index = p'.indirect_index + 1 })))
