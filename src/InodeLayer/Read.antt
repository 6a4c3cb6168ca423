-- ===== src/InodeLayer/Read.antt =====
-- inode_layer::read_file.
pub mod Rounds
pub mod Whole
use file_system.Base.{
  ℕ, zero, suc, ◌+◌, ◌-◌, ◌*◌, ◌%◌, ◌^◌, Bool, Option, none, some, ltb, leb, ◌==◌, if◌then◌else◌,
  minimum, out_of_fuel, Cmd, pure, ◌>>=◌, ◌>>◌, undefined,
}
use file_system.Base.Int.{ℤ, to_int, pos_part}
use file_system.Disk.{
  Block, Stack, block_size, memcpy, malloc_buf, read_indirect, full_direct_buffer,
  full_indirect_buffer,
}
use file_system.BlockLayer.{BlockLayer, read_block}
use file_system.RwLock.{reader_enter, reader_exit}
use file_system.Inode.{Inode, load_word, get_inode, put_inode}
use file_system.InodeLayer.{InodeLayer, on_bm, on_rwlock}

-- ptr[k] of an indirect block; behind its 128 cells the access is undefined behaviour.
unfoldable pub entry : Block → ℕ → Cmd BlockLayer ℕ
entry block k = if leb 128 k then undefined else pure (load_word block 0 k)

-- ino->blocks[k], an array of nine.
unfoldable pub direct_entry : Inode → ℕ → Cmd BlockLayer ℕ
direct_entry ino k = if leb 9 k then undefined else pure (ino.blocks k)

module _ (stack : Stack) (ino : Inode) (ptr : Block) where
  -- One round of the loop of read_file: the new contents of `buf`.
  unfoldable pub read_round :
      (remaining already index indirect_index : ℕ) → Block → Cmd BlockLayer Block
  unfolding entry direct_entry
  read_round remaining already index indirect_index buf =
      if ltb already (8 * block_size)
      then (do
        id ← direct_entry ino index
        full ← read_block id (stack full_direct_buffer index)
        pure (memcpy buf (index * block_size) full 0 (minimum block_size remaining)))
      else (do
        id ← entry ptr indirect_index
        full ← read_block id (stack full_indirect_buffer index)
        pure (memcpy buf (index * block_size) full 0 (minimum block_size remaining)))

  -- The loop, on fuel.
  unfoldable pub read_loop :
      ℕ → (remaining already index indirect_index : ℕ) → Block → Cmd BlockLayer Block
  unfolding read_round
  read_loop zero remaining already index indirect_index buf = λ _. out_of_fuel
  read_loop (suc fuel) remaining already index indirect_index buf =
      let next = (do
        buf' ← read_round remaining already index indirect_index buf
        read_loop fuel (remaining - minimum block_size remaining)
            (already + minimum block_size remaining) (index + 1)
            (if ltb already (8 * block_size) then indirect_index else indirect_index + 1) buf') in
      if remaining == 0 then pure buf else next

module _ (stack : Stack) where
  -- The part of read_file behind the check of the inode: *size and *buf_out.
  unfoldable pub read_contents : ℕ → Inode → ℕ → Cmd BlockLayer (ℤ × Block)
  unfolding read_loop
  read_contents inum ino now = do
    let ino' : Inode = record ino { atime = now % 2 ^ 32 }
    put_inode stack inum (some ino')
    let size : ℤ = to_int ino'.size
    indirect_block ← read_block (ino'.blocks 8) (stack read_indirect 0)
    buf ←
        read_loop stack ino' indirect_block (pos_part size + 1) (pos_part size) 0 0 0
          (stack malloc_buf 0)
    pure (size, buf)

  -- What read_file does with the pointer that get_inode returns.
  unfoldable pub read_found : ℕ → ℕ → Option Inode → Cmd InodeLayer (Option (ℤ × Block))
  unfolding read_contents
  read_found inum now none = do on_rwlock inum reader_exit; pure none
  read_found inum now (some ino) = do
    out ← on_bm (read_contents inum ino now)
    on_rwlock inum reader_exit
    pure (some out)

  -- inode_layer::read_file. `given` says that buf_out and size are not NULL; the result is what they
  -- receive, or `none` where they are left alone.
  unfoldable pub read_file : ℕ → Bool → ℕ → Cmd InodeLayer (Option (ℤ × Block))
  unfolding read_found
  read_file inum given now = do
    on_rwlock inum reader_enter
    if given
        then (do ino ← on_bm (get_inode stack inum); read_found inum now ino)
        else (do on_rwlock inum reader_exit; pure none)
