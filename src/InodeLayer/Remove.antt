-- ===== src/InodeLayer/Remove.antt =====
-- inode_layer::remove_file.
pub mod Laws
use file_system.Base.{
  ℕ, zero, suc, ◌+◌, ◌-◌, ◌*◌, ◌/◌, ◌^◌, ◌&&◌, fault, none, some, ltb, leb, if◌then◌else◌, Cmd,
  pure, ◌>>=◌, ◌>>◌,
}
use file_system.Base.Int.{to_int, pos_part}
use file_system.Disk.{Block, Stack, block_size, remove_indirect}
use file_system.BlockLayer.{BlockLayer, read_block, free_block}
use file_system.Inode.{Inode, get_inode}
use file_system.InodeLayer.{free_inode}
use file_system.InodeLayer.Read.{entry}
use file_system.InodeLayer.Write.{free_direct}

module _ (stack : Stack) where
  -- for (x = 0; x < num_indirect_blocks; x++) free_block(ptr[x]), with the rounds left.
  unfoldable pub free_indirect : Block → ℕ → ℕ → Cmd BlockLayer (Unit {0})
  unfolding entry
  free_indirect ptr zero x = pure tt
  free_indirect ptr (suc rounds) x = do
    id ← entry ptr x
    free_block stack id
    free_indirect ptr rounds (suc x)

  -- The blocks in the indirect section; current_size, less 8 * BLOCK_SIZE, counts while positive. The
  -- eight subtractions from a size of 2^31 or a little more, a negative int, overflow.
  unfoldable pub free_blocks_rest : Inode → Cmd BlockLayer (Unit {0})
  unfolding free_indirect
  free_blocks_rest ino = do
    let current_size : ℕ = pos_part (to_int ino.size) - 8 * block_size
    if leb (2 ^ 31) ino.size && ltb ino.size (2 ^ 31 + 8 * block_size)
        then (λ _. fault)
        else (if ltb 0 current_size
            then (do
              indirect_buffer ← read_block (ino.blocks 8) (stack remove_indirect 0)
              free_indirect indirect_buffer (current_size / block_size + 1) 0
              free_block stack (ino.blocks 8))
            else pure tt)

  -- The data blocks of an inode, as remove_file frees them.
  unfoldable pub free_blocks : Inode → Cmd BlockLayer (Unit {0})
  unfolding free_direct free_blocks_rest
  free_blocks ino = do free_direct stack ino 8 0; free_blocks_rest ino

  -- inode_layer::remove_file; it takes no lock.
  unfoldable pub remove_file : ℕ → Cmd BlockLayer (Unit {0})
  unfolding free_blocks
  remove_file inum = do
    ino ← get_inode stack inum
    elim ino [ none ↦ pure tt | some ino ↦ do free_blocks ino; free_inode stack inum ]
