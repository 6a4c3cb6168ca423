-- ===== src/BlockLayer/Blocks.antt =====
-- Reading and writing blocks through the block layer.
use file_system.Base.{ℕ, ◌<◌, ◌≡◌, update, ok}
use file_system.Disk.{Block, block_num}
use file_system.Disk.Laws
use file_system.BlockLayer.{BlockLayer, read_block, write_block}

module _ (id : ℕ) (buf : Block) (s : BlockLayer) where
  pub read_block-ok : id < block_num → read_block id buf s ≡ ok (s.disk id) s
  unfolding read_block
  read_block-ok h = rw (Laws.read_block-ok id buf s.disk h)

  pub write_block-ok :
      id < block_num → write_block id buf s ≡ ok tt (record s { disk = update s.disk id buf })
  unfolding write_block
  write_block-ok h = rw (Laws.write_block-ok id buf s.disk h)

  pub read_block-beyond : block_num < id → read_block id buf s ≡ ok buf s
  unfolding read_block
  read_block-beyond h = rw (Laws.read_block-beyond id buf s.disk h)

  pub write_block-beyond : block_num < id → write_block id buf s ≡ ok tt s
  unfolding write_block
  write_block-beyond h = rw (Laws.write_block-beyond id buf s.disk h)
