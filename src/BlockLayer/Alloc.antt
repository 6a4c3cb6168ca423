-- ===== src/BlockLayer/Alloc.antt =====
-- block_layer::alloc_block and free_block against the bitmap: first fit, and one mark at a time.
use file_system.Base.{
  ℕ, zero, suc, ◌+◌, ◌-◌, ◌<◌, ◌≡◌, refl, true, false, Option, none, some, arith, Bool-cases, Run,
  ok, inl, inr, ◌/◌, bind-ok, ◌∙◌,
}
use file_system.Disk.{Disk, Stack, block_num}
use file_system.Disk.{bitmap_buf}
use file_system.BlockLayer.Blocks.{
  read_block-ok, write_block-ok, read_block-beyond, write_block-beyond,
}
use file_system.BlockLayer.{
  BlockLayer, mounted, no_block, alloc_loop, alloc_block, free_block, locked,
}
use file_system.BlockLayer.Bitmap.{used, mark, unmark}

-- The first data block, behind the last block of the inode table.
abbrev pub first_data : ℕ
first_data = 123

-- The first block from `id` on, among the next k, that the bitmap does not have as allocated.
unfoldable pub first_free : Disk → ℕ → ℕ → Option ℕ
first_free d zero id = none
first_free d (suc k) id = elim (used d id) [ true ↦ first_free d k (suc id) | false ↦ some id ]

first_free-used :
    (d : Disk) (k id : ℕ) → used d id ≡ true → first_free d (suc k) id ≡ first_free d k (suc id)
unfolding first_free
first_free-used d k id u = rw (u, first_free)

first_free-clear : (d : Disk) (k id : ℕ) → used d id ≡ false → first_free d (suc k) id ≡ some id
unfolding first_free
first_free-clear d k id u = rw (u, first_free)

-- How alloc_block ends when it has found that block.
abbrev pub taken : Disk → Option ℕ → Run BlockLayer ℕ
taken d none = ok no_block (mounted d)
taken d (some id) = ok id (mounted (mark d id))

abbrev pub held : Disk → BlockLayer
held d = record (mounted d) { bitmap_mutex = locked }

module _ (stack : Stack) (d : Disk) where
  alloc_loop-held :
      (k id : ℕ) → id + k ≡ block_num → alloc_loop stack k id (held d) ≡ taken d (first_free d k id)
  unfolding alloc_loop used mark
  alloc_loop-held zero id e = unfold first_free in refl
  alloc_loop-held (suc k) id e =
      bind-ok _ (read_block-ok (id / 4096 + 1) (stack bitmap_buf id) (held d) (omega arith))
      ∙ elim (Bool-cases (used d id)) [
        | inl u ↦ rw (u, first_free-used d k id u) (alloc_loop-held k (suc id) (omega arith))
        | inr u ↦
            rw (
              u,
              first_free-clear d k id u,
              write_block-ok (id / 4096 + 1) _ (held d) (omega arith),
            )
      ]

  pub alloc_block-mounted :
      alloc_block stack (mounted d) ≡ taken d (first_free d (block_num - first_data) first_data)
  unfolding alloc_block
  alloc_block-mounted = alloc_loop-held (block_num - first_data) first_data refl

  pub free_block-mounted :
      (id : ℕ) → id < block_num → free_block stack id (mounted d) ≡ ok tt (mounted (unmark d id))
  unfolding free_block unmark
  free_block-mounted id h = rw (
    read_block-ok (id / 4096 + 1) (stack bitmap_buf id) (held d) (omega arith),
    write_block-ok (id / 4096 + 1) _ (held d) (omega arith),
  )

  -- An id that no disk block has a mark for, -1 among them, changes nothing.
  pub free_block-beyond :
      (id : ℕ) → block_num < id / 4096 + 1 → free_block stack id (mounted d) ≡ ok tt (mounted d)
  unfolding free_block
  free_block-beyond id h = rw (
    read_block-beyond (id / 4096 + 1) (stack bitmap_buf id) (held d) h,
    write_block-beyond (id / 4096 + 1) _ (held d) h,
  )
