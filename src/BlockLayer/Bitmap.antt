-- ===== src/BlockLayer/Bitmap.antt =====
-- What the bitmap says of a block, and how marking and clearing one bit change it.
use file_system.Base.{
  ℕ, ◌+◌, ◌/◌, ◌%◌, ◌≡◌, ◌≢◌, Bool, true, false, arith, ◌==◌, if◌then◌else◌, update,
}
use file_system.Base.Bytes.{
  bit_test, bit_flip, bit_clear, bit_test-bit_flip, bit_test-bit_clear, bit_flip-lt, bit_clear-lt,
}
use file_system.Disk.{Disk}
use file_system.Disk.Laws.{IsBytes}

module _ (d : Disk) (id : ℕ) where
  abbrev pub block_of : ℕ
  block_of = id / 4096 + 1

  abbrev pub byte_of : ℕ
  byte_of = id % 4096 / 8

  abbrev pub bit_of : ℕ
  bit_of = id % 4096 % 8

  -- The bitmap has the block marked as allocated.
  unfoldable pub used : Bool
  used = bit_test (d (id / 4096 + 1) (id % 4096 / 8)) (id % 4096 % 8)

  -- The disk after alloc_block took a block with a clear bit, and after free_block.
  unfoldable pub mark : Disk
  mark = update d (id / 4096 + 1) (
      update (d (id / 4096 + 1)) (id % 4096 / 8)
        (bit_flip (d (id / 4096 + 1) (id % 4096 / 8)) (id % 4096 % 8)))

  unfoldable pub unmark : Disk
  unmark = update d (id / 4096 + 1) (
      update (d (id / 4096 + 1)) (id % 4096 / 8)
        (bit_clear (d (id / 4096 + 1) (id % 4096 / 8)) (id % 4096 % 8)))

  pub unmark-IsBytes : IsBytes d → IsBytes unmark
  unfolding unmark
  unmark-IsBytes h i j = ground (
    arith,
    h i j,
    bit_clear-lt (d (id / 4096 + 1) (id % 4096 / 8)) (id % 4096 % 8)
        (h (id / 4096 + 1) (id % 4096 / 8)) (omega arith),
  )

  pub mark-IsBytes : IsBytes d → IsBytes mark
  unfolding mark
  mark-IsBytes h i j = ground (
    arith,
    h i j,
    bit_flip-lt (d (id / 4096 + 1) (id % 4096 / 8)) (id % 4096 % 8)
        (h (id / 4096 + 1) (id % 4096 / 8)) (omega arith),
  )

  -- Only one bitmap block changes.
  pub mark-elsewhere : (i : ℕ) → i ≢ id / 4096 + 1 → mark i ≡ d i
  unfolding mark
  mark-elsewhere i ne = ground arith

  pub unmark-elsewhere : (i : ℕ) → i ≢ id / 4096 + 1 → unmark i ≡ d i
  unfolding unmark
  unmark-elsewhere i ne = ground arith

-- Blocks with marks at one place are one block.
same_place :
    (i j : ℕ)
    → i / 4096 + 1 ≡ j / 4096 + 1
    → i % 4096 / 8 ≡ j % 4096 / 8
    → i % 4096 % 8 ≡ j % 4096 % 8
    → i ≡ j
same_place i j p q r = omega arith

module _ (d : Disk) (bytes : IsBytes d) (id j : ℕ) where
  pub used-mark : used d id ≡ false → used (mark d id) j ≡ (if j == id then true else used d j)
  unfolding used mark
  used-mark free = ground (
    arith,
    bit_test-bit_flip (d (id / 4096 + 1) (id % 4096 / 8)) (id % 4096 % 8) (j % 4096 % 8)
        (bytes (id / 4096 + 1) (id % 4096 / 8)) (omega arith) (omega arith),
    same_place j id,
  )

  pub used-unmark : used (unmark d id) j ≡ (if j == id then false else used d j)
  unfolding used unmark
  used-unmark = ground (
    arith,
    bit_test-bit_clear (d (id / 4096 + 1) (id % 4096 / 8)) (id % 4096 % 8) (j % 4096 % 8)
        (bytes (id / 4096 + 1) (id % 4096 / 8)) (omega arith) (omega arith),
    same_place j id,
  )
