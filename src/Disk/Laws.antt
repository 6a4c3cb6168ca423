-- ===== src/Disk/Laws.antt =====
-- The block operations of the disk on every id, and what they keep.
use file_system.Base.{
  ℕ, ◌<◌, ◌≡◌, ◌≢◌, refl, arith, ltb, if◌then◌else◌, update, ok, fault, ◌⊎◌, eq_or_ne, inl, inr,
  lt_or_ge,
}
use file_system.Disk.{Block, Disk, block_num, read_block, write_block}

-- Every cell holds a byte.
abbrev pub IsBytes : Disk → Type 0
IsBytes d = (i j : ℕ) → d i j < 256

module _ (id : ℕ) (buf : Block) (d : Disk) where
  pub read_block-ok : id < block_num → read_block id buf d ≡ ok (d id) d
  unfolding read_block
  read_block-ok h = ground arith

  pub write_block-ok : id < block_num → write_block id buf d ≡ ok tt (update d id buf)
  unfolding write_block
  write_block-ok h = ground arith

  pub read_block-beyond : block_num < id → read_block id buf d ≡ ok buf d
  unfolding read_block
  read_block-beyond h = ground arith

  pub write_block-beyond : block_num < id → write_block id buf d ≡ ok tt d
  unfolding write_block
  write_block-beyond h = ground arith

-- For every id but BLOCK_NUM: reading what was just written gives the buffer that was written, or,
-- for an id beyond the disk, leaves the buffer of the read alone; a block of another id below
-- BLOCK_NUM is not changed. At BLOCK_NUM itself both operations leave the array.
pub read_block-write_block :
    (id : ℕ) (buf out : Block) (d : Disk)
    → ((write_block id buf d ≡ fault) × (read_block id out d ≡ fault) × (id ≡ block_num))
      ⊎ ((d' : Disk) × (write_block id buf d ≡ ok tt d')
          × (read_block id out d' ≡ ok (if ltb id block_num then buf else out) d')
          × ((i : ℕ) → i ≢ id → d' i ≡ d i)
          × (id ≢ block_num))
unfolding read_block write_block
read_block-write_block id buf out d = elim (eq_or_ne id block_num) [
  | inl e ↦ inl (ground arith, ground arith, e)
  | inr ne ↦ elim (lt_or_ge id block_num) [
    | inl lt ↦ inr (update d id buf, ground arith, ground arith, λ i h. ground arith, ne)
    | inr ge ↦ inr (d, ground arith, ground arith, λ i h. refl, ne)
  ]
]
