-- ===== src/InodeLayer/Write/Entries.antt =====
-- The entries of an indirect block: what recording one does to the others.
use file_system.Base.{
  ℕ, ◌+◌, ◌-◌, ◌*◌, ◌^◌, ◌≤◌, ◌<◌, ◌≡◌, ◌≢◌, arith, lt→ltb, le→ltb, lt_or_ge, inl, inr, ◌⊎◌,
}
use file_system.Disk.{Block, memcpy}
use file_system.Inode.{byte_of, load_word}
use file_system.InodeLayer.Write.Stored.{IsBuffer}

-- The block with an id in cell k.
unfoldable pub with_entry : Block → ℕ → ℕ → Block
with_entry block k id = memcpy block (4 * k) (λ r. byte_of id r) 0 4

module _ (block : Block) (k id : ℕ) where
  entry_byte : (r : ℕ) → r < 4 → with_entry block k id (0 + 4 * k + r) ≡ byte_of id r
  unfolding with_entry memcpy
  entry_byte r lt =
      let shift : 0 + (0 + 4 * k + r - 4 * k) ≡ r = omega arith in
      rw (
        le→ltb (0 + 4 * k + r) (4 * k) (omega arith),
        lt→ltb (0 + 4 * k + r) (4 * k + 4) (omega arith),
        shift,
      )

  other_byte : (i : ℕ) → (i < 4 * k) ⊎ (4 * k + 4 ≤ i) → with_entry block k id i ≡ block i
  unfolding with_entry memcpy
  other_byte i (inl before) = rw (lt→ltb i (4 * k) before)
  other_byte i (inr behind) = rw (le→ltb i (4 * k) (omega arith), le→ltb i (4 * k + 4) behind)

  pub load_word-with_entry : id < 2 ^ 32 → load_word (with_entry block k id) 0 k ≡ id
  unfolding load_word
  load_word-with_entry lt =
      rw
        (
          entry_byte 0 (omega arith),
          entry_byte 1 (omega arith),
          entry_byte 2 (omega arith),
          entry_byte 3 (omega arith),
        )
        (omega arith)

  pub load_word-other :
      (j : ℕ) → j ≢ k → load_word (with_entry block k id) 0 j ≡ load_word block 0 j
  unfolding load_word
  load_word-other j ne =
      let away : (r : ℕ) → r < 4 → (0 + 4 * j + r < 4 * k) ⊎ (4 * k + 4 ≤ 0 + 4 * j + r) =
        λ r lt. elim (lt_or_ge j k) [ inl l ↦ inl (omega arith) | inr g ↦ inr (omega arith) ] in
      rw (
        other_byte (0 + 4 * j + 0) (away 0 (omega arith)),
        other_byte (0 + 4 * j + 1) (away 1 (omega arith)),
        other_byte (0 + 4 * j + 2) (away 2 (omega arith)),
        other_byte (0 + 4 * j + 3) (away 3 (omega arith)),
      )

  pub with_entry-IsBuffer : IsBuffer block → IsBuffer (with_entry block k id)
  unfolding with_entry memcpy
  with_entry-IsBuffer h i = ground (arith, h i)
