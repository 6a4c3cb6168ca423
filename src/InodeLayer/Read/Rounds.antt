-- ===== src/InodeLayer/Read/Rounds.antt =====
-- The loop of read_file: it collects what the blocks hold.
use file_system.Base.{
  refl, ltb, if◌then◌else◌, ℕ, zero, suc, ◌+◌, ◌-◌, ◌*◌, ◌≤◌, ◌<◌, ◌≡◌, arith, minimum, ok, inl,
  inr, eq_or_ne, lt_or_ge, lt→ltb, le→ltb, lt→leb, ==_of_eq, ==_of_ne,
}
use file_system.Disk.{
  Block, Disk, Stack, block_num, memcpy, full_direct_buffer, full_indirect_buffer,
}
use file_system.BlockLayer.{mounted}
use file_system.BlockLayer.Blocks.{read_block-ok}
use file_system.Inode.{Inode, load_word}
use file_system.InodeLayer.Read.{entry, read_round, read_loop, direct_entry}

-- The bytes of round k of a file of n bytes.
abbrev pub round_size : ℕ → ℕ → ℕ
round_size n k = minimum 512 (n - 512 * k)

-- Block b of the disk holds round j of the file.
pub record HasRound (buf : Block) (n : ℕ) (d : Disk) (j b : ℕ) : Type 0 where
  pub high : b < block_num
  pub bytes : (i : ℕ) → i < round_size n j → d b i ≡ buf (512 * j + i)

-- Where read_file looks for round k: in the inode, or in the indirect block.
abbrev pub place : Inode → Block → ℕ → ℕ
place ino ptr k = if ltb k 8 then ino.blocks k else load_word ptr 0 (k - 8)

module _ (stack : Stack) (ino : Inode) (ptr buf : Block) (n : ℕ) (short : n ≤ 69632) (d : Disk)
    (held : (j : ℕ) → 512 * j < n → HasRound buf n d j (place ino ptr j)) where
  -- The buffer after a round.
  abbrev filled : Block → ℕ → ℕ → Block
  filled cur remaining k = memcpy cur (k * 512) (d (place ino ptr k)) 0 (minimum 512 remaining)

  round :
      (remaining k indirect_index : ℕ) (cur : Block)
      → 512 * k < n
      → indirect_index ≡ k - 8
      → read_round stack ino ptr remaining (512 * k) k indirect_index cur (mounted d)
        ≡ ok (filled cur remaining k) (mounted d)
  unfolding read_round direct_entry entry
  round remaining k indirect_index cur more at = elim (lt_or_ge k 8) [
    | inl direct ↦
        let here : HasRound buf n d k (ino.blocks k) = rw (lt→ltb k 8 direct) at (held k more) in
        rw
          (
            lt→ltb (512 * k) 4096 (omega arith),
            lt→leb 9 k (omega arith),
            read_block-ok (ino.blocks k) (stack full_direct_buffer k) (mounted d) here.high,
            lt→ltb k 8 direct,
          )
          refl
    | inr indirect ↦
        let here : HasRound buf n d k (load_word ptr 0 (k - 8)) =
          rw (le→ltb k 8 indirect) at (held k more) in
        rw
          (
            le→ltb (512 * k) 4096 (omega arith),
            at,
            lt→leb 128 (k - 8) (omega arith),
            read_block-ok (load_word ptr 0 (k - 8)) (stack full_indirect_buffer k) (mounted d)
                here.high,
            le→ltb k 8 indirect,
          )
          refl
  ]

  filled-eq :
      (k i : ℕ) (cur : Block)
      → 512 * k < n
      → ((j : ℕ) → j < n → j < 512 * k → cur j ≡ buf j)
      → i < n
      → i < 512 * (k + 1)
      → filled cur (n - 512 * k) k i ≡ buf i
  unfolding memcpy
  filled-eq k i cur more old lt below = elim (lt_or_ge i (k * 512)) [
    | inl before ↦ rw (lt→ltb i (k * 512) before) (old i lt (omega arith))
    | inr behind ↦
        let inside : i < k * 512 + minimum 512 (n - 512 * k) = ground arith in
        let offset : i - k * 512 < round_size n k = ground arith in
        let whole : 512 * k + (i - k * 512) ≡ i = omega arith in
        let shift : 0 + (i - k * 512) ≡ i - k * 512 = omega arith in
        rw (
          le→ltb i (k * 512) behind,
          lt→ltb i _ inside,
          shift,
          (held k more).bytes (i - k * 512) offset,
          whole,
        )
  ]

  pub read_loop-rounds :
      (fuel remaining already k indirect_index : ℕ) (cur : Block)
      → remaining < fuel
      → remaining ≡ n - 512 * k
      → already + remaining ≡ n
      → indirect_index ≡ k - 8
      → ((j : ℕ) → j < n → j < 512 * k → cur j ≡ buf j)
      → (out : Block) × (read_loop stack ino ptr fuel remaining already k indirect_index cur
            (mounted d)
          ≡ ok out (mounted d))
        × ((i : ℕ) → i < n → out i ≡ buf i)
  unfolding read_loop
  read_loop-rounds zero remaining already k ii cur enough r a at old = absurd (omega arith)
  read_loop-rounds (suc fuel) remaining already k ii cur enough r a at old =
      elim (eq_or_ne remaining 0) [
        | inl e ↦ (cur, rw (==_of_eq remaining 0 e), λ i lt. old i lt (omega arith))
        | inr ne ↦
            let full : already ≡ 512 * k = omega arith in
            let ii' = if ltb already 4096 then ii else ii + 1 in
            let next : ii' ≡ k + 1 - 8 = ground arith in
            let one : read_round stack ino ptr remaining already k ii cur (mounted d)
                ≡ ok (filled cur remaining k) (mounted d) =
              rw full (round remaining k ii cur (omega arith) at) in
            let (out, e, same) =
              read_loop-rounds fuel (remaining - minimum 512 remaining)
                (already + minimum 512 remaining) (k + 1) ii' (filled cur remaining k)
                (ground arith) (ground arith) (ground arith) next
                (λ j lt below. rw r (filled-eq k j cur (omega arith) old lt below)) in
            (out, rw (==_of_ne remaining 0 ne, one) e, same)
      ]
