-- ===== src/InodeLayer/Write/Indirect/Whole.antt =====
-- The loop of write_file for a file that gets its first indirect section, and for one that has one.
use file_system.Base.{
  ℕ, ◌+◌, ◌*◌, ◌%◌, ◌≤◌, ◌<◌, ◌≡◌, ◌⊎◌, ◌∙◌, true, false, arith, ok, lt_or_ge, inl, inr, le→leb,
  lt→leb, leb,
}
use file_system.Base.Int.{ℤ, pos, geb}
use file_system.Disk.{
  Block, Disk, Stack, block_num, indirect_buffer, direct_buffer, temp_buffer, final_indirect,
}
use file_system.BlockLayer.{mounted}
use file_system.BlockLayer.Alloc.{first_data}
use file_system.BlockLayer.Bitmap.{used, mark}
use file_system.BlockLayer.Space.{free_count, alloc_block-free}
use file_system.Inode.{Inode}
use file_system.InodeLayer.Write.Round.{Progress, write_round, write_indirect_section, write_old}
use file_system.InodeLayer.Write.Stored.{IsBuffer}
use file_system.InodeLayer.Write.Direct.{Inv}
use file_system.InodeLayer.Write.Indirect.{Rounds, overwriting}
use file_system.InodeLayer.Write.Indirect.Steps.{new_round}
use file_system.InodeLayer.Write.Indirect.Old.{
  old_round, section-kept, section-grown, section-shrunk,
}
use file_system.InodeLayer.Write.Indirect.Opening.{
  round-first, section-first, opened-Rounds, opened_unused, opened, HasEntries, kept-Rounds,
}
use file_system.InodeLayer.Write.Indirect.Loop.{
  Ends, earlier, write_loop-rounds, write_loop-eight, same_round,
}

-- Local arrays of write_file that hold bytes, as arrays of char do.
pub record HasBytes (stack : Stack) : Type 0 where
  pub direct : (k : ℕ) → IsBuffer (stack direct_buffer k)
  pub indirect : (k : ℕ) → IsBuffer (stack indirect_buffer k)
  pub temp : (k : ℕ) → IsBuffer (stack temp_buffer k)
  pub final : IsBuffer (stack final_indirect 0)

module _ (stack : Stack) (stack_bytes : HasBytes stack) (buf : Block) (buf_bytes : IsBuffer buf)
    (n w : ℕ) (fits : first_data + w ≤ block_num) (long : 4608 ≤ n) (large : n ≤ 69632) (d₀ : Disk)
    (ino : Inode) (start : Block) (start_bytes : IsBuffer start) (fuel : ℕ) (d : Disk)
    (p : Progress) (enough : p.remaining < fuel) (v : Inv buf n w d₀ ino start 0 d p) where
  pub write_loop-first :
      (m : ℕ) (old_size : ℤ)
      → n ≤ 512 * m
      → m < free_count d₀ w first_data
      → geb n old_size ≡ true
      → geb 4096 old_size ≡ true
      → (c : ℕ) × (ptr : Block) × (used d₀ c ≡ false)
        × Ends stack buf n w d₀ ino old_size true c ptr 0 fuel p d
  write_loop-first m old_size parts room grown was_direct =
      let (fuel₁, d₁, p₁, e₁, enough₁, v₁) =
        write_loop-eight stack buf stack_bytes.direct buf_bytes n w fits (omega arith) d₀ ino start
          old_size fuel 0 d p (omega arith) enough v in
      let (c, allocated, first) = alloc_block-free stack d₁ w fits (omega (arith, v₁.spent)) in
      let v₂ = opened-Rounds buf n w d₀ ino start start_bytes d₁ p₁ c v₁ long first in
      let p₂ : Progress = opened buf n w d₀ ino start start_bytes d₁ p₁ c v₁ long first in
      let e₂ =
        same_round stack buf n old_size fuel₁ p₁ p₂ d₁ (mark d₁ c) (omega (arith, v₁.remaining))
          (omega (arith, v₁.remaining))
          (round-first stack buf n old_size grown was_direct d₁ p₁ c
            (omega (arith, v₁.exact (omega arith))) v₁.no_block_yet allocated) in
      let r : Ends stack buf n w d₀ ino old_size true c (mark d₁ c c) 0 fuel₁ p₂ (mark d₁ c) =
        write_loop-rounds stack buf n old_size w d₀ ino true c (mark d₁ c c) 0
          (λ k d p more v.
            new_round stack buf stack_bytes.indirect buf_bytes n w fits d₀ ino old_size true c
              (mark d₁ c c) 0 k d p large more (omega arith) (omega (arith, v.spent))
              (section-first stack buf n old_size grown was_direct (overwriting p) d v.allocated) v)
          fuel₁ 0 (mark d₁ c) p₂ enough₁ (omega arith) v₂ in
      (
        c,
        mark d₁ c c,
        opened_unused buf n w d₀ ino start start_bytes d₁ p₁ c v₁ long first,
        earlier stack buf n old_size w d₀ ino true c (mark d₁ c c) 0 fuel fuel₁ p p₂ d (mark d₁ c)
            (e₁ ∙ e₂) r,
      )

  -- A file of s bytes that had `count` entries.
  module _ (s : ℕ) (was_large : 4096 < s) (ptr : Block) (count : ℕ) (cover : s ≤ 512 * (8 + count))
      (tight : 512 * (8 + count) < s + 512) (entries : HasEntries d₀ (ino.blocks 8) ptr count) where
    from_old :
        ((k : ℕ) (d : Disk) (p : Progress)
          → 512 * (8 + k) < n
          → Rounds buf n w d₀ ino (ino.blocks 8) ptr count false k d p
          → (d' : Disk) × (p' : Progress) × (write_round stack buf n (pos s) p (mounted d)
              ≡ ok p' (mounted d'))
            × Rounds buf n w d₀ ino (ino.blocks 8) ptr count false (k + 1) d' p')
        → Ends stack buf n w d₀ ino (pos s) false (ino.blocks 8) ptr count fuel p d
    from_old round =
        let (fuel₁, d₁, p₁, e₁, enough₁, v₁) =
          write_loop-eight stack buf stack_bytes.direct buf_bytes n w fits (omega arith) d₀ ino
            start (pos s) fuel 0 d p (omega arith) enough v in
        earlier stack buf n (pos s) w d₀ ino false (ino.blocks 8) ptr count fuel fuel₁ p p₁ d d₁ e₁
          (write_loop-rounds stack buf n (pos s) w d₀ ino false (ino.blocks 8) ptr count round fuel₁
            0 d₁ p₁ enough₁ (omega arith)
            (kept-Rounds buf n w d₀ ino start start_bytes ptr count entries d₁ p₁ v₁ long))

    kept_round :
        (k : ℕ) (d : Disk) (p : Progress)
        → 512 * (8 + k) < n
        → k < count
        → write_indirect_section stack buf n (pos s) (overwriting p) (mounted d)
          ≡ write_old stack buf (overwriting p) (mounted d)
        → Rounds buf n w d₀ ino (ino.blocks 8) ptr count false k d p
        → (d' : Disk) × (p' : Progress) × (write_round stack buf n (pos s) p (mounted d)
            ≡ ok p' (mounted d'))
          × Rounds buf n w d₀ ino (ino.blocks 8) ptr count false (k + 1) d' p'
    kept_round k d p more within chosen v =
        old_round stack buf stack_bytes.temp buf_bytes n w fits d₀ ino false (ino.blocks 8) ptr
          count k d p within v (pos s) large more chosen entries.apart entries.distinct

    -- The file stays as long as it was, or both sizes are whole blocks and it grows.
    pub write_loop-grown :
        (m : ℕ)
        → s ≤ n
        → (n ≡ s) ⊎ ((n % 512 ≡ 0) × (s % 512 ≡ 0))
        → n ≤ 512 * m
        → m ≤ free_count d₀ w first_data + count
        → Ends stack buf n w d₀ ino (pos s) false (ino.blocks 8) ptr count fuel p d
    unfolding geb
    write_loop-grown m grown aligned parts room =
        let size : leb s n ≡ true = le→leb s n grown in
        let direct : leb s 4096 ≡ false = lt→leb s 4096 was_large in
        from_old (λ k d p more v. elim (lt_or_ge k count) [
          | inl within ↦
              kept_round k d p more within
                (section-kept stack buf n (pos s) (overwriting p) d size direct
                  (lt→leb s p.already (omega (arith, v.already))))
                v
          | inr beyond ↦
              let whole : 512 * (8 + k + 1) ≤ n = elim aligned [
                | inl same ↦ absurd (omega arith)
                | inr (a, b) ↦ omega arith
              ] in
              new_round stack buf stack_bytes.indirect buf_bytes n w fits d₀ ino (pos s) false
                (ino.blocks 8) ptr count k d p large more beyond (omega (arith, v.spent))
                (section-grown stack buf n (pos s) (overwriting p) d size direct
                  (le→leb s p.already (omega (arith, v.exact whole))))
                v
        ])

    -- The file shrinks.
    pub write_loop-shrunk :
        n < s → Ends stack buf n w d₀ ino (pos s) false (ino.blocks 8) ptr count fuel p d
    unfolding geb
    write_loop-shrunk shrunk = from_old (λ k d p more v.
        kept_round k d p more (omega arith)
          (section-shrunk stack buf n (pos s) (overwriting p) d (lt→leb s n shrunk)) v)
