-- ===== src/InodeLayer/Write/Indirect.antt =====
-- The loop of write_file in the indirect section: what holds after each of its rounds.
pub mod Steps
pub mod Old
pub mod Opening
pub mod Loop
pub mod Whole
use file_system.Base.{
  if◌then◌else◌, ℕ, ◌+◌, ◌-◌, ◌*◌, ◌≤◌, ◌<◌, ◌≡◌, ◌≢◌, refl, ◌∙◌, sym, Bool, true, arith, lt→ltb,
  le→ltb, lt_or_ge, eq_or_ne, inl, inr,
}
use file_system.Disk.{Block, Disk, block_num}
use file_system.Disk.Laws.{IsBytes}
use file_system.BlockLayer.Bitmap.{used}
use file_system.BlockLayer.Alloc.{first_data}
use file_system.BlockLayer.Space.{free_count}
use file_system.Inode.{Inode, load_word}
use file_system.InodeLayer.Read.Rounds.{place}
use file_system.InodeLayer.Write.Round.{Progress, advance}
use file_system.InodeLayer.Write.Stored.{Holds, IsBuffer}
use file_system.InodeLayer.Write.Entries.{
  with_entry, load_word-with_entry, load_word-other, with_entry-IsBuffer,
}

-- The variables in the indirect section: a round starts by noting that the indirect block changes, and
-- ends with block b in cell k of the final indirect block.
abbrev pub overwriting : Progress → Progress
overwriting p = record p { need_to_overwrite_indirect = true }

abbrev pub recorded : Progress → ℕ → ℕ → Progress
recorded p k b = advance (record p {
  need_to_overwrite_indirect = true;
  final_indirect_block = with_entry p.final_indirect_block k b;
  indirect_index = p.indirect_index + 1;
})

-- After k rounds: the first 8 + k parts of the file are on the disk, in the blocks that the inode and
-- the final indirect block name. Block c is to be the indirect block; it holds `ptr` so far, whose
-- first `count` cells name old blocks of the file.
pub record Rounds (buf : Block) (n w : ℕ) (d₀ : Disk) (ino : Inode) (c : ℕ) (ptr : Block)
    (count : ℕ) (flag : Bool) (k : ℕ) (d : Disk) (p : Progress) : Type 0 where
  pub index : p.index ≡ 8 + k
  pub cell : p.indirect_index ≡ k
  pub remaining : p.remaining ≡ n - 512 * (8 + k)
  pub enough : 4096 ≤ p.already
  pub already : p.already ≤ 512 * (8 + k)
  pub exact : 512 * (8 + k + 1) ≤ n → p.already ≡ 512 * (8 + k)
  pub allocated : p.already_allocated_indirect ≡ flag
  pub overwrite : 0 < k → p.need_to_overwrite_indirect ≡ true
  pub rest : p.ino ≡ record ino { blocks = p.ino.blocks }
  pub ninth : p.ino.blocks 8 ≡ c
  pub later : (j : ℕ) → 9 ≤ j → p.ino.blocks j ≡ ino.blocks j
  pub held : (j : ℕ) → j < 8 + k → Holds buf n d j (place p.ino p.final_indirect_block j)
  pub apart : (j : ℕ) → j < 8 + k → place p.ino p.final_indirect_block j ≢ c
  pub ahead :
      (j i : ℕ)
      → j < 8 + k
      → k ≤ i
      → i < count
      → place p.ino p.final_indirect_block j ≢ load_word ptr 0 i
  pub bytes : IsBytes d
  pub final_bytes : IsBuffer p.final_indirect_block
  pub c_low : first_data ≤ c
  pub c_high : c < block_num
  pub c_used : used d c ≡ true
  pub c_holds : d c ≡ ptr
  pub old_low : (i : ℕ) → i < count → first_data ≤ load_word ptr 0 i
  pub old_high : (i : ℕ) → i < count → load_word ptr 0 i < block_num
  pub old_used : (i : ℕ) → i < count → used d (load_word ptr 0 i) ≡ true
  pub distinct :
      (i j : ℕ)
      → i < 8 + k
      → j < 8 + k
      → i ≢ j
      → place p.ino p.final_indirect_block i ≢ place p.ino p.final_indirect_block j
  pub spent :
      free_count d₀ w first_data ≤ free_count d w first_data + (if flag then 9 else 8) + (k - count)
  pub table : (i : ℕ) → 9 ≤ i → i < first_data → d i ≡ d₀ i
  pub kept :
      (y : ℕ)
      → first_data ≤ y
      → y < block_num
      → used d₀ y ≡ true
      → ((i : ℕ) → i < count → y ≢ load_word ptr 0 i)
      → (used d y ≡ true) × (d y ≡ d₀ y)

-- What one round with block b does to the disk.
pub record Wrote (buf : Block) (n w k : ℕ) (d d₁ : Disk) (b cost : ℕ) : Type 0 where
  pub holds : Holds buf n d₁ (8 + k) b
  pub bytes : IsBytes d₁
  pub marks : (y : ℕ) → first_data ≤ y → y < block_num → used d y ≡ true → used d₁ y ≡ true
  pub same : (y : ℕ) → first_data ≤ y → y < block_num → used d y ≡ true → y ≢ b → d₁ y ≡ d y
  pub spent : free_count d w first_data ≤ free_count d₁ w first_data + cost
  pub table : (i : ℕ) → 9 ≤ i → i < first_data → d₁ i ≡ d i

module _ (ino : Inode) (final : Block) (k b : ℕ) where
  place_old : (j : ℕ) → j < 8 + k → place ino (with_entry final k b) j ≡ place ino final j
  place_old j lt = elim (lt_or_ge j 8) [
    | inl direct ↦ rw (lt→ltb j 8 direct) refl
    | inr ge ↦ rw (le→ltb j 8 ge) (load_word-other final k b (j - 8) (λ e. omega arith))
  ]

  place_new : b < block_num → place ino (with_entry final k b) (8 + k) ≡ b
  place_new lt =
      let cell : 8 + k - 8 ≡ k = omega arith in
      rw (le→ltb (8 + k) 8 (omega arith), cell) (load_word-with_entry final k b (omega arith))

module _ (buf : Block) (n w : ℕ) (d₀ : Disk) (ino : Inode) (c : ℕ) (ptr : Block) (count : ℕ)
    (flag : Bool) (k : ℕ) (d : Disk) (p : Progress)
    (v : Rounds buf n w d₀ ino c ptr count flag k d p) (more : 512 * (8 + k) < n) (d₁ : Disk)
    (b cost : ℕ) (wrote : Wrote buf n w k d d₁ b cost) (pays : (k - count) + cost ≤ k + 1 - count)
    (b-c : b ≢ c) (behind : (j : ℕ) → j < 8 + k → place p.ino p.final_indirect_block j ≢ b)
    (coming : (i : ℕ) → k + 1 ≤ i → i < count → b ≢ load_word ptr 0 i)
    (own : (y : ℕ) → used d y ≡ true → ((i : ℕ) → i < count → y ≢ load_word ptr 0 i) → y ≢ b) where
  -- The parts so far and the new one.
  parts :
      (P : ℕ → ℕ → Type 0)
      → ((j : ℕ) → j < 8 + k → P j (place p.ino p.final_indirect_block j))
      → P (8 + k) b
      → (j : ℕ) → j < 8 + (k + 1)
      → P j (place p.ino (with_entry p.final_indirect_block k b) j)
  parts P old new j lt = elim (eq_or_ne j (8 + k)) [
    | inl e ↦ rw (e, place_new p.ino p.final_indirect_block k b wrote.holds.high) new
    | inr ne ↦ rw (place_old p.ino p.final_indirect_block k b j (omega arith)) (old j (omega arith))
  ]

  pub step-Rounds : Rounds buf n w d₀ ino c ptr count flag (k + 1) d₁ (recorded p k b)
  step-Rounds = record {
    index = omega (arith, v.index);
    cell = omega (arith, v.cell);
    remaining = ground (arith, v.remaining);
    enough = omega (arith, v.enough);
    already = ground (arith, v.remaining, v.already);
    exact = λ lo. ground (arith, v.remaining, v.exact (omega arith));
    allocated = v.allocated;
    overwrite = λ h. refl;
    rest = v.rest;
    ninth = v.ninth;
    later = v.later;
    held =
        parts (λ j y. Holds buf n d₁ j y)
          (λ j lt.
            let h : Holds buf n d j (place p.ino p.final_indirect_block j) = v.held j lt in
            record {
              low = h.low;
              high = h.high;
              marked = wrote.marks _ h.low h.high h.marked;
              bytes = λ i within.
                  rw (wrote.same _ h.low h.high h.marked (behind j lt)) (h.bytes i within);
            })
          wrote.holds;
    apart = parts (λ j y. y ≢ c) v.apart b-c;
    ahead = λ j i lt lo hi.
        parts (λ j y. y ≢ load_word ptr 0 i) (λ j lt. v.ahead j i lt (omega arith) hi)
          (coming i lo hi) j lt;
    bytes = wrote.bytes;
    final_bytes = with_entry-IsBuffer p.final_indirect_block k b v.final_bytes;
    c_low = v.c_low;
    c_high = v.c_high;
    c_used = wrote.marks c v.c_low v.c_high v.c_used;
    c_holds = wrote.same c v.c_low v.c_high v.c_used (λ e. b-c (sym e)) ∙ v.c_holds;
    old_low = v.old_low;
    old_high = v.old_high;
    old_used = λ i lt. wrote.marks _ (v.old_low i lt) (v.old_high i lt) (v.old_used i lt);
    distinct = λ i j hi hj.
        parts (λ i y. i ≢ j → y ≢ place p.ino (with_entry p.final_indirect_block k b) j)
          (λ i hi.
            parts (λ j z. i ≢ j → place p.ino p.final_indirect_block i ≢ z)
              (λ j hj. v.distinct i j hi hj) (λ ne. behind i hi) j hj)
          (parts (λ j z. 8 + k ≢ j → b ≢ z) (λ j hj ne e. behind j hj (sym e))
            (λ ne. absurd (ne refl)) j hj)
          i hi;
    spent = ground (arith, v.spent, wrote.spent);
    table = λ i lo hi. wrote.table i lo hi ∙ v.table i lo hi;
    kept = λ y lo lt u other.
        let old = v.kept y lo lt u other in
        (wrote.marks y lo lt old.0, wrote.same y lo lt old.0 (own y old.0 other) ∙ old.1);
  }
