-- ===== src/InodeLayer/Write/Indirect/Opening.antt =====
-- The first round of write_file in the indirect section: the indirect block is allocated, or is the
-- one that the file has.
use file_system.Base.{
  ℕ, ◌-◌, ◌≤◌, ◌<◌, ◌≡◌, refl, ◌∙◌, sym, ap, true, false, arith, ok, le→ltb, lt→ltb, ==_of_eq,
  ==_of_ne, update, Bool-cases, inl, inr, ◌≢◌,
}
use file_system.Base.Int.{ℤ, geb}
use file_system.Disk.{Block, Disk, Stack, block_num}
use file_system.BlockLayer.{mounted, alloc_block}
use file_system.BlockLayer.Bitmap.{mark, used-mark, mark-IsBytes, mark-elsewhere, used}
use file_system.BlockLayer.Alloc.{first_data}
use file_system.BlockLayer.Space.{IsFirstFree, free_count-mark}
use file_system.Inode.{Inode, load_word}
use file_system.InodeLayer.Read.Rounds.{place}
use file_system.InodeLayer.Write.Round.{
  Progress, write_round, write_indirect_section, write_new, ensure_indirect, set_entry,
}
use file_system.InodeLayer.Write.Stored.{Holds, IsBuffer, used-ne, with_block}
use file_system.InodeLayer.Write.Direct.{Inv}
use file_system.InodeLayer.Write.Indirect.{Rounds}

module _ (stack : Stack) (buf : Block) (size : ℕ) (old_size : ℤ) (grown : geb size old_size ≡ true)
    (was_direct : geb 4096 old_size ≡ true) where
  -- A file that had no indirect section gets new blocks.
  pub section-first :
      (p : Progress) (d : Disk)
      → p.already_allocated_indirect ≡ true
      → write_indirect_section stack buf size old_size p (mounted d)
        ≡ write_new stack buf p (mounted d)
  unfolding write_indirect_section ensure_indirect
  section-first p d ready = rw (grown, was_direct, ready) refl

  -- The first round allocates the indirect block, and is then like the others.
  pub round-first :
      (d : Disk) (p : Progress) (c : ℕ)
      → 4096 ≤ p.already
      → p.already_allocated_indirect ≡ false
      → alloc_block stack (mounted d) ≡ ok c (mounted (mark d c))
      → write_round stack buf size old_size p (mounted d)
        ≡ write_round stack buf size old_size
            (record p { ino = with_block p.ino 8 c; already_allocated_indirect = true })
            (mounted (mark d c))
  unfolding write_round write_indirect_section ensure_indirect set_entry
  round-first d p c late ready allocated =
      rw (le→ltb p.already 4096 late, grown, was_direct, ready, allocated) refl

-- What the eight direct rounds leave, with the indirect block allocated.
module _ (buf : Block) (n w : ℕ) (d₀ : Disk) (ino : Inode) (start : Block)
    (start_bytes : IsBuffer start) (d : Disk) (p : Progress) (c : ℕ)
    (old : Inv buf n w d₀ ino start 8 d p) (long : 4608 ≤ n)
    (first : IsFirstFree d (block_num - first_data) first_data c) where
  abbrev pub opened : Progress
  opened = record p { ino = with_block p.ino 8 c; already_allocated_indirect = true }

  place_direct : (j : ℕ) → j < 8 → place opened.ino p.final_indirect_block j ≡ p.ino.blocks j
  place_direct j lt = rw (lt→ltb j 8 lt, ==_of_ne j 8 (omega arith))

  -- The indirect block was free before the call, too.
  pub opened_unused : used d₀ c ≡ false
  opened_unused = elim (Bool-cases (used d₀ c)) [
    | inl u ↦
        let before = (old.kept c first.from (omega (arith, first.below)) u).0 in
        cc (before, first.free)
    | inr u ↦ u
  ]

  pub opened-Rounds : Rounds buf n w d₀ ino c (mark d c c) 0 true 0 (mark d c) opened
  opened-Rounds = record {
    index = old.index;
    cell = old.first_entry;
    remaining = old.remaining;
    enough = omega (arith, old.exact (omega arith));
    already = old.already;
    exact = old.exact;
    allocated = refl;
    overwrite = λ h. absurd (omega arith);
    rest = ap (λ (x : Inode). record x { blocks = update p.ino.blocks 8 c }) old.rest;
    ninth = refl;
    later = λ j lo. rw (==_of_ne j 8 (omega arith)) (old.later j (omega arith));
    held = λ j lt. rw (place_direct j lt) (
        let h : Holds buf n d j (p.ino.blocks j) = old.held j lt in
        record {
          low = h.low;
          high = h.high;
          marked =
              rw (used-mark d old.bytes c (p.ino.blocks j) first.free) (ground (arith, h.marked));
          bytes = λ i within.
              rw (mark-elsewhere d c (p.ino.blocks j) (omega (arith, h.low, first.below)))
                (h.bytes i within);
        });
    apart = λ j lt. rw (place_direct j lt) (used-ne d _ c (old.held j lt).marked first.free);
    ahead = λ j i lt lo hi. absurd (omega arith);
    bytes = mark-IsBytes d c old.bytes;
    final_bytes = rw old.untouched start_bytes;
    c_low = first.from;
    c_high = omega (arith, first.below);
    c_used = rw (used-mark d old.bytes c c first.free, ==_of_eq c c refl);
    c_holds = refl;
    old_low = λ i hi. absurd (omega arith);
    old_high = λ i hi. absurd (omega arith);
    old_used = λ i hi. absurd (omega arith);
    distinct = λ i j hi hj ne. rw (place_direct i hi, place_direct j hj) (old.apart i j hi hj ne);
    spent = omega (arith, old.spent, free_count-mark d old.bytes c w first_data first.free);
    table = λ i lo hi. mark-elsewhere d c i (omega (arith, first.below)) ∙ old.table i lo hi;
    kept = λ y lo lt u other.
        let before = old.kept y lo lt u in
        (
          rw (used-mark d old.bytes c y first.free) (ground (arith, before.0)),
          mark-elsewhere d c y (omega (arith, first.below)) ∙ before.1,
        );
  }

-- Block c is the indirect block of a file, and the first `count` of its cells name data blocks that are
-- allocated, apart from each other and from c.
pub record HasEntries (d : Disk) (c : ℕ) (ptr : Block) (count : ℕ) : Type 0 where
  pub c_low : first_data ≤ c
  pub c_high : c < block_num
  pub c_used : used d c ≡ true
  pub c_holds : d c ≡ ptr
  pub low : (i : ℕ) → i < count → first_data ≤ load_word ptr 0 i
  pub high : (i : ℕ) → i < count → load_word ptr 0 i < block_num
  pub marked : (i : ℕ) → i < count → used d (load_word ptr 0 i) ≡ true
  pub apart : (i : ℕ) → i < count → load_word ptr 0 i ≢ c
  pub distinct : (i j : ℕ) → i < count → j < count → i ≢ j → load_word ptr 0 i ≢ load_word ptr 0 j

module _ (buf : Block) (n w : ℕ) (d₀ : Disk) (ino : Inode) (start : Block)
    (start_bytes : IsBuffer start) (ptr : Block) (count : ℕ)
    (entries : HasEntries d₀ (ino.blocks 8) ptr count) (d : Disk) (p : Progress)
    (old : Inv buf n w d₀ ino start 8 d p) (long : 4608 ≤ n) where
  place_old : (j : ℕ) → j < 8 → place p.ino p.final_indirect_block j ≡ p.ino.blocks j
  place_old j lt = rw (lt→ltb j 8 lt) refl

  -- The new direct blocks are none of the old ones.
  new_ne : (j y : ℕ) → j < 8 → used d₀ y ≡ true → place p.ino p.final_indirect_block j ≢ y
  new_ne j y lt u =
      rw (place_old j lt) (λ e. used-ne d₀ y (p.ino.blocks j) u (old.fresh j lt) (sym e))

  pub kept-Rounds : Rounds buf n w d₀ ino (ino.blocks 8) ptr count false 0 d p
  kept-Rounds = record {
    index = old.index;
    cell = old.first_entry;
    remaining = old.remaining;
    enough = omega (arith, old.exact (omega arith));
    already = old.already;
    exact = old.exact;
    allocated = old.no_block_yet;
    overwrite = λ h. absurd (omega arith);
    rest = old.rest;
    ninth = old.later 8 (omega arith);
    later = λ j lo. old.later j (omega arith);
    held = λ j lt. rw (place_old j lt) (old.held j lt);
    apart = λ j lt. new_ne j (ino.blocks 8) lt entries.c_used;
    ahead = λ j i lt lo hi. new_ne j (load_word ptr 0 i) lt (entries.marked i hi);
    distinct = λ i j hi hj ne. rw (place_old i hi, place_old j hj) (old.apart i j hi hj ne);
    bytes = old.bytes;
    final_bytes = rw old.untouched start_bytes;
    c_low = entries.c_low;
    c_high = entries.c_high;
    c_used = (old.kept (ino.blocks 8) entries.c_low entries.c_high entries.c_used).0;
    c_holds =
        (old.kept (ino.blocks 8) entries.c_low entries.c_high entries.c_used).1 ∙ entries.c_holds;
    old_low = entries.low;
    old_high = entries.high;
    old_used = λ i hi. (old.kept _ (entries.low i hi) (entries.high i hi) (entries.marked i hi)).0;
    spent = omega (arith, old.spent);
    table = old.table;
    kept = λ y lo lt u other. old.kept y lo lt u;
  }
