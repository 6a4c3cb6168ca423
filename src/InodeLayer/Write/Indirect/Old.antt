-- ===== src/InodeLayer/Write/Indirect/Old.antt =====
-- One round of write_file in the indirect section of a file that had one before.
use file_system.Base.{
  ℕ, ◌+◌, ◌*◌, ◌≤◌, ◌<◌, ◌≡◌, ◌≢◌, refl, ◌∙◌, ap, Bool, true, false, arith, ok, update, le→ltb,
  lt→leb, ==_of_eq, ==_of_ne,
}
use file_system.Base.Int.{ℤ, geb}
use file_system.Disk.{Block, Disk, Stack, block_num, temp_buffer, write_indirect}
use file_system.BlockLayer.{mounted}
use file_system.BlockLayer.Blocks.{write_block-ok, read_block-ok}
use file_system.BlockLayer.Bitmap.{used}
use file_system.BlockLayer.Alloc.{first_data}
use file_system.BlockLayer.Space.{free_count-same, used-same}
use file_system.Inode.{Inode, load_word}
use file_system.InodeLayer.Read.{entry}
use file_system.InodeLayer.Write.Round.{
  Progress, chunk, write_round, write_indirect_section, write_new, write_old,
}
use file_system.InodeLayer.Write.Stored.{IsBuffer, chunk-round, chunk-IsBuffer}
use file_system.InodeLayer.Write.Entries.{with_entry}
use file_system.InodeLayer.Write.Indirect.{Rounds, Wrote, step-Rounds, recorded, overwriting}

module _ (stack : Stack) (buf : Block) (size : ℕ) (old_size : ℤ) (p : Progress) (d : Disk) where
  -- The blocks that the file has are written again.
  pub section-kept :
      geb size old_size ≡ true
      → geb 4096 old_size ≡ false
      → geb p.already old_size ≡ false
      → write_indirect_section stack buf size old_size p (mounted d)
        ≡ write_old stack buf p (mounted d)
  unfolding write_indirect_section
  section-kept grown direct within = rw (grown, direct, within) refl

  -- Behind them there are new ones.
  pub section-grown :
      geb size old_size ≡ true
      → geb 4096 old_size ≡ false
      → geb p.already old_size ≡ true
      → write_indirect_section stack buf size old_size p (mounted d)
        ≡ write_new stack buf p (mounted d)
  unfolding write_indirect_section
  section-grown grown direct behind = rw (grown, direct, behind) refl

  -- A file that shrinks keeps its blocks.
  pub section-shrunk :
      geb size old_size ≡ false
      → write_indirect_section stack buf size old_size p (mounted d)
        ≡ write_old stack buf p (mounted d)
  unfolding write_indirect_section
  section-shrunk shrunk = rw shrunk refl

-- A round in the indirect section with a block that the file has.
round-old :
    (stack : Stack) (buf : Block) (size : ℕ) (old_size : ℤ) (d : Disk) (p : Progress) (b : ℕ)
    → p.indirect_index < 128
    → 4096 ≤ p.already
    → write_indirect_section stack buf size old_size (overwriting p) (mounted d)
      ≡ write_old stack buf (overwriting p) (mounted d)
    → p.ino.blocks 8 < block_num
    → load_word (d (p.ino.blocks 8)) 0 p.indirect_index ≡ b
    → b < block_num
    → write_round stack buf size old_size p (mounted d)
      ≡ ok (recorded p p.indirect_index b) (mounted (update d b (chunk buf (stack temp_buffer) p)))
unfolding write_round write_old entry with_entry
round-old stack buf size old_size d p b small late chosen there e fits =
    rw
      (
        le→ltb p.already 4096 late,
        chosen,
        read_block-ok (p.ino.blocks 8) (stack write_indirect p.index) (mounted d) there,
        lt→leb 128 p.indirect_index small,
        e,
      )
      (rw (write_block-ok b _ (mounted d) fits) refl)

module _ (stack : Stack) (buf : Block) (stack_bytes : (k : ℕ) → IsBuffer (stack temp_buffer k))
    (buf_bytes : IsBuffer buf) (n w : ℕ) (fits : first_data + w ≤ block_num) (d₀ : Disk)
    (ino : Inode) (flag : Bool) (c : ℕ) (ptr : Block) (count k : ℕ) (d : Disk) (p : Progress)
    (within : k < count) (v : Rounds buf n w d₀ ino c ptr count flag k d p) where
  abbrev old_block : ℕ
  old_block = load_word ptr 0 k

  abbrev rewritten : Disk
  rewritten = update d old_block (chunk buf (stack temp_buffer) p)

  rewritten-same : (i : ℕ) → i < first_data → rewritten i ≡ d i
  rewritten-same i lt = rw (==_of_ne i old_block (omega (arith, v.old_low k within)))

  used-rewritten : (y : ℕ) → y < block_num → used rewritten y ≡ used d y
  used-rewritten y lt = used-same d rewritten (λ i h. rewritten-same i (omega arith)) y lt

  rewritten-Wrote : Wrote buf n w k d rewritten old_block 0
  rewritten-Wrote = record {
    holds = record {
      low = v.old_low k within;
      high = v.old_high k within;
      marked = used-rewritten old_block (v.old_high k within) ∙ v.old_used k within;
      bytes = λ i lt. rw (==_of_eq old_block old_block refl) (
          chunk-round (stack temp_buffer) buf stack_bytes buf_bytes n w fits p (8 + k) i v.index
            v.remaining lt);
    };
    bytes = λ i j. ground (
      arith,
      v.bytes i j,
      chunk-IsBuffer (stack temp_buffer) buf stack_bytes buf_bytes n w fits p j,
    );
    marks = λ y lo lt u. used-rewritten y lt ∙ u;
    same = λ y lo lt u ne. rw (==_of_ne y old_block ne) refl;
    spent = omega (
      arith,
      free_count-same d rewritten (λ i h. rewritten-same i (omega arith)) w first_data fits,
    );
    table = λ i lo hi. rewritten-same i hi;
  }

  -- One more round, for distinct old entries that are apart from the indirect block.
  pub old_round :
      (old_size : ℤ)
      → n ≤ 69632
      → 512 * (8 + k) < n
      → write_indirect_section stack buf n old_size (overwriting p) (mounted d)
        ≡ write_old stack buf (overwriting p) (mounted d)
      → ((i : ℕ) → i < count → load_word ptr 0 i ≢ c)
      → ((i j : ℕ) → i < count → j < count → i ≢ j → load_word ptr 0 i ≢ load_word ptr 0 j)
      → (d' : Disk) × (p' : Progress) × (write_round stack buf n old_size p (mounted d)
          ≡ ok p' (mounted d'))
        × Rounds buf n w d₀ ino c ptr count flag (k + 1) d' p'
  old_round old_size large more chosen apart distinct = (
    rewritten,
    recorded p k old_block,
    round-old stack buf n old_size d p old_block (omega (arith, v.cell)) v.enough chosen
          (rw v.ninth v.c_high)
          (ap (λ (x : ℕ). load_word (d x) 0 p.indirect_index) v.ninth
            ∙ ap (λ (x : Block). load_word x 0 p.indirect_index) v.c_holds
            ∙ ap (λ (i : ℕ). load_word ptr 0 i) v.cell)
          (v.old_high k within)
        ∙ ap (λ (i : ℕ). ok (recorded p i old_block) (mounted rewritten)) v.cell,
    step-Rounds buf n w d₀ ino c ptr count flag k d p v more rewritten old_block 0 rewritten-Wrote
        (omega arith) (apart k within) (λ j lt. v.ahead j k lt (omega arith) within)
        (λ i lo hi. distinct k i within hi (omega arith)) (λ y u other. other k within),
  )
