-- ===== src/InodeLayer/Write/Stored.antt =====
-- One round of write_file in the direct section, and what it leaves of the disk.
use file_system.Base.{
  refl, ℕ, ◌+◌, ◌-◌, ◌*◌, ◌≤◌, ◌<◌, ◌≡◌, true, update, minimum, ok, lt→ltb, lt→leb, false, arith,
  ==_of_ne, if◌then◌else◌, ◌≢◌, ==_of_eq, ◌==◌, ◌∙◌, le→ltb,
}
use file_system.Base.Int.{ℤ}
use file_system.Disk.{Block, Disk, Stack, block_num, direct_buffer, memcpy}
use file_system.BlockLayer.{mounted, alloc_block}
use file_system.BlockLayer.Blocks.{write_block-ok}
use file_system.BlockLayer.Bitmap.{used, mark, mark-IsBytes, mark-elsewhere, used-mark}
use file_system.BlockLayer.Alloc.{first_data}
use file_system.Inode.{Inode}
use file_system.InodeLayer.Write.Round.{Progress, chunk, advance, set_entry, write_round}
use file_system.Disk.Laws.{IsBytes}
use file_system.BlockLayer.Space.{
  IsFirstFree, free_count, free_count-same, used-same, free_count-mark,
}

abbrev pub with_block : Inode → ℕ → ℕ → Inode
with_block ino k b = record ino { blocks = update ino.blocks k b }

-- The bytes of round k of a file of n bytes.
abbrev pub round_size : ℕ → ℕ → ℕ
round_size n k = minimum 512 (n - 512 * k)

-- A data block of the disk holds round j of the file.
pub record Holds (buf : Block) (n : ℕ) (d : Disk) (j b : ℕ) : Type 0 where
  pub low : first_data ≤ b
  pub high : b < block_num
  pub marked : used d b ≡ true
  pub bytes : (i : ℕ) → i < round_size n j → d b i ≡ buf (512 * j + i)

-- The disk after a round that got block b and built its contents in its local array.
abbrev pub stored : (ℕ → Block) → Block → Disk → Progress → ℕ → Disk
stored arrays buf d p b = update (mark d b) b (chunk buf arrays p)

module _ (stack : Stack) (buf : Block) (size : ℕ) (old_size : ℤ) where
  pub round-direct :
      (d : Disk) (p : Progress) (b : ℕ)
      → p.already < 4096
      → p.index < 9
      → b < block_num
      → alloc_block stack (mounted d) ≡ ok b (mounted (mark d b))
      → write_round stack buf size old_size p (mounted d)
        ≡ ok
            (advance (record p { ino = with_block p.ino p.index b }))
            (mounted (stored (stack direct_buffer) buf d p b))
  unfolding write_round set_entry
  round-direct d p b early small fits allocated =
      rw (lt→ltb p.already 4096 early, allocated, lt→leb 9 p.index small)
        (rw (write_block-ok b (chunk buf (stack direct_buffer) p) (mounted (mark d b)) fits))

-- The hypotheses on the memory around the call: a char is a byte.
abbrev pub IsBuffer : Block → Type 0
IsBuffer buf = (i : ℕ) → buf i < 256

-- A block that is allocated is not one that is free.
pub used-ne : (d : Disk) (y b : ℕ) → used d y ≡ true → used d b ≡ false → y ≢ b
used-ne d y b u free e = let u' : used d b ≡ true = rw e at u in cc

module _ (arrays : ℕ → Block) (buf : Block) (array_bytes : (k : ℕ) → IsBuffer (arrays k))
    (buf_bytes : IsBuffer buf) (n w : ℕ) (fits : first_data + w ≤ block_num) where
  pub chunk-IsBuffer : (p : Progress) → IsBuffer (chunk buf arrays p)
  unfolding memcpy
  chunk-IsBuffer p i = ground (arith, array_bytes p.index i, buf_bytes (p.index * 512 + (i - 0)))

  pub chunk-round :
      (p : Progress) (k i : ℕ)
      → p.index ≡ k
      → p.remaining ≡ n - 512 * k
      → i < round_size n k
      → chunk buf arrays p i ≡ buf (512 * k + i)
  unfolding memcpy
  chunk-round p k i e r lt =
      let shift : p.index * 512 + (i - 0) ≡ 512 * k + i = omega arith in
      let inside : i < 0 + minimum 512 p.remaining = ground arith in
      rw (le→ltb i 0 (omega arith), lt→ltb i _ inside, shift) refl

  module _ (d : Disk) (p : Progress) (b : ℕ)
      (first : IsFirstFree d (block_num - first_data) first_data b) (d_bytes : IsBytes d) where
    pub bitmap-stored : (i : ℕ) → i < 9 → stored arrays buf d p b i ≡ mark d b i
    bitmap-stored i h = rw (==_of_ne i b (omega (arith, first.from)))

    pub table-stored : (i : ℕ) → 9 ≤ i → i < first_data → stored arrays buf d p b i ≡ d i
    table-stored i lo hi =
        rw (==_of_ne i b (omega (arith, first.from)))
          (mark-elsewhere d b i (omega (arith, first.below)))

    pub used-stored :
        (j : ℕ)
        → j < block_num
        → used (stored arrays buf d p b) j ≡ (if j == b then true else used d j)
    used-stored j h =
        used-same (mark d b) (stored arrays buf d p b) bitmap-stored j h
        ∙ used-mark d d_bytes b j first.free

    pub stored-IsBytes : IsBytes (stored arrays buf d p b)
    stored-IsBytes i j = ground (arith, chunk-IsBuffer p j, mark-IsBytes d b d_bytes i j)

    pub room-stored :
        free_count d w first_data ≤ free_count (stored arrays buf d p b) w first_data + 1
    room-stored =
        rw (free_count-same (mark d b) (stored arrays buf d p b) bitmap-stored w first_data fits)
          (free_count-mark d d_bytes b w first_data first.free)

    -- A block that is allocated stays allocated, and keeps its contents.
    pub stored_other :
        (y : ℕ)
        → first_data ≤ y
        → y < block_num
        → used d y ≡ true
        → (used (stored arrays buf d p b) y ≡ true) × (stored arrays buf d p b y ≡ d y)
    stored_other y lo lt u =
        let ne : y ≢ b = used-ne d y b u first.free in
        (
          rw (used-stored y lt) (ground (arith, u)),
          rw (==_of_ne y b ne) (mark-elsewhere d b y (omega (arith, first.below))),
        )

    pub Holds-stored_old : (j c : ℕ) → Holds buf n d j c → Holds buf n (stored arrays buf d p b) j c
    Holds-stored_old j c h =
        let other = stored_other c h.low h.high h.marked in
        record {
          low = h.low;
          high = h.high;
          marked = other.0;
          bytes = λ i lt. rw other.1 (h.bytes i lt);
        }

    pub Holds-stored_new :
        (k : ℕ)
        → p.index ≡ k
        → p.remaining ≡ n - 512 * k
        → Holds buf n (stored arrays buf d p b) k b
    Holds-stored_new k e r = record {
      low = first.from;
      high = omega (arith, first.below);
      marked = rw (used-stored b (omega (arith, first.below)), ==_of_eq b b refl);
      bytes = λ i lt. rw (==_of_eq b b refl) (chunk-round p k i e r lt);
    }
