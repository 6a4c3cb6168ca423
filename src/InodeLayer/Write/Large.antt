-- ===== src/InodeLayer/Write/Large.antt =====
-- Files with an indirect section.
pub mod Ending
pub mod Contents
pub mod Rewriting
use file_system.Base.{
  ℕ, ◌+◌, ◌*◌, ◌≤◌, ◌<◌, ◌≡◌, ◌≢◌, refl, ap, ◌∙◌, true, false, arith, ok, inl, inr, lt_or_ge,
  update, lt→ltb, lt→leb, le→leb, ==_of_eq, ==_of_ne, ◌⊎◌, Bool, sym,
}
use file_system.Base.Int.{ℤ, pos, geb, to_int, to_int-small}
use file_system.Disk.{
  Block, Disk, Stack, block_num, direct_buffer, indirect_buffer, final_indirect, read_indirect,
}
use file_system.Disk.Laws.{IsBytes}
use file_system.BlockLayer.{mounted}
use file_system.BlockLayer.Blocks.{read_block-ok, write_block-ok}
use file_system.BlockLayer.Alloc.{first_data}
use file_system.BlockLayer.Bitmap.{used}
use file_system.BlockLayer.Space.{free_count, used-same, free_count-same}
use file_system.BlockLayer.Pointers.{IsPointer}
use file_system.Inode.{Inode, load_word}
use file_system.Inode.Codec.{Fits}
use file_system.Inode.Table.{
  inode_at-Fits, inode_at-same, used-set_inode, set_inode, inode_at, inode_at-set_inode,
  set_inode-elsewhere, put_inode-mounted, set_inode-IsBytes,
}
use file_system.InodeLayer.Read.Rounds.{place}
use file_system.InodeLayer.Read.Whole.{IsReadable, touched}
use file_system.InodeLayer.Write.{finish, write_contents}
use file_system.InodeLayer.Write.Round.{Progress}
use file_system.InodeLayer.Write.Stored.{IsBuffer, Holds, used-ne}
use file_system.InodeLayer.Write.Contents.{begin, begin-Inv}
use file_system.InodeLayer.Write.Freeing.{free_direct-Freed}
use file_system.InodeLayer.Write.Indirect.{Rounds}

-- What the disk holds of a file of n bytes in inode `inum` that has an indirect section: its blocks are
-- allocated, and all of them are apart.
pub record IsLarge (buf : Block) (n inum : ℕ) (ino : Inode) (d : Disk) : Type 0 where
  pub at : inode_at d inum ≡ ino
  pub in_use : ino.type ≢ 0
  pub size : ino.size ≡ n
  pub long : 4608 ≤ n
  pub large : n ≤ 69632
  pub bytes : IsBytes d
  pub c_low : first_data ≤ ino.blocks 8
  pub c_high : ino.blocks 8 < block_num
  pub c_used : used d (ino.blocks 8) ≡ true
  pub held : (j : ℕ) → 512 * j < n → Holds buf n d j (place ino (d (ino.blocks 8)) j)
  pub apart : (j : ℕ) → 512 * j < n → place ino (d (ino.blocks 8)) j ≢ ino.blocks 8
  pub distinct :
      (i j : ℕ)
      → 512 * i < n
      → 512 * j < n
      → i ≢ j
      → place ino (d (ino.blocks 8)) i ≢ place ino (d (ino.blocks 8)) j

pub IsLarge-IsReadable :
    (stack : Stack) (buf : Block) (n inum : ℕ) (ino : Inode) (d : Disk)
    → IsLarge buf n inum ino d
    → IsReadable stack buf n inum ino d
IsLarge-IsReadable stack buf n inum ino d s = record {
  at = s.at;
  in_use = s.in_use;
  size = s.size;
  bounded = s.large;
  loads = λ d' above. (
    d (ino.blocks 8),
    read_block-ok (ino.blocks 8) (stack read_indirect 0) (mounted d') s.c_high
        ∙ ap (λ (b : Block). ok b (mounted d')) (above (ino.blocks 8) s.c_low),
    λ j lt.
        let h : Holds buf n d j (place ino (d (ino.blocks 8)) j) = s.held j lt in
        record { high = h.high; bytes = λ i within. rw (above _ h.low) (h.bytes i within) },
  );
}

-- The access time is no part of it.
pub IsLarge-touched :
    (buf : Block) (n inum now : ℕ) (ino : Inode) (d : Disk)
    → inum < 1024
    → IsLarge buf n inum ino d
    → IsLarge buf n inum (touched ino now) (set_inode d inum (touched ino now))
IsLarge-touched buf n inum now ino d small s =
    let d' : Disk = set_inode d inum (touched ino now) in
    let same : (y : ℕ) → first_data ≤ y → d' y ≡ d y =
      λ y lo. set_inode-elsewhere d inum y (touched ino now) small (inr lo) in
    let marks : (y : ℕ) → y < block_num → used d' y ≡ used d y =
      λ y lt. used-set_inode d inum y (touched ino now) small lt in
    let old : Fits ino = rw s.at at (inode_at-Fits d inum s.bytes) in
    let fit : Fits (touched ino now) = record {
      type = old.type;
      size = old.size;
      atime = omega arith;
      mtime = old.mtime;
      ctime = old.ctime;
      blocks = old.blocks;
      beyond = old.beyond;
    } in
    record {
      at = inode_at-set_inode d inum inum (touched ino now) fit ∙ rw (==_of_eq inum inum refl);
      in_use = s.in_use;
      size = s.size;
      long = s.long;
      large = s.large;
      bytes = set_inode-IsBytes d inum (touched ino now) s.bytes;
      c_low = s.c_low;
      c_high = s.c_high;
      c_used = marks (ino.blocks 8) s.c_high ∙ s.c_used;
      held = λ j lt. rw (same (ino.blocks 8) s.c_low) (
          let h : Holds buf n d j (place ino (d (ino.blocks 8)) j) = s.held j lt in
          record {
            low = h.low;
            high = h.high;
            marked = marks _ h.high ∙ h.marked;
            bytes = λ i within. rw (same _ h.low) (h.bytes i within);
          });
      apart = λ j lt. rw (same (ino.blocks 8) s.c_low) (s.apart j lt);
      distinct = λ i j hi hj ne. rw (same (ino.blocks 8) s.c_low) (s.distinct i j hi hj ne);
    }

pub IsLarge-IsPointer :
    (buf : Block) (n inum : ℕ) (ino : Inode) (d : Disk)
    → IsLarge buf n inum ino d
    → (k : ℕ) → k < 9
    → IsPointer (ino.blocks k)
IsLarge-IsPointer buf n inum ino d s k lt = elim (lt_or_ge k 8) [
  | inl direct ↦
      let h : Holds buf n d k (ino.blocks k) =
        rw (lt→ltb k 8 direct) at (s.held k (omega (arith, s.long))) in
      inl h.high
  | inr ge ↦ let e : k ≡ 8 = omega arith in rw e (inl s.c_high)
]

-- How a write has changed the disk outside the blocks that its file had: what was allocated is as it was,
-- and so are the other inodes.
pub record Spared (own : ℕ → Type 0) (inum : ℕ) (d d' : Disk) : Type 0 where
  pub survives :
      (y : ℕ)
      → first_data ≤ y
      → y < block_num
      → used d y ≡ true
      → ¬ own y
      → (used d' y ≡ true) × (d' y ≡ d y)
  pub inodes : (j : ℕ) → j < 1024 → j ≢ inum → inode_at d' j ≡ inode_at d j

-- The blocks that the write of a file without an indirect section takes back, and those of one with one.
abbrev pub DirectBlock : Inode → ℕ → Type 0
DirectBlock ino y = (k : ℕ) × (k < 8) × (y ≡ ino.blocks k)

abbrev pub BlockOf : Disk → ℕ → Inode → ℕ → Type 0
BlockOf d n ino y =
    ((j : ℕ) × (512 * j < n) × (y ≡ place ino (d (ino.blocks 8)) j)) ⊎ (y ≡ ino.blocks 8)
