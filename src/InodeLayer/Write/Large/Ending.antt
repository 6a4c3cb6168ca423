-- ===== src/InodeLayer/Write/Large/Ending.antt =====
-- What write_file leaves behind its loop of a file with an indirect section.
use file_system.Base.{
  ℕ, ◌+◌, ◌*◌, ◌≤◌, ◌<◌, ◌≡◌, ◌≢◌, refl, ap, ◌∙◌, true, arith, inl, inr, lt_or_ge, update, lt→ltb,
  ==_of_eq, ==_of_ne, Bool, sym,
}
use file_system.Disk.{Block, Disk, block_num}
use file_system.Disk.Laws.{IsBytes}
use file_system.BlockLayer.Alloc.{first_data}
use file_system.BlockLayer.Bitmap.{used}
use file_system.BlockLayer.Space.{free_count, used-same, free_count-same}
use file_system.Inode.{Inode, load_word}
use file_system.Inode.Codec.{Fits}
use file_system.Inode.Table.{
  inode_at-same, used-set_inode, set_inode, inode_at-set_inode, set_inode-elsewhere,
  set_inode-IsBytes,
}
use file_system.InodeLayer.Read.Rounds.{place}
use file_system.InodeLayer.Write.Round.{Progress}
use file_system.InodeLayer.Write.Stored.{Holds}
use file_system.InodeLayer.Write.Indirect.{Rounds}
use file_system.InodeLayer.Write.Large.{IsLarge, Spared}

-- The end of write_file: d₂ is the disk behind the loop, and d₃ the one behind the freeing of entries.
module _ (buf : Block) (n w inum : ℕ) (small : inum < 1024) (long : 4608 ≤ n) (large : n ≤ 69632)
    (d₁ d₂ d₃ : Disk) (ino : Inode) (fit : Fits ino) (typed : ino.type ≢ 0) (flag : Bool) (c : ℕ)
    (ptr : Block) (count k : ℕ) (p : Progress) (v : Rounds buf n w d₁ ino c ptr count flag k d₂ p)
    (done : n ≤ 512 * (8 + k)) (bytes₃ : IsBytes d₃) (behind₃ : (i : ℕ) → 9 ≤ i → d₃ i ≡ d₂ i)
    (keep₃ : (y : ℕ)
      → ((i : ℕ) → k ≤ i → i < count → y ≢ load_word ptr 0 i)
      → used d₃ y ≡ used d₂ y) where
  abbrev pub last_ino : Inode
  last_ino = record ino { size = n; blocks = p.ino.blocks }

  abbrev overwritten : Disk
  overwritten = update d₃ (p.ino.blocks 8) p.final_indirect_block

  abbrev pub last_disk : Disk
  last_disk = set_inode overwritten inum last_ino

  last-Fits : Fits last_ino
  last-Fits = record {
    type = fit.type;
    size = omega arith;
    atime = fit.atime;
    mtime = fit.mtime;
    ctime = fit.ctime;
    blocks = λ j lt. elim (lt_or_ge j 8) [
      | inl direct ↦
          let h : Holds buf n d₂ j (p.ino.blocks j) =
            rw (lt→ltb j 8 direct) at (v.held j (omega arith)) in
          omega (arith, h.high)
      | inr ge ↦ let e : j ≡ 8 = omega arith in rw (e, v.ninth) (omega (arith, v.c_high))
    ];
    beyond = λ j ge. v.later j ge ∙ fit.beyond j ge;
  }

  -- A data block other than the indirect one is what the loop left there.
  last-elsewhere : (y : ℕ) → first_data ≤ y → y ≢ c → last_disk y ≡ d₂ y
  last-elsewhere y lo ne =
      set_inode-elsewhere overwritten inum y last_ino small (inr lo)
      ∙ rw (v.ninth, ==_of_ne y c ne) (behind₃ y (omega arith))

  last-indirect : last_disk (p.ino.blocks 8) ≡ p.final_indirect_block
  last-indirect =
      set_inode-elsewhere overwritten inum (p.ino.blocks 8) last_ino small
        (inr (rw v.ninth v.c_low))
      ∙ rw (==_of_eq (p.ino.blocks 8) (p.ino.blocks 8) refl)

  used-last :
      (y : ℕ)
      → y < block_num
      → ((i : ℕ) → k ≤ i → i < count → y ≢ load_word ptr 0 i)
      → used last_disk y ≡ used d₂ y
  used-last y lt other =
      used-set_inode overwritten inum y last_ino small lt
      ∙ used-same d₃ overwritten (λ i hi. rw (v.ninth, ==_of_ne i c (omega (arith, v.c_low)))) y lt
      ∙ keep₃ y other

  pub last-IsLarge :
      ((i : ℕ) → i < count → load_word ptr 0 i ≢ c) → IsLarge buf n inum last_ino last_disk
  last-IsLarge entries = record {
    at = inode_at-set_inode overwritten inum inum last_ino last-Fits ∙ rw (==_of_eq inum inum refl);
    in_use = typed;
    size = refl;
    long = long;
    large = large;
    bytes =
        set_inode-IsBytes overwritten inum last_ino
          (λ i j. ground (arith, bytes₃ i j, v.final_bytes j));
    c_low = rw v.ninth v.c_low;
    c_high = rw v.ninth v.c_high;
    c_used =
        ap (λ (y : ℕ). used last_disk y) v.ninth
        ∙ used-last c v.c_high (λ i lo hi e. entries i hi (sym e))
        ∙ v.c_used;
    held = λ j lt. rw last-indirect (
        let near : j < 8 + k = omega arith in
        let h : Holds buf n d₂ j (place p.ino p.final_indirect_block j) = v.held j near in
        record {
          low = h.low;
          high = h.high;
          marked = used-last _ h.high (λ i lo hi. v.ahead j i near lo hi) ∙ h.marked;
          bytes = λ i within. rw (last-elsewhere _ h.low (v.apart j near)) (h.bytes i within);
        });
    apart = λ j lt. rw (last-indirect, v.ninth) (v.apart j (omega arith));
    distinct = λ i j hi hj ne. rw last-indirect (v.distinct i j (omega arith) (omega arith) ne);
  }

  pub last-Spared :
      (own : ℕ → Type 0) (d : Disk)
      → ((i : ℕ) → 9 ≤ i → d₁ i ≡ d i)
      → ((y : ℕ) → ¬ own y → used d₁ y ≡ used d y)
      → ((y : ℕ) → used d₁ y ≡ true → ¬ own y → y ≢ c)
      → ((y i : ℕ) → ¬ own y → i < count → y ≢ load_word ptr 0 i)
      → Spared own inum d last_disk
  last-Spared own d behind keep not_c not_entry = record {
    survives = λ y lo lt u out.
        let before : used d₁ y ≡ true = keep y out ∙ u in
        let old = v.kept y lo lt before (λ i hi. not_entry y i out hi) in
        (
          used-last y lt (λ i _ hi. not_entry y i out hi) ∙ old.0,
          last-elsewhere y lo (not_c y before out) ∙ old.1 ∙ behind y (omega arith),
        );
    inodes = λ j lt ne.
        inode_at-set_inode overwritten inum j last_ino last-Fits
        ∙ (rw (==_of_ne j inum ne) (
            inode_at-same d overwritten
              (λ i lo hi.
                rw (v.ninth, ==_of_ne i c (omega (arith, v.c_low)))
                  (behind₃ i lo ∙ v.table i lo hi ∙ behind i lo))
              j lt));
  }

  pub last-room : free_count last_disk 32645 first_data ≡ free_count d₃ 32645 first_data
  last-room =
      free_count-same overwritten last_disk
        (λ i lt. set_inode-elsewhere overwritten inum i last_ino small (inl lt)) 32645 first_data
        (omega arith)
      ∙ free_count-same d₃ overwritten (λ i hi. rw (v.ninth, ==_of_ne i c (omega (arith, v.c_low))))
          32645 first_data (omega arith)
