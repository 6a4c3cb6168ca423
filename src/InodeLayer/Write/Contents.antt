-- ===== src/InodeLayer/Write/Contents.antt =====
-- write_file behind its checks, for a file that fits the direct section.
use file_system.Base.{
  ==_of_ne, true, ◌≢◌, sym, ℕ, ◌+◌, ◌*◌, ◌≤◌, ◌<◌, ◌≡◌, refl, ◌∙◌, false, arith, ok, inl, inr,
  lt_or_ge, le→leb, ==_of_eq,
}
use file_system.Base.Int.{to_int}
use file_system.Disk.{Block, Disk, Stack, block_num, direct_buffer, final_indirect}
use file_system.Disk.Laws.{IsBytes}
use file_system.BlockLayer.{mounted}
use file_system.BlockLayer.Alloc.{first_data}
use file_system.BlockLayer.Space.{free_count, free_count-same}
use file_system.BlockLayer.Pointers.{IsPointer, Freed, Freed-refl, free_block-Freed}
use file_system.Inode.{Inode}
use file_system.Inode.Codec.{Fits}
use file_system.Inode.Table.{
  inode_at-same, used-set_inode, set_inode, inode_at, inode_at-set_inode, set_inode-elsewhere,
  put_inode-mounted, set_inode-IsBytes,
}
use file_system.InodeLayer.Read.Rounds.{HasRound}
use file_system.InodeLayer.Write.{finish, write_contents}
use file_system.InodeLayer.Write.Round.{Progress}
use file_system.BlockLayer.Bitmap.{used}
use file_system.InodeLayer.Write.Stored.{used-ne, IsBuffer, Holds}
use file_system.InodeLayer.Write.Direct.{Inv, write_loop-direct}
use file_system.InodeLayer.Write.Freeing.{free_direct-Freed}

-- What the disk holds after a file of n bytes was written to inode `inum`, which was `ino` before.
pub record IsStored (buf : Block) (n inum : ℕ) (ino : Inode) (blocks : ℕ → ℕ) (d : Disk)
    : Type 0 where
  pub at : inode_at d inum ≡ record ino { size = n; blocks = blocks }
  pub fits : Fits (record ino { size = n; blocks = blocks })
  pub pointers : (k : ℕ) → k < 9 → IsPointer (blocks k)
  pub held : (j : ℕ) → 512 * j < n → (first_data ≤ blocks j) × HasRound buf n d j (blocks j)
  pub bytes : IsBytes d

-- How the write of n bytes to inode `inum`, which was `ino` before, has changed the disk: what the
-- inode did not name and was allocated is as it was, and the blocks of the file are apart from it and
-- from each other.
pub record Replaced (w n inum : ℕ) (ino : Inode) (blocks : ℕ → ℕ) (d d' : Disk) : Type 0 where
  pub survives :
      (y : ℕ)
      → first_data ≤ y
      → y < block_num
      → used d y ≡ true
      → ((k : ℕ) → k < 9 → y ≢ ino.blocks k)
      → (used d' y ≡ true) × (d' y ≡ d y)
  pub fresh :
      (j y : ℕ)
      → 512 * j < n
      → used d y ≡ true
      → ((k : ℕ) → k < 9 → y ≢ ino.blocks k)
      → blocks j ≢ y
  pub marked : (j : ℕ) → 512 * j < n → blocks j ≢ ino.blocks 8 → used d' (blocks j) ≡ true
  pub apart : (i j : ℕ) → 512 * i < n → 512 * j < n → i ≢ j → blocks i ≢ blocks j
  pub later : (j : ℕ) → n ≤ 512 * j → blocks j ≡ ino.blocks j
  pub inodes : (j : ℕ) → j < 1024 → j ≢ inum → inode_at d' j ≡ inode_at d j
  pub spent : free_count d w first_data ≤ free_count d' w first_data + 8

module _ (stack : Stack) (buf : Block) (n w : ℕ) where
  -- What the loop starts from.
  abbrev pub begin : Inode → Progress
  begin ino = record {
    remaining = n;
    already = 0;
    need_to_overwrite_indirect = false;
    already_allocated_indirect = false;
    index = 0;
    indirect_index = 0;
    ino = ino;
    final_indirect_block = stack final_indirect 0;
  }

  pub begin-Inv :
      (ino : Inode) (d : Disk)
      → IsBytes d
      → 8 ≤ free_count d w first_data
      → Inv buf n w d ino (stack final_indirect 0) 0 d (begin ino)
  begin-Inv ino d h room = record {
    index = refl;
    remaining = omega arith;
    already = omega arith;
    exact = λ lo. refl;
    lag = λ h. absurd (omega arith);
    first_entry = refl;
    no_block_yet = refl;
    overwrite = refl;
    untouched = refl;
    rest = refl;
    later = λ j lo. refl;
    held = λ j lt. absurd (omega arith);
    bytes = h;
    kept = λ y lo lt u. (u, refl);
    fresh = λ j lt. absurd (omega arith);
    apart = λ i j lt. absurd (omega arith);
    spent = omega arith;
    room = omega arith;
    table = λ i lo hi. refl;
  }

module _ (stack : Stack) (stack_bytes : (k : ℕ) → IsBuffer (stack direct_buffer k)) (buf : Block)
    (buf_bytes : IsBuffer buf) (n w : ℕ) (short : n ≤ 4096)
    (space : first_data + w ≤ block_num) where
  finish-direct :
      (d : Disk) (p : Progress) (old_size : ℕ)
      → IsBytes d
      → p.need_to_overwrite_indirect ≡ false
      → IsPointer (p.ino.blocks 8)
      → (d' : Disk) × (finish stack n (to_int old_size) p (mounted d) ≡ ok tt (mounted d'))
        × Freed w d d'
        × ((y : ℕ) → y ≢ p.ino.blocks 8 → used d' y ≡ used d y)
  unfolding finish
  finish-direct d p old_size h quiet pointer =
      let (d', e, f, _, keep) = free_block-Freed stack w d (p.ino.blocks 8) h pointer in
      (d', rw (quiet, le→leb n 4096 short) e, f, keep)

  module _ (inum m : ℕ) (small : inum < 1024) (ino : Inode) (d₁ d₂ d₃ : Disk) (p : Progress)
      (done : n ≤ 512 * m) (near : 512 * m < n + 512)
      (v : Inv buf n w d₁ ino (stack final_indirect 0) m d₂ p) (f : Freed w d₂ d₃) (fit : Fits ino)
      (pointers : (k : ℕ) → k < 9 → IsPointer (ino.blocks k)) where
    blocks-IsPointer : (k : ℕ) → k < 9 → IsPointer (p.ino.blocks k)
    blocks-IsPointer k lt = elim (lt_or_ge k m) [
      | inl new ↦ inl (v.held k new).high
      | inr old ↦ rw (v.later k old) (pointers k lt)
    ]

    new-Fits : Fits (record ino { size = n; blocks = p.ino.blocks })
    new-Fits = record {
      type = fit.type;
      size = omega arith;
      atime = fit.atime;
      mtime = fit.mtime;
      ctime = fit.ctime;
      blocks = λ k lt. elim (lt_or_ge k m) [
        | inl new ↦ omega (arith, (v.held k new).high)
        | inr old ↦ rw (v.later k old) (fit.blocks k lt)
      ];
      beyond = λ k ge. v.later k (omega arith) ∙ fit.beyond k ge;
    }

    new-IsStored :
        IsStored buf n inum ino p.ino.blocks (set_inode d₃ inum (record p.ino { size = n }))
    new-IsStored = rw v.rest (record {
      at = inode_at-set_inode d₃ inum inum _ new-Fits ∙ rw (==_of_eq inum inum refl);
      fits = new-Fits;
      pointers = blocks-IsPointer;
      held = λ j lt.
          let h : Holds buf n d₂ j (p.ino.blocks j) = v.held j (omega arith) in
          (
            h.low,
            record {
              high = h.high;
              bytes = λ i within.
                  rw
                    (
                      set_inode-elsewhere d₃ inum (p.ino.blocks j) _ small (inr h.low),
                      f.behind (p.ino.blocks j) (omega (arith, h.low)),
                    )
                    (h.bytes i within);
            },
          );
      bytes = set_inode-IsBytes d₃ inum _ f.bytes;
    })

    module _ (d : Disk) (f₁ : Freed w d d₁)
        (keep₁ : (y : ℕ) → ((k : ℕ) → 0 ≤ k → k < 0 + 8 → y ≢ ino.blocks k) → used d₁ y ≡ used d y)
        (keep₃ : (y : ℕ) → y ≢ p.ino.blocks 8 → used d₃ y ≡ used d₂ y) where
      abbrev final : Disk
      final = set_inode d₃ inum (record p.ino { size = n })

      used-final : (y : ℕ) → y < block_num → y ≢ ino.blocks 8 → used final y ≡ used d₂ y
      used-final y lt ne =
          used-set_inode d₃ inum y (record p.ino { size = n }) small lt
          ∙ keep₃ y (rw (v.later 8 (omega arith)) ne)

      same-final : (y : ℕ) → first_data ≤ y → final y ≡ d₂ y
      same-final y lo =
          set_inode-elsewhere d₃ inum y (record p.ino { size = n }) small (inr lo)
          ∙ f.behind y (omega arith)

      new-Replaced : Replaced w n inum ino p.ino.blocks d final
      new-Replaced = record {
        survives = λ y lo lt u other.
            let before : used d₁ y ≡ true = keep₁ y (λ k _ hi. other k (omega arith)) ∙ u in
            let old = v.kept y lo lt before in
            (
              used-final y lt (other 8 (omega arith)) ∙ old.0,
              same-final y lo ∙ old.1 ∙ f₁.behind y (omega arith),
            );
        fresh = λ j y lt u other e.
            let before : used d₁ y ≡ true = keep₁ y (λ k _ hi. other k (omega arith)) ∙ u in
            used-ne d₁ y (p.ino.blocks j) before (v.fresh j (omega arith)) (sym e);
        marked = λ j lt ne.
            let h : Holds buf n d₂ j (p.ino.blocks j) = v.held j (omega arith) in
            used-final (p.ino.blocks j) h.high ne ∙ h.marked;
        apart = λ i j hi hj ne. v.apart i j (omega arith) (omega arith) ne;
        later = λ j ge. v.later j (omega arith);
        inodes = λ j lt ne.
            inode_at-set_inode d₃ inum j _ (rw v.rest new-Fits)
            ∙ (rw (==_of_ne j inum ne) (
                inode_at-same d d₃ (λ i lo hi. f.behind i lo ∙ v.table i lo hi ∙ f₁.behind i lo) j
                  lt));
        spent = omega (
          arith,
          f₁.room,
          v.spent,
          f.room,
          free_count-same d₃ final (λ i lt. set_inode-elsewhere d₃ inum i _ small (inl lt)) w
              first_data space,
        );
      }

  pub write_contents-direct :
      (inum : ℕ) (ino : Inode) (d : Disk)
      → inum < 1024
      → IsBytes d
      → 8 ≤ free_count d w first_data
      → Fits ino
      → ((k : ℕ) → k < 9 → IsPointer (ino.blocks k))
      → (d' : Disk) × (write_contents stack inum ino buf n (mounted d) ≡ ok tt (mounted d'))
        × (blocks : ℕ → ℕ) × IsStored buf n inum ino blocks d'
        × Replaced w n inum ino blocks d d'
  unfolding write_contents
  write_contents-direct inum ino d small h room fit pointers =
      let (d₁, e₁, f₁, _, keep₁) = free_direct-Freed stack w ino 8 0 d h (omega arith) pointers in
      let (m, d₂, p, e₂, done, near, v) =
        write_loop-direct stack buf stack_bytes buf_bytes n w space d₁ ino (stack final_indirect 0)
          (n + 1) 0 d₁ (begin stack buf n w ino) n (to_int ino.size) short (omega arith)
          (omega arith) (begin-Inv stack buf n w ino d₁ f₁.bytes (omega (arith, f₁.room))) in
      let (d₃, e₃, f₃, keep₃) = finish-direct d₂ p ino.size v.bytes v.overwrite (
        blocks-IsPointer inum m small ino d₁ d₂ d₂ p done near v (Freed-refl w d₂ v.bytes) fit
          pointers 8 (omega arith)) in
      (
        set_inode d₃ inum (record p.ino { size = n }),
        rw (e₁, e₂, e₃) (put_inode-mounted stack d₃ inum (record p.ino { size = n }) small),
        p.ino.blocks,
        new-IsStored inum m small ino d₁ d₂ d₃ p done near v f₃ fit pointers,
        new-Replaced inum m small ino d₁ d₂ d₃ p done near v f₃ fit pointers d f₁ keep₁ keep₃,
      )
