-- ===== src/InodeLayer/Write/Large/Rewriting.antt =====
-- write_file behind its checks, for a file that has an indirect section and keeps one.
use file_system.Base.{
  ℕ, ◌+◌, ◌-◌, ◌*◌, ◌≤◌, ◌<◌, ◌≡◌, ◌≢◌, refl, ap, sym, ◌∙◌, arith, ok, update, lt→ltb, le→ltb,
  le→leb, ◌⊎◌, ◌%◌, false, inl, lt_or_ge, inr,
}
use file_system.Base.Int.{pos, geb, to_int, to_int-small}
use file_system.Disk.{Block, Disk, Stack, final_indirect}
use file_system.BlockLayer.{mounted}
use file_system.BlockLayer.Alloc.{first_data}
use file_system.BlockLayer.Bitmap.{used}
use file_system.BlockLayer.Space.{free_count}
use file_system.BlockLayer.Pointers.{Freed, Freed-refl}
use file_system.Inode.{Inode, load_word}
use file_system.Inode.Codec.{Fits}
use file_system.InodeLayer.Read.Rounds.{place}
use file_system.InodeLayer.Write.{finish, write_contents, free_direct}
use file_system.InodeLayer.Write.Stored.{IsBuffer, Holds}
use file_system.InodeLayer.Write.Contents.{begin, begin-Inv}
use file_system.InodeLayer.Write.Each.{AreBlocks, free_each_lem, free_direct-free_each}
use file_system.InodeLayer.Write.Indirect.Loop.{Ends}
use file_system.InodeLayer.Write.Indirect.Opening.{HasEntries}
use file_system.InodeLayer.Write.Indirect.Whole.{HasBytes, write_loop-grown, write_loop-shrunk}
use file_system.InodeLayer.Write.Large.{IsLarge, Spared, BlockOf}
use file_system.InodeLayer.Write.Large.Ending.{last_disk, last-IsLarge, last-Spared, last-room}
use file_system.InodeLayer.Write.Large.Contents.{finish-kept, finish-shrunk, write_contents-parts}

-- The blocks of a file with an indirect section, as the loops of write_file see them.
module _ (buf : Block) (s inum : ℕ) (ino : Inode) (d : Disk) (f : IsLarge buf s inum ino d) where
  pub direct-AreBlocks : AreBlocks d ino.blocks 8 0
  direct-AreBlocks =
      let held : (j : ℕ) → j < 8 → Holds buf s d j (ino.blocks j) =
        λ j lt. rw (lt→ltb j 8 lt) at (f.held j (omega (arith, f.long))) in
      record {
        low = λ k _ hi. (held k hi).low;
        high = λ k _ hi. (held k hi).high;
        marked = λ k _ hi. (held k hi).marked;
        distinct = λ i j _ hi _ hj ne.
            rw (lt→ltb i 8 hi, lt→ltb j 8 hj) at
              (f.distinct i j (omega (arith, f.long)) (omega (arith, f.long)) ne);
      }

  module _ (count : ℕ) (tight : 512 * (8 + count) < s + 512) where
    entry_place : (i : ℕ) → place ino (d (ino.blocks 8)) (8 + i) ≡ load_word (d (ino.blocks 8)) 0 i
    entry_place i =
        let cell : 8 + i - 8 ≡ i = omega arith in rw (le→ltb (8 + i) 8 (omega arith), cell) refl

    entry_held : (i : ℕ) → i < count → Holds buf s d (8 + i) (load_word (d (ino.blocks 8)) 0 i)
    entry_held i lt = rw (entry_place i) at (f.held (8 + i) (omega arith))

    entries_ne :
        (i j : ℕ)
        → i < count
        → j < count
        → i ≢ j
        → load_word (d (ino.blocks 8)) 0 i ≢ load_word (d (ino.blocks 8)) 0 j
    entries_ne i j hi hj ne =
        rw (entry_place i, entry_place j) at
          (f.distinct (8 + i) (8 + j) (omega arith) (omega arith) (λ e. ne (omega arith)))

    -- The direct blocks are none of the others.
    direct_ne_entry :
        (i k : ℕ) → i < count → k < 8 → load_word (d (ino.blocks 8)) 0 i ≢ ino.blocks k
    direct_ne_entry i k hi hk =
        rw (entry_place i, lt→ltb k 8 hk) at
          (f.distinct (8 + i) k (omega arith) (omega (arith, f.long)) (omega arith))

    direct_ne_indirect : (k : ℕ) → k < 8 → ino.blocks 8 ≢ ino.blocks k
    direct_ne_indirect k hk e = (rw (lt→ltb k 8 hk) at (f.apart k (omega (arith, f.long)))) (sym e)

    pub freed-HasEntries :
        (d₁ : Disk)
        → ((i : ℕ) → 9 ≤ i → d₁ i ≡ d i)
        → ((y : ℕ) → ((k : ℕ) → 0 ≤ k → k < 0 + 8 → y ≢ ino.blocks k) → used d₁ y ≡ used d y)
        → HasEntries d₁ (ino.blocks 8) (d (ino.blocks 8)) count
    freed-HasEntries d₁ behind keep = record {
      c_low = f.c_low;
      c_high = f.c_high;
      c_used = keep (ino.blocks 8) (λ k _ hi. direct_ne_indirect k hi) ∙ f.c_used;
      c_holds = behind (ino.blocks 8) (omega (arith, f.c_low));
      low = λ i lt. (entry_held i lt).low;
      high = λ i lt. (entry_held i lt).high;
      marked = λ i lt. keep _ (λ k _ hi. direct_ne_entry i k lt hi) ∙ (entry_held i lt).marked;
      apart = λ i lt. rw (entry_place i) at (f.apart (8 + i) (omega arith));
      distinct = entries_ne;
    }

module _ (stack : Stack) (stack_bytes : HasBytes stack) (buf₀ buf : Block)
    (buf_bytes : IsBuffer buf) (n m : ℕ) (long : 4608 ≤ n) (large : n ≤ 69632) (parts : n ≤ 512 * m)
    (few : 512 * m < n + 512) (s count inum : ℕ) (small : inum < 1024) (ino : Inode) (d : Disk)
    (f : IsLarge buf₀ s inum ino d) (fit : Fits ino) (cover : s ≤ 512 * (8 + count))
    (tight : 512 * (8 + count) < s + 512)
    (aligned : (n ≡ s) ⊎ ((n % 512 ≡ 0) × (s % 512 ≡ 0))) where
  -- What a write of the file comes to.
  abbrev pub Rewrites : Type 0
  Rewrites =
      (d' : Disk) × (write_contents stack inum ino buf n (mounted d) ≡ ok tt (mounted d'))
      × (blocks : ℕ → ℕ) × IsLarge buf n inum (record ino { size = n; blocks = blocks }) d'
      × Spared (BlockOf d s ino) inum d d'
      × (free_count d 32645 first_data + (8 + count) ≤ free_count d' 32645 first_data + m)

  old_size : to_int ino.size ≡ pos s
  old_size = ap to_int f.size ∙ to_int-small s (omega (arith, f.large))

  module _ (d₁ : Disk) (e₁ : free_direct stack ino 8 0 (mounted d) ≡ ok tt (mounted d₁))
      (f₁ : Freed 32645 d d₁)
      (keep₁ : (y : ℕ) → ((k : ℕ) → 0 ≤ k → k < 0 + 8 → y ≢ ino.blocks k) → used d₁ y ≡ used d y)
      (gain : free_count d 32645 first_data + 8 ≤ free_count d₁ 32645 first_data) where
    entries : HasEntries d₁ (ino.blocks 8) (d (ino.blocks 8)) count
    entries = freed-HasEntries buf₀ s inum ino d f count tight d₁ f₁.behind keep₁

    -- The end of a write whose loop ended, with some old entries freed.
    ending :
        (r : Ends stack buf n 32645 d₁ ino
          (pos s)
          false
          (ino.blocks 8)
          (d (ino.blocks 8))
          count
          (n + 1)
          (begin stack buf n 32645 ino)
          d₁)
        (d₃ : Disk)
        → Freed 32645 r.disk d₃
        → ((y : ℕ)
            → ((i : ℕ) → r.k ≤ i → i < count → y ≢ load_word (d (ino.blocks 8)) 0 i)
            → used d₃ y ≡ used r.disk y)
        → finish stack n (pos s) r.last (mounted r.disk)
          ≡ ok tt (mounted (update d₃ (r.last.ino.blocks 8) r.last.final_indirect_block))
        → free_count d₁ 32645 first_data + count ≤ free_count d₃ 32645 first_data + m
        → Rewrites
    ending r d₃ f₃ keep₃ e₃ room =
        let v = r.rounds in
        (
          last_disk buf n 32645 inum small long large d₁ r.disk d₃ ino fit f.in_use false
              (ino.blocks 8) (d (ino.blocks 8)) count r.k r.last v r.done f₃.bytes f₃.behind keep₃,
          write_contents-parts stack buf n 32645 inum small d d₁ d₃ ino false (ino.blocks 8)
              (d (ino.blocks 8)) count (pos s) old_size r e₁ e₃,
          r.last.ino.blocks,
          last-IsLarge buf n 32645 inum small long large d₁ r.disk d₃ ino fit f.in_use false
              (ino.blocks 8) (d (ino.blocks 8)) count r.k r.last v r.done f₃.bytes f₃.behind keep₃
              entries.apart,
          last-Spared buf n 32645 inum small long large d₁ r.disk d₃ ino fit f.in_use false
              (ino.blocks 8) (d (ino.blocks 8)) count r.k r.last v r.done f₃.bytes f₃.behind keep₃
              (BlockOf d s ino) d f₁.behind
              (λ y out.
                keep₁ y (λ k _ hi e. out (inl (k, omega (arith, f.long), rw (lt→ltb k 8 hi) e))))
              (λ y _ out e. out (inr e))
              (λ y i out lt e.
                out
                  (inl (8 + i, omega arith, rw (entry_place buf₀ s inum ino d f count tight i) e))),
          omega (
            arith,
            gain,
            room,
            last-room buf n 32645 inum small long large d₁ r.disk d₃ ino fit f.in_use false
                (ino.blocks 8) (d (ino.blocks 8)) count r.k r.last v r.done f₃.bytes f₃.behind
                keep₃,
          ),
        )

    grown_case : s ≤ n → m ≤ free_count d 32645 first_data + (8 + count) → Rewrites
    unfolding geb
    grown_case grown room =
        let r =
          write_loop-grown stack stack_bytes buf buf_bytes n 32645 (omega arith) long large d₁ ino
            (stack final_indirect 0) stack_bytes.final (n + 1) d₁ (begin stack buf n 32645 ino)
            (omega arith) (begin-Inv stack buf n 32645 ino d₁ f₁.bytes (omega (arith, gain))) s
            (omega (arith, f.long)) (d (ino.blocks 8)) count cover tight entries m grown aligned
            parts (omega (arith, gain)) in
        let v = r.rounds in
        ending r r.disk (Freed-refl 32645 r.disk v.bytes) (λ y other. refl)
          (finish-kept stack n (pos s) r.disk r.last (le→leb s n grown) (omega arith)
            (v.overwrite (omega (arith, r.done))) (rw v.ninth v.c_high))
          (omega (arith, v.spent, r.near, r.done))

    shrunk_case : n < s → Rewrites
    shrunk_case shrunk =
        let r =
          write_loop-shrunk stack stack_bytes buf buf_bytes n 32645 (omega arith) long large d₁ ino
            (stack final_indirect 0) stack_bytes.final (n + 1) d₁ (begin stack buf n 32645 ino)
            (omega arith) (begin-Inv stack buf n 32645 ino d₁ f₁.bytes (omega (arith, gain))) s
            (omega (arith, f.long)) (d (ino.blocks 8)) count cover tight entries shrunk in
        let v = r.rounds in
        let whole : (n % 512 ≡ 0) × (s % 512 ≡ 0) = elim aligned [
          | inl e ↦ absurd (omega arith)
          | inr both ↦ both
        ] in
        let blocks : AreBlocks r.disk (λ i. load_word (d (ino.blocks 8)) 0 i) (count - r.k) r.k =
          record {
            low = λ i lo hi. v.old_low i (omega arith);
            high = λ i lo hi. v.old_high i (omega arith);
            marked = λ i lo hi. v.old_used i (omega arith);
            distinct = λ i j li hi lj hj ne. entries.distinct i j (omega arith) (omega arith) ne;
          } in
        let (d₃, e, f₃, keep₃, gain₃) =
          free_each_lem stack (λ i. load_word (d (ino.blocks 8)) 0 i) (count - r.k) r.k r.disk
            v.bytes blocks in
        ending r d₃ f₃ (λ y other. keep₃ y (λ i lo hi. other i lo (omega arith)))
          (finish-shrunk stack n s (count - r.k) r.disk d₃ r.last shrunk (omega arith)
            (omega (arith, whole.0, whole.1, r.done, r.near))
            (omega (arith, v.cell, f.large, r.done)) (v.overwrite (omega (arith, r.done)))
            (rw v.ninth v.c_high) (rw (v.ninth, v.c_holds, v.cell) e))
          (omega (arith, v.spent, gain₃, r.near, r.done))

  pub write_contents-rewrites : m ≤ free_count d 32645 first_data + (8 + count) → Rewrites
  write_contents-rewrites room =
      let (d₁, e, f₁, keep₁, gain) =
        free_each_lem stack ino.blocks 8 0 d f.bytes (direct-AreBlocks buf₀ s inum ino d f) in
      let e₁ : free_direct stack ino 8 0 (mounted d) ≡ ok tt (mounted d₁) =
        rw (free_direct-free_each stack ino 8 0) e in
      elim (lt_or_ge n s) [
        | inl shrunk ↦ shrunk_case d₁ e₁ f₁ keep₁ gain shrunk
        | inr grown ↦ grown_case d₁ e₁ f₁ keep₁ gain grown room
      ]
