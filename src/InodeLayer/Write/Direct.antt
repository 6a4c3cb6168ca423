-- ===== src/InodeLayer/Write/Direct.antt =====
-- The loop of write_file in the direct section.
use file_system.Base.{
  Bool-cases, zero, suc, ℕ, ◌+◌, ◌-◌, ◌*◌, ◌≤◌, ◌<◌, ◌≡◌, true, update, ok, false, arith, ==_of_ne,
  ◌≢◌, ==_of_eq, ◌∙◌, ap, eq_or_ne, suc, inl, sym, inr,
}
use file_system.Base.Int.{ℤ}
use file_system.Disk.{Block, Disk, Stack, block_num, direct_buffer}
use file_system.BlockLayer.{mounted}
use file_system.BlockLayer.Bitmap.{used}
use file_system.BlockLayer.Alloc.{first_data}
use file_system.Inode.{Inode}
use file_system.InodeLayer.Write.Round.{Progress, advance, write_round}
use file_system.Disk.Laws.{IsBytes}
use file_system.BlockLayer.Space.{IsFirstFree, free_count, alloc_block-free}
use file_system.InodeLayer.Write.{write_loop}
use file_system.InodeLayer.Write.Stored.{
  used-ne, stored_other, room-stored, table-stored, Holds, IsBuffer, with_block, stored,
  round-direct, Holds-stored_new, Holds-stored_old, stored-IsBytes,
}

-- After k rounds: the first k blocks of the file are on the disk, in blocks that were free
-- and are apart; what was allocated is as it was.
pub record Inv (buf : Block) (n w : ℕ) (d₀ : Disk) (ino : Inode) (start : Block) (k : ℕ) (d : Disk)
    (p : Progress) : Type 0 where
  pub index : p.index ≡ k
  pub remaining : p.remaining ≡ n - 512 * k
  pub already : p.already ≤ 512 * k
  pub exact : 512 * (k + 1) ≤ n → p.already ≡ 512 * k
  pub lag : 0 < k → 512 * k < n → n ≤ 512 * (k + 1) → p.already + 512 ≡ n
  pub first_entry : p.indirect_index ≡ 0
  pub no_block_yet : p.already_allocated_indirect ≡ false
  pub overwrite : p.need_to_overwrite_indirect ≡ false
  pub untouched : p.final_indirect_block ≡ start
  pub rest : p.ino ≡ record ino { blocks = p.ino.blocks }
  pub later : (j : ℕ) → k ≤ j → p.ino.blocks j ≡ ino.blocks j
  pub held : (j : ℕ) → j < k → Holds buf n d j (p.ino.blocks j)
  pub bytes : IsBytes d
  pub kept :
      (y : ℕ) → first_data ≤ y → y < block_num → used d₀ y ≡ true → (used d y ≡ true) × (d y ≡ d₀ y)
  pub fresh : (j : ℕ) → j < k → used d₀ (p.ino.blocks j) ≡ false
  pub apart : (i j : ℕ) → i < k → j < k → i ≢ j → p.ino.blocks i ≢ p.ino.blocks j
  pub spent : free_count d₀ w first_data ≤ free_count d w first_data + k
  pub room : 8 ≤ free_count d w first_data + k
  pub table : (i : ℕ) → 9 ≤ i → i < first_data → d i ≡ d₀ i

module _ (stack : Stack) (buf : Block) (stack_bytes : (k : ℕ) → IsBuffer (stack direct_buffer k))
    (buf_bytes : IsBuffer buf) (n w : ℕ) (fits : first_data + w ≤ block_num) (d₀ : Disk)
    (ino : Inode) (start : Block) where
  -- The block of one more round.
  module _ (k : ℕ) (d : Disk) (p : Progress) (b : ℕ) (v : Inv buf n w d₀ ino start k d p)
      (first : IsFirstFree d (block_num - first_data) first_data b) where
    unused : used d₀ b ≡ false
    unused = elim (Bool-cases (used d₀ b)) [
      | inl u ↦
          let old = (v.kept b first.from (omega (arith, first.below)) u).0 in cc (old, first.free)
      | inr u ↦ u
    ]

    new-ne : (j : ℕ) → j < k → p.ino.blocks j ≢ b
    new-ne j h = used-ne d (p.ino.blocks j) b (v.held j h).marked first.free

    fresh-step : (j : ℕ) → j < k + 1 → used d₀ (update p.ino.blocks p.index b j) ≡ false
    fresh-step j h = elim (eq_or_ne j p.index) [
      | inl e ↦ rw (==_of_eq j p.index e) unused
      | inr ne ↦ rw (==_of_ne j p.index ne) (v.fresh j (omega (arith, v.index)))
    ]

    apart-step :
        (i j : ℕ)
        → i < k + 1
        → j < k + 1
        → i ≢ j
        → update p.ino.blocks p.index b i ≢ update p.ino.blocks p.index b j
    apart-step i j hi hj ne = elim (eq_or_ne i p.index) [
      | inl ei ↦
          let nj : j ≢ p.index = λ ej. ne (ei ∙ sym ej) in
          rw (==_of_eq i p.index ei, ==_of_ne j p.index nj)
            (λ e. new-ne j (omega (arith, v.index)) (sym e))
      | inr ni ↦ elim (eq_or_ne j p.index) [
        | inl ej ↦
            rw (==_of_ne i p.index ni, ==_of_eq j p.index ej) (new-ne i (omega (arith, v.index)))
        | inr nj ↦
            rw (==_of_ne i p.index ni, ==_of_ne j p.index nj)
              (v.apart i j (omega (arith, v.index)) (omega (arith, v.index)) ne)
      ]
    ]

  pub step :
      (k : ℕ) (d : Disk) (p : Progress) (size : ℕ) (old_size : ℤ)
      → k < 8
      → 512 * k < n
      → Inv buf n w d₀ ino start k d p
      → (d' : Disk) × (p' : Progress) × (write_round stack buf size old_size p (mounted d)
          ≡ ok p' (mounted d'))
        × Inv buf n w d₀ ino start (k + 1) d' p'
  step k d p size old_size short more v =
      let (b, allocated, first) = alloc_block-free stack d w fits (omega (arith, v.room)) in
      let p' : Progress = advance (record p { ino = with_block p.ino p.index b }) in
      (
        stored (stack direct_buffer) buf d p b,
        p',
        round-direct stack buf size old_size d p b (omega (arith, v.already))
            (omega (arith, v.index)) (omega (arith, first.below)) allocated,
        record {
          index = omega (arith, v.index);
          remaining = ground (arith, v.remaining);
          already = ground (arith, v.remaining, v.already);
          exact = λ lo. ground (arith, v.remaining, v.exact (omega arith));
          lag = λ _ lo hi. ground (arith, v.remaining, v.exact (omega arith));
          first_entry = v.first_entry;
          no_block_yet = v.no_block_yet;
          overwrite = v.overwrite;
          untouched = v.untouched;
          rest = ap (λ (x : Inode). record x { blocks = update p.ino.blocks p.index b }) v.rest;
          later = λ j h. rw (==_of_ne j p.index (omega (arith, v.index))) (v.later j (omega arith));
          held = λ j h. elim (eq_or_ne j p.index) [
            | inl e ↦ rw (==_of_eq j p.index e) (
                Holds-stored_new (stack direct_buffer) buf stack_bytes buf_bytes n w fits d p b
                  first v.bytes j (sym e) (omega (arith, v.index, v.remaining)))
            | inr ne ↦ rw (==_of_ne j p.index ne) (
                Holds-stored_old (stack direct_buffer) buf stack_bytes buf_bytes n w fits d p b
                  first v.bytes j _ (v.held j (omega (arith, v.index))))
          ];
          bytes =
              stored-IsBytes (stack direct_buffer) buf stack_bytes buf_bytes n w fits d p b first
                v.bytes;
          kept = λ y lo lt u.
              let old = v.kept y lo lt u in
              let new =
                stored_other (stack direct_buffer) buf stack_bytes buf_bytes n w fits d p b first
                  v.bytes y lo lt old.0 in
              (new.0, new.1 ∙ old.1);
          fresh = fresh-step k d p b v first;
          apart = apart-step k d p b v first;
          spent = omega (
            arith,
            v.spent,
            room-stored (stack direct_buffer) buf stack_bytes buf_bytes n w fits d p b first
                v.bytes,
          );
          room = omega (
            arith,
            v.room,
            room-stored (stack direct_buffer) buf stack_bytes buf_bytes n w fits d p b first
                v.bytes,
          );
          table = λ i lo hi.
              table-stored (stack direct_buffer) buf stack_bytes buf_bytes n w fits d p b first
                v.bytes i lo hi
              ∙ v.table i lo hi;
        },
      )

  pub write_loop-direct :
      (fuel k : ℕ) (d : Disk) (p : Progress) (size : ℕ) (old_size : ℤ)
      → n ≤ 4096
      → p.remaining < fuel
      → 512 * k < n + 512
      → Inv buf n w d₀ ino start k d p
      → (m : ℕ) × (d' : Disk) × (p' : Progress) × (write_loop stack buf size old_size fuel p
            (mounted d)
          ≡ ok p' (mounted d'))
        × (n ≤ 512 * m)
        × (512 * m < n + 512)
        × Inv buf n w d₀ ino start m d' p'
  unfolding write_loop
  write_loop-direct zero k d p size old_size short enough near v = absurd (omega arith)
  write_loop-direct (suc fuel) k d p size old_size short enough near v =
      elim (eq_or_ne p.remaining 0) [
        | inl e ↦ (k, d, p, rw (==_of_eq p.remaining 0 e), omega (arith, v.remaining), near, v)
        | inr ne ↦
            let (d₁, p₁, e₁, v₁) =
              step k d p size old_size (omega (arith, v.remaining)) (omega (arith, v.remaining))
                v in
            let (m, d₂, p₂, e₂, done, end, v₂) =
              write_loop-direct fuel (k + 1) d₁ p₁ size old_size short
                (omega (arith, v.remaining, v₁.remaining)) (omega (arith, v.remaining)) v₁ in
            (m, d₂, p₂, rw (==_of_ne p.remaining 0 ne, e₁) e₂, done, end, v₂)
      ]
