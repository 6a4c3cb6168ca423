-- ===== src/InodeLayer/Write/Indirect/Loop.antt =====
-- The whole loop of write_file for a file with an indirect section.
use file_system.Base.{
  ℕ, zero, suc, ◌+◌, ◌*◌, ◌≤◌, ◌<◌, ◌≡◌, ◌≢◌, refl, ◌∙◌, Bool, arith, ok, eq_or_ne, lt_or_ge, inl,
  inr, ==_of_eq, ==_of_ne,
}
use file_system.Base.Int.{ℤ}
use file_system.Disk.{Block, Disk, Stack, block_num, direct_buffer}
use file_system.BlockLayer.{mounted}
use file_system.BlockLayer.Alloc.{first_data}
use file_system.Inode.{Inode}
use file_system.InodeLayer.Write.{write_loop}
use file_system.InodeLayer.Write.Round.{Progress, write_round}
use file_system.InodeLayer.Write.Stored.{IsBuffer}
use file_system.InodeLayer.Write.Direct.{Inv, step}
use file_system.InodeLayer.Write.Indirect.{Rounds}

-- A loop of write_file that ends, with the whole file of n bytes on the disk.
pub record Ends (stack : Stack) (buf : Block) (n w : ℕ) (d₀ : Disk) (ino : Inode) (old_size : ℤ)
    (flag : Bool) (c : ℕ) (ptr : Block) (count fuel : ℕ) (p : Progress) (d : Disk) : Type 0 where
  pub k : ℕ
  pub disk : Disk
  pub last : Progress
  pub ends : write_loop stack buf n old_size fuel p (mounted d) ≡ ok last (mounted disk)
  pub done : n ≤ 512 * (8 + k)
  pub near : 512 * (8 + k) < n + 512
  pub rounds : Rounds buf n w d₀ ino c ptr count flag k disk last

module _ (stack : Stack) (buf : Block) (n : ℕ) (old_size : ℤ) where
  one_more :
      (fuel : ℕ) (p p₁ : Progress) (d d₁ : Disk)
      → p.remaining ≢ 0
      → write_round stack buf n old_size p (mounted d) ≡ ok p₁ (mounted d₁)
      → write_loop stack buf n old_size (suc fuel) p (mounted d)
        ≡ write_loop stack buf n old_size fuel p₁ (mounted d₁)
  unfolding write_loop
  one_more fuel p p₁ d d₁ ne e = rw (==_of_ne p.remaining 0 ne, e) refl

  pub same_round :
      (fuel : ℕ) (p p' : Progress) (d d' : Disk)
      → p.remaining ≢ 0
      → p'.remaining ≢ 0
      → write_round stack buf n old_size p (mounted d)
        ≡ write_round stack buf n old_size p' (mounted d')
      → write_loop stack buf n old_size fuel p (mounted d)
        ≡ write_loop stack buf n old_size fuel p' (mounted d')
  unfolding write_loop
  same_round zero p p' d d' ne ne' e = refl
  same_round (suc fuel) p p' d d' ne ne' e =
      rw (==_of_ne p.remaining 0 ne, ==_of_ne p'.remaining 0 ne', e) refl

  module _ (w : ℕ) (d₀ : Disk) (ino : Inode) (flag : Bool) (c : ℕ) (ptr : Block) (count : ℕ) where
    pub earlier :
        (fuel fuel' : ℕ) (p p' : Progress) (d d' : Disk)
        → write_loop stack buf n old_size fuel p (mounted d)
          ≡ write_loop stack buf n old_size fuel' p' (mounted d')
        → Ends stack buf n w d₀ ino old_size flag c ptr count fuel' p' d'
        → Ends stack buf n w d₀ ino old_size flag c ptr count fuel p d
    earlier fuel fuel' p p' d d' e r = record {
      k = r.k;
      disk = r.disk;
      last = r.last;
      ends = e ∙ r.ends;
      done = r.done;
      near = r.near;
      rounds = r.rounds;
    }

    -- A round that keeps what holds of the rounds ends the loop, with enough fuel.
    pub write_loop-rounds :
        ((k : ℕ) (d : Disk) (p : Progress)
          → 512 * (8 + k) < n
          → Rounds buf n w d₀ ino c ptr count flag k d p
          → (d' : Disk) × (p' : Progress) × (write_round stack buf n old_size p (mounted d)
              ≡ ok p' (mounted d'))
            × Rounds buf n w d₀ ino c ptr count flag (k + 1) d' p')
        → (fuel k : ℕ) (d : Disk) (p : Progress) → p.remaining < fuel
        → 512 * (8 + k) < n + 512
        → Rounds buf n w d₀ ino c ptr count flag k d p
        → Ends stack buf n w d₀ ino old_size flag c ptr count fuel p d
    unfolding write_loop
    write_loop-rounds round zero k d p enough near v = absurd (omega arith)
    write_loop-rounds round (suc fuel) k d p enough near v = elim (eq_or_ne p.remaining 0) [
      | inl e ↦ record {
        k = k;
        disk = d;
        last = p;
        ends = rw (==_of_eq p.remaining 0 e);
        done = omega (arith, v.remaining);
        near = near;
        rounds = v;
      }
      | inr ne ↦
          let (d₁, p₁, e₁, v₁) = round k d p (omega (arith, v.remaining)) v in
          earlier (suc fuel) fuel p p₁ d d₁ (one_more fuel p p₁ d d₁ ne e₁) (
            write_loop-rounds round fuel (k + 1) d₁ p₁ (omega (arith, v.remaining, v₁.remaining))
              (omega (arith, v.remaining)) v₁)
    ]

-- The eight direct rounds, which come first.
pub write_loop-eight :
    (stack : Stack) (buf : Block)
    → ((k : ℕ) → IsBuffer (stack direct_buffer k))
    → IsBuffer buf
    → (n w : ℕ) → first_data + w ≤ block_num
    → 4096 < n
    → (d₀ : Disk) (ino : Inode) (start : Block) (old_size : ℤ) (fuel k : ℕ) (d : Disk)
      (p : Progress)
    → k ≤ 8
    → p.remaining < fuel
    → Inv buf n w d₀ ino start k d p
    → (fuel' : ℕ) × (d' : Disk) × (p' : Progress) × (write_loop stack buf n old_size fuel p
          (mounted d)
        ≡ write_loop stack buf n old_size fuel' p' (mounted d'))
      × (p'.remaining < fuel')
      × Inv buf n w d₀ ino start 8 d' p'
write_loop-eight stack buf direct_bytes buf_bytes n w fits long d₀ ino start old_size zero k d p low
      enough v =
    absurd (omega arith)
write_loop-eight stack buf direct_bytes buf_bytes n w fits long d₀ ino start old_size (suc fuel) k d
      p low enough v =
    elim (lt_or_ge k 8) [
      | inl lt ↦
          let (d₁, p₁, e₁, v₁) =
            step stack buf direct_bytes buf_bytes n w fits d₀ ino start k d p n old_size lt
              (omega arith) v in
          let (fuel', d', p', e, enough', v') =
            write_loop-eight stack buf direct_bytes buf_bytes n w fits long d₀ ino start old_size
              fuel (k + 1) d₁ p₁ (omega arith) (omega (arith, v.remaining, v₁.remaining)) v₁ in
          (
            fuel',
            d',
            p',
            one_more stack buf n old_size fuel p p₁ d d₁ (omega (arith, v.remaining)) e₁ ∙ e,
            enough',
            v',
          )
      | inr ge ↦ let eight : k ≡ 8 = omega arith in (suc fuel, d, p, refl, enough, rw eight at v)
    ]
