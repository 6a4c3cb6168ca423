-- ===== src/OldStuff/Partial.antt =====
-- The earlier write_file at a size that is no multiple of the block size.
use file_system.Base.{
  Run, ℕ, zero, suc, ◌+◌, ◌-◌, ◌*◌, ◌%◌, ◌<◌, ◌≡◌, ◌≢◌, ◌⊎◌, inl, inr, refl, arith, ok, fault,
  lt_or_ge, lt→ltb, le→ltb, lt→leb, le→leb, ==_of_ne, Cmd, and_then, update,
}
use file_system.Disk.{Buffer, Block, Disk, Stack, memcpy, direct_buffer, indirect_buffer}
use file_system.BlockLayer.{BlockLayer, mounted}
use file_system.BlockLayer.Blocks.{write_block-ok}
use file_system.Inode.{Inode}
use file_system.InodeLayer.Write.Round.{set_entry}
use file_system.OldStuff.{alloc_block}
use file_system.OldStuff.Alloc.{alloc_block_lem, with_bit}
use file_system.OldStuff.Write.{Position, write_full, write_partial, write_loop}

-- What follows a fault is not run.
bind-fault :
    {A B : Type 0} {m : Run BlockLayer A} (k : A → Cmd BlockLayer B)
    → m ≡ fault
    → and_then m k ≡ fault
bind-fault k e = rw e refl

module _ (stack : Stack) (buf : Block) where
  abbrev full_block : Buffer → Position → Block
  full_block b p = memcpy (stack b p.index) 0 buf (p.index * 512) 512

  abbrev after_full : Position → Inode → Position
  after_full p ino = record {
    ino = ino;
    remaining = p.remaining - 512;
    already = p.already + 512;
    index = p.index + 1;
  }

  -- A block is allocated, among the first 512, or the run faults.
  alloc_block-cases :
      (d : Disk)
      → ((id : ℕ) × (d' : Disk) × (alloc_block stack (mounted d) ≡ ok id (mounted d')) × (id < 512))
        ⊎ (alloc_block stack (mounted d) ≡ fault)
  alloc_block-cases d = elim (alloc_block_lem stack d) [
    | inl (e, _) ↦ inr e
    | inr (x, f, e) ↦ inl (x, with_bit d x, e, f.below)
  ]

  write_partial-fault :
      (p : Position) (d : Disk) → p.remaining < 512 → write_partial stack buf p (mounted d) ≡ fault
  unfolding write_partial
  write_partial-fault p d lt = elim (alloc_block-cases d) [
    | inl (id, d', e, _) ↦ rw (e, lt→ltb p.remaining 512 lt) refl
    | inr e ↦ rw e refl
  ]

  -- A full block either faults or takes 512 bytes off the count.
  write_full-cases :
      (p : Position) (d : Disk)
      → (write_full stack buf p (mounted d) ≡ fault)
        ⊎ ((p' : Position) × (d' : Disk) × (write_full stack buf p (mounted d) ≡ ok p' (mounted d'))
            × (p'.remaining ≡ p.remaining - 512))
  unfolding write_full set_entry
  write_full-cases p d = elim (alloc_block-cases d) [
    | inr e ↦ inl (elim (lt_or_ge 4096 p.already) [
      | inl lt ↦ rw (lt→ltb 4096 p.already lt, e) refl
      | inr ge ↦ rw (le→ltb 4096 p.already ge, e) refl
    ])
    | inl (id, d', e, low) ↦ elim (lt_or_ge 4096 p.already) [
      | inl lt ↦ inr (
        after_full p (record p.ino { blocks = update p.ino.blocks 8 id }),
        update d' id (full_block indirect_buffer p),
        rw
            (
              lt→ltb 4096 p.already lt,
              e,
              write_block-ok id (full_block indirect_buffer p) (mounted d') (omega arith),
            )
            refl,
        refl,
      )
      | inr ge ↦ elim (lt_or_ge p.index 9) [
        | inl inside ↦ inr (
          after_full p (record p.ino { blocks = update p.ino.blocks p.index id }),
          update d' id (full_block direct_buffer p),
          rw
              (
                le→ltb 4096 p.already ge,
                e,
                write_block-ok id (full_block direct_buffer p) (mounted d') (omega arith),
                lt→leb 9 p.index inside,
              )
              refl,
          refl,
        )
        | inr outside ↦ inl (
            rw
              (
                le→ltb 4096 p.already ge,
                e,
                write_block-ok id (full_block direct_buffer p) (mounted d') (omega arith),
                le→leb 9 p.index outside,
              )
              refl)
      ]
    ]
  ]

  -- Whatever the disk, the inode and the string are: when the bytes left to write are no multiple of 512,
  -- the loop of the earlier write_file, on more fuel than bytes left, ends in undefined behaviour.
  pub write_loop-fault :
      (fuel : ℕ) (p : Position) (d : Disk)
      → p.remaining < fuel
      → p.remaining % 512 ≢ 0
      → write_loop stack buf fuel p (mounted d) ≡ fault
  unfolding write_loop
  write_loop-fault zero p d enough odd = absurd (omega arith)
  write_loop-fault (suc fuel) p d enough odd = elim (lt_or_ge 512 p.remaining) [
    | inl lt ↦ elim (write_full-cases p d) [
      | inl e ↦ rw (==_of_ne p.remaining 0 (omega arith), lt→ltb 512 p.remaining lt, e) refl
      | inr (p', d', e, less) ↦
          rw (==_of_ne p.remaining 0 (omega arith), lt→ltb 512 p.remaining lt, e)
            (write_loop-fault fuel p' d' (omega arith) (omega arith))
    ]
    | inr ge ↦
        rw
          (
            ==_of_ne p.remaining 0 (grind arith),
            le→ltb 512 p.remaining ge,
            write_partial-fault p d (grind arith),
          )
          refl
  ]
