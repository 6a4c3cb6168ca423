-- ===== src/InodeLayer/Termination/Writing.antt =====
-- The loops of inode_layer::write_file and the calls in them, from any state.
use file_system.Base.{
  ◌≢◌, out_of_fuel, ◌∙◌, refl, ◌==◌, true, false, none, some, ap, sym, subst, ℕ, zero, suc, ◌≡◌,
  ◌<◌, arith, ◌-◌, minimum, ap, Option, ◌+◌, ◌∙◌, true, some, pure,
}
use file_system.Base.Meets.{
  Meets, Any, Meets-if, Meets-pure, Meets-test, Meets-undefined, Meets-bind, Meets-next,
  Outcome-ends, Meets-weaken,
}
use file_system.InodeLayer.{InodeLayer}
use file_system.InodeLayer.Termination.{
  left_lem, entry-Meets, get_inode-Meets, put_inode-Meets, on_bm-Meets, on_rwlock-Meets, Stack,
  Inode, read_block-Meets, ℤ, to_int, pos_part,
}
use file_system.InodeLayer.Write.Round.{
  Progress, set_entry, record_entry, write_direct, write_new, write_old, ensure_indirect,
  write_indirect_section, write_round,
}
use file_system.Disk.{Stack, Block, block_size}
use file_system.InodeLayer.Write.{
  free_direct, free_entries, write_loop, finish, write_contents, write_file, write_found,
}
use file_system.Inode.{Inode}
use file_system.BlockLayer.Termination.{
  alloc_block-Meets, read_block-Meets, free_block-Meets, write_block-Meets,
}
use file_system.RwLock.Termination.{writer_exit-Meets, writer_enter-Meets}

-- What a round of free_entries leaves of more than nothing is less.
freed_lem : (fuel left : ℕ) → left < suc fuel → (left == 0) ≡ false → left - block_size < fuel
freed_lem fuel left h k = ground arith

-- The branches of a round leave the count of what remains alone.
abbrev Keeps : Progress → Progress → Type 0
Keeps p p' = p'.remaining ≡ p.remaining

abbrev Shrinks : Progress → Progress → Type 0
Shrinks p p' = p'.remaining ≡ p.remaining - minimum block_size p.remaining

module _ (stack : Stack) where
  free_direct-Meets :
      (ino : Inode) (rounds x : ℕ) → Meets {A = Unit {0}} Any (free_direct stack ino rounds x)
  unfolding free_direct
  free_direct-Meets ino zero x = Meets-pure Any _ tt
  free_direct-Meets ino (suc rounds) x =
      Meets-next Any _ _ (free_block-Meets stack _) (free_direct-Meets ino rounds (suc x))

  -- Each round takes from what is left to free, so more fuel than that is enough.
  free_entries-Meets :
      (ptr : Block) (fuel left index : ℕ)
      → left < fuel
      → Meets {A = Unit {0}} Any (free_entries stack ptr fuel left index)
  unfolding free_entries
  free_entries-Meets ptr zero left index h = absurd (omega arith)
  free_entries-Meets ptr (suc fuel) left index h =
      Meets-test Any (left == 0) _ _ (λ _. Meets-pure Any _ tt)
        λ more. Meets-bind Any Any _ _ (entry-Meets stack ptr index) λ id _.
          Meets-next Any _ _ (free_block-Meets stack id) (
            free_entries-Meets ptr fuel (left - block_size) (index + 1)
              (freed_lem fuel left h more))

  set_entry-Meets : (ino : Inode) (k id : ℕ) → Meets {A = Inode} Any (set_entry ino k id)
  unfolding set_entry
  set_entry-Meets ino k id = Meets-if Any _ _ _ (Meets-undefined Any) (Meets-pure Any _ tt)

  record_entry-Meets : (block : Block) (k id : ℕ) → Meets {A = Block} Any (record_entry block k id)
  unfolding record_entry
  record_entry-Meets block k id = Meets-if Any _ _ _ (Meets-undefined Any) (Meets-pure Any _ tt)

  module _ (buf : Block) where
    write_direct-Meets : (p : Progress) → Meets (Keeps p) (write_direct stack buf p)
    unfolding write_direct
    write_direct-Meets p = Meets-bind Any (Keeps p) _ _ (alloc_block-Meets stack) λ id _.
        Meets-bind Any (Keeps p) _ _ (set_entry-Meets p.ino p.index id) λ ino' _.
          Meets-bind Any (Keeps p) _ _ (write_block-Meets id _) λ u _. Meets-pure (Keeps p) _ refl

    write_new-Meets : (p : Progress) → Meets (Keeps p) (write_new stack buf p)
    unfolding write_new
    write_new-Meets p = Meets-bind Any (Keeps p) _ _ (alloc_block-Meets stack) λ id _.
        Meets-bind Any (Keeps p) _ _ (write_block-Meets id _) λ u _.
          Meets-bind Any (Keeps p) _ _
            (record_entry-Meets p.final_indirect_block p.indirect_index id)
            λ b _. Meets-pure (Keeps p) _ refl

    write_old-Meets : (p : Progress) → Meets (Keeps p) (write_old stack buf p)
    unfolding write_old
    write_old-Meets p =
        Meets-bind Any (Keeps p) _ _ (read_block-Meets (p.ino.blocks 8) _) λ block _.
          Meets-bind Any (Keeps p) _ _ (entry-Meets stack block p.indirect_index) λ id _.
            Meets-bind Any (Keeps p) _ _ (write_block-Meets id _) λ u _.
              Meets-bind Any (Keeps p) _ _
                (record_entry-Meets p.final_indirect_block p.indirect_index id)
                λ b _. Meets-pure (Keeps p) _ refl

    ensure_indirect-Meets : (p : Progress) → Meets (Keeps p) (ensure_indirect stack buf p)
    unfolding ensure_indirect
    ensure_indirect-Meets p =
        let done : Inode → Progress =
          λ ino'. record p { ino = ino'; already_allocated_indirect = true } in
        Meets-if (Keeps p) _ _ _ (Meets-pure (Keeps p) _ refl) (
          Meets-bind Any (Keeps p) _ _ (alloc_block-Meets stack) λ id _.
            Meets-bind Any (Keeps p) _ (λ ino'. pure (done ino')) (set_entry-Meets p.ino 8 id)
              λ ino' _. Meets-pure (Keeps p) (done ino') refl)

    write_indirect_section-Meets :
        (size : ℕ) (old_size : ℤ) (p : Progress)
        → Meets (Keeps p) (write_indirect_section stack buf size old_size p)
    unfolding write_indirect_section
    write_indirect_section-Meets size old_size p =
        Meets-if (Keeps p) _ _ _
          (Meets-if (Keeps p) _ _ _
            (Meets-bind (Keeps p) (Keeps p) _ _ (ensure_indirect-Meets p)
              λ p' e. Meets-weaken (Keeps p') (Keeps p) (λ p'' e'. e' ∙ e) _ (write_new-Meets p'))
            (Meets-if (Keeps p) _ _ _ (write_new-Meets p) (write_old-Meets p)))
          (write_old-Meets p)

    write_round-Meets :
        (size : ℕ) (old_size : ℤ) (p : Progress)
        → Meets (Shrinks p) (write_round stack buf size old_size p)
    unfolding write_round
    write_round-Meets size old_size p =
        Meets-if (Shrinks p) _ _ _
          (Meets-bind (Keeps p) (Shrinks p) _ _ (write_direct-Meets p)
            λ p' e. Meets-pure (Shrinks p) _ (ap (λ n. n - minimum block_size n) e))
          (Meets-bind (Keeps p) (Shrinks p) _ _
            (write_indirect_section-Meets size old_size
              (record p { need_to_overwrite_indirect = true }))
            λ p' e. Meets-pure (Shrinks p) _ (ap (λ n. n - minimum block_size n) e))

    -- Each round takes from what remains, so more fuel than that is enough.
    write_loop-Meets :
        (size : ℕ) (old_size : ℤ) (fuel : ℕ) (p : Progress)
        → p.remaining < fuel
        → Meets {A = Progress} Any (write_loop stack buf size old_size fuel p)
    unfolding write_loop
    write_loop-Meets size old_size zero p h = absurd (omega arith)
    write_loop-Meets size old_size (suc fuel) p h =
        Meets-test Any (p.remaining == 0) _ _ (λ _. Meets-pure Any _ tt)
          λ more. Meets-bind (Shrinks p) Any _ _ (write_round-Meets size old_size p) λ p' e.
            write_loop-Meets size old_size fuel p'
              (subst (λ n. n < fuel) (sym e) (left_lem fuel p.remaining h more))

  finish-Meets :
      (size : ℕ) (old_size : ℤ) (p : Progress)
      → Meets {A = Unit {0}} Any (finish stack size old_size p)
  unfolding finish
  finish-Meets size old_size p =
      let left = pos_part old_size - size in
      Meets-next Any _ _
        (Meets-if Any _ _ _
          (Meets-bind Any Any _ _ (read_block-Meets (p.ino.blocks 8) _)
            λ block _. free_entries-Meets block (left + 1) left p.indirect_index (omega arith))
          (Meets-pure Any _ tt))
        (Meets-next Any _ _
          (Meets-if Any _ _ _ (write_block-Meets (p.ino.blocks 8) p.final_indirect_block)
            (Meets-pure Any _ tt))
          (Meets-if Any _ _ _ (free_block-Meets stack (p.ino.blocks 8)) (Meets-pure Any _ tt)))

  write_contents-Meets :
      (inum : ℕ) (ino : Inode) (buf : Block) (size : ℕ)
      → Meets {A = Unit {0}} Any (write_contents stack inum ino buf size)
  unfolding write_contents
  write_contents-Meets inum ino buf size = Meets-next Any _ _ (free_direct-Meets ino 8 0) (
      Meets-bind Any Any _ _
        (write_loop-Meets buf size (to_int ino.size) (size + 1) _ (omega arith))
        λ p _.
          Meets-next Any _ _ (finish-Meets size (to_int ino.size) p)
            (put_inode-Meets stack inum (some (record p.ino { size = size }))))

  write_file-Meets :
      (inum : ℕ) (buf : Block) (size : ℤ)
      → Meets {A = Unit {0}} Any (write_file stack inum buf size)
  unfolding write_file write_found
  write_file-Meets inum buf size = Meets-next Any _ _ (on_rwlock-Meets inum _ writer_enter-Meets) (
      Meets-if Any _ _ _ (on_rwlock-Meets inum _ writer_exit-Meets)
        (Meets-bind Any Any _ _ (on_bm-Meets _ (get_inode-Meets stack inum)) λ ino _. found ino))
    where
      found :
          (ino : Option Inode)
          → Meets {A = Unit {0}} Any (write_found stack inum buf (pos_part size) ino)
      found none = on_rwlock-Meets inum _ writer_exit-Meets
      found (some ino) =
          Meets-next Any _ _ (on_bm-Meets _ (write_contents-Meets inum ino buf (pos_part size)))
            (on_rwlock-Meets inum _ writer_exit-Meets)

  -- Both loops of write_file end within the rounds that their fuel gives, in every state, damaged
  -- disks included, and for every argument: write_file returns, waits, or is undefined, but never runs
  -- on.
  pub write_file_ends :
      (inum : ℕ) (buf : Block) (size : ℤ) (s : InodeLayer)
      → write_file stack inum buf size s ≢ out_of_fuel
  write_file_ends inum buf size s = Outcome-ends _ ((write_file-Meets inum buf size).at s)
