-- ===== src/InodeLayer/Write/Indirect/Steps.antt =====
-- One round of write_file in the indirect section that allocates its block.
use file_system.Base.{
  ℕ, ◌+◌, ◌-◌, ◌*◌, ◌≤◌, ◌<◌, ◌≡◌, refl, ◌∙◌, sym, ap, arith, ok, le→ltb, lt→leb, Bool,
}
use file_system.Base.Int.{ℤ}
use file_system.Disk.{Block, Disk, Stack, block_num, indirect_buffer}
use file_system.BlockLayer.{mounted, alloc_block}
use file_system.BlockLayer.Blocks.{write_block-ok}
use file_system.BlockLayer.Bitmap.{mark}
use file_system.BlockLayer.Alloc.{first_data}
use file_system.BlockLayer.Space.{IsFirstFree, free_count, alloc_block-free}
use file_system.Inode.{Inode}
use file_system.InodeLayer.Write.Round.{Progress, write_round, write_indirect_section, write_new}
use file_system.InodeLayer.Write.Stored.{
  IsBuffer, stored, used-ne, stored_other, room-stored, table-stored, Holds-stored_new,
  stored-IsBytes,
}
use file_system.InodeLayer.Write.Entries.{with_entry}
use file_system.InodeLayer.Write.Indirect.{Rounds, Wrote, step-Rounds, overwriting, recorded}

-- A round in the indirect section with a new block.
round-new :
    (stack : Stack) (buf : Block) (size : ℕ) (old_size : ℤ) (d : Disk) (p : Progress) (b : ℕ)
    → p.indirect_index < 128
    → 4096 ≤ p.already
    → write_indirect_section stack buf size old_size (overwriting p) (mounted d)
      ≡ write_new stack buf (overwriting p) (mounted d)
    → b < block_num
    → alloc_block stack (mounted d) ≡ ok b (mounted (mark d b))
    → write_round stack buf size old_size p (mounted d)
      ≡ ok (recorded p p.indirect_index b) (mounted (stored (stack indirect_buffer) buf d p b))
unfolding write_round write_new with_entry
round-new stack buf size old_size d p b small late chosen fits allocated =
    rw (le→ltb p.already 4096 late, chosen, allocated, lt→leb 128 p.indirect_index small)
      (rw (write_block-ok b _ (mounted (mark d b)) fits) refl)

module _ (stack : Stack) (buf : Block) (stack_bytes : (k : ℕ) → IsBuffer (stack indirect_buffer k))
    (buf_bytes : IsBuffer buf) (n w : ℕ) (fits : first_data + w ≤ block_num) (d₀ : Disk)
    (ino : Inode) where
  module _ (flag : Bool) (c : ℕ) (ptr : Block) (count : ℕ) (k : ℕ) (d : Disk) (p : Progress) (b : ℕ)
      (v : Rounds buf n w d₀ ino c ptr count flag k d p)
      (first : IsFirstFree d (block_num - first_data) first_data b) where
    stored-Wrote : Wrote buf n w k d (stored (stack indirect_buffer) buf d p b) b 1
    stored-Wrote =
        let other =
          stored_other (stack indirect_buffer) buf stack_bytes buf_bytes n w fits d p b first
            v.bytes in
        record {
          holds =
              Holds-stored_new (stack indirect_buffer) buf stack_bytes buf_bytes n w fits d p b
                first v.bytes (8 + k) v.index v.remaining;
          bytes =
              stored-IsBytes (stack indirect_buffer) buf stack_bytes buf_bytes n w fits d p b first
                v.bytes;
          marks = λ y lo lt u. (other y lo lt u).0;
          same = λ y lo lt u ne. (other y lo lt u).1;
          spent =
              room-stored (stack indirect_buffer) buf stack_bytes buf_bytes n w fits d p b first
                v.bytes;
          table =
              table-stored (stack indirect_buffer) buf stack_bytes buf_bytes n w fits d p b first
                v.bytes;
        }

    allocated-Rounds :
        512 * (8 + k) < n
        → count ≤ k
        → Rounds buf n w d₀ ino c ptr count flag
            (k + 1)
            (stored (stack indirect_buffer) buf d p b)
            (recorded p k b)
    allocated-Rounds more beyond =
        step-Rounds buf n w d₀ ino c ptr count flag k d p v more
          (stored (stack indirect_buffer) buf d p b) b 1 stored-Wrote (omega arith)
          (λ e. used-ne d c b v.c_used first.free (sym e))
          (λ j lt. used-ne d _ b (v.held j lt).marked first.free)
          (λ i _ hi e. used-ne d _ b (v.old_used i hi) first.free (sym e))
          (λ y u _. used-ne d y b u first.free)

  -- One more round, with a free block left.
  pub new_round :
      (old_size : ℤ) (flag : Bool) (c : ℕ) (ptr : Block) (count k : ℕ) (d : Disk) (p : Progress)
      → n ≤ 69632
      → 512 * (8 + k) < n
      → count ≤ k
      → 0 < free_count d w first_data
      → write_indirect_section stack buf n old_size (overwriting p) (mounted d)
        ≡ write_new stack buf (overwriting p) (mounted d)
      → Rounds buf n w d₀ ino c ptr count flag k d p
      → (d' : Disk) × (p' : Progress) × (write_round stack buf n old_size p (mounted d)
          ≡ ok p' (mounted d'))
        × Rounds buf n w d₀ ino c ptr count flag (k + 1) d' p'
  new_round old_size flag c ptr count k d p large more beyond room chosen v =
      let (b, allocated, first) = alloc_block-free stack d w fits room in
      (
        stored (stack indirect_buffer) buf d p b,
        recorded p k b,
        round-new stack buf n old_size d p b (omega (arith, v.cell)) v.enough chosen
              (omega (arith, first.below)) allocated
            ∙ ap
                (λ (i : ℕ).
                  ok (recorded p i b) (mounted (stored (stack indirect_buffer) buf d p b)))
                v.cell,
        allocated-Rounds flag c ptr count k d p b v first more beyond,
      )
