-- ===== src/BlockLayer/Termination.antt =====
-- The operations of the disk and the block layer do not run out of fuel, whatever their state is.
use file_system.Base.{
  ℕ, zero, suc, ok, fault, blocked, out_of_fuel, Run, ltb, ◌==◌, if◌then◌else◌, update,
}
use file_system.Base.Meets.{
  Outcome, Meets, Any, Outcome-if, Meets-pure, Meets-split, Meets-bind, Meets-next,
}
use file_system.Disk
use file_system.Disk.{Block, Disk, Stack, block_num}
use file_system.Base.Bytes.{bit_test}
use file_system.BlockLayer.{
  byte_offset, bit_offset, BlockLayer, on_disk, read_block, write_block, lock_bitmap, unlock_bitmap,
  alloc_loop, alloc_block, free_block, block_num, Mutex, unlocked, locked, uninitialised,
}

on_disk-Outcome :
    {A : Type 0} (s : BlockLayer) (r : Run Disk A)
    → Outcome Any r
    → Outcome {A = A} Any (on_disk s r)
on_disk-Outcome s (ok a d) h = tt
on_disk-Outcome s fault h = tt
on_disk-Outcome s blocked h = tt
on_disk-Outcome s out_of_fuel h = h

pub read_block-Meets : (id : ℕ) (buf : Block) → Meets {A = Block} Any (read_block id buf)
unfolding read_block Disk.read_block
read_block-Meets id buf = record {
  at = λ s.
      let row : Run Disk Block = if id == block_num then fault else ok (s.disk id) s.disk in
      on_disk-Outcome s (if ltb block_num id then ok buf s.disk else row) (
        Outcome-if {S = Disk} {A = Block} Any (ltb block_num id) (ok buf s.disk) row tt (
          Outcome-if {S = Disk} {A = Block} Any (id == block_num) fault (ok (s.disk id) s.disk) tt
            tt));
}

pub write_block-Meets : (id : ℕ) (buf : Block) → Meets {A = Unit {0}} Any (write_block id buf)
unfolding write_block Disk.write_block
write_block-Meets id buf = record {
  at = λ s.
      let written : Run Disk (Unit {0}) = ok tt (update s.disk id buf) in
      let row : Run Disk (Unit {0}) = if id == block_num then fault else written in
      on_disk-Outcome s (if ltb block_num id then ok tt s.disk else row) (
        Outcome-if {S = Disk} {A = Unit {0}} Any (ltb block_num id) (ok tt s.disk) row tt
          (Outcome-if {S = Disk} {A = Unit {0}} Any (id == block_num) fault written tt tt));
}

lock-Outcome :
    (s : BlockLayer) (m : Mutex)
    → Outcome {A = Unit {0}} Any (lock_bitmap (record s { bitmap_mutex = m }))
lock-Outcome s unlocked = tt
lock-Outcome s locked = tt
lock-Outcome s uninitialised = tt

lock_bitmap-Meets : Meets {A = Unit {0}} Any lock_bitmap
lock_bitmap-Meets = record { at = λ s. lock-Outcome s s.bitmap_mutex }

unlock_bitmap-Meets : Meets {A = Unit {0}} Any unlock_bitmap
unlock_bitmap-Meets = record { at = λ s. tt }

module _ (stack : Stack) where
  alloc_loop-Meets : (rounds id : ℕ) → Meets {A = ℕ} Any (alloc_loop stack rounds id)
  unfolding alloc_loop
  alloc_loop-Meets zero id = Meets-next Any _ _ unlock_bitmap-Meets (Meets-pure Any _ tt)
  alloc_loop-Meets (suc rounds) id =
      let rest = alloc_loop-Meets rounds (suc id) in
      Meets-bind Any Any _ _ (read_block-Meets _ _) λ buf _.
        Meets-split Any (bit_test (buf (byte_offset id)) (bit_offset id)) _ _ rest (
          Meets-next Any _ _ (write_block-Meets _ _)
            (Meets-next Any _ _ unlock_bitmap-Meets (Meets-pure Any _ tt)))

  pub alloc_block-Meets : Meets {A = ℕ} Any (alloc_block stack)
  unfolding alloc_block
  alloc_block-Meets =
      Meets-next Any _ _ lock_bitmap-Meets (record { at = λ s. (alloc_loop-Meets _ _).at s })

  pub free_block-Meets : (id : ℕ) → Meets Any (free_block stack id)
  unfolding free_block
  free_block-Meets id = Meets-next Any _ _ lock_bitmap-Meets (
      Meets-bind Any Any _ _ (read_block-Meets _ _)
        λ buf _. Meets-next Any _ _ (write_block-Meets _ _) unlock_bitmap-Meets)
