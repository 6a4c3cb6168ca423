-- ===== src/InodeLayer/Termination.antt =====
-- Whether read_file and write_file of inode_layer.cc come to an end: their loops and the calls in
-- them, from any state.
pub mod Writing
use file_system.Base.{
  ◌≢◌, ℕ, zero, suc, ◌≡◌, refl, sym, ap, ok, fault, blocked, out_of_fuel, Run, Cmd, pure, ltb, leb,
  ◌==◌, if◌then◌else◌, Bool, true, false, ◌<◌, ◌≤◌, ◌+◌, ◌-◌, ◌*◌, arith, Option, none, some,
  minimum, undefined, update, ◌%◌, ◌^◌,
}
use file_system.Base.Meets.{
  Outcome, Meets, Any, Outcome-if, Outcome-and_then, Outcome-ends, Meets-pure, Meets-if, Meets-bind,
  Meets-next, Meets-undefined, Meets-test,
}
use file_system.Base.Int.{ℤ, pos_part, to_int}
use file_system.Disk.{Block, Stack, block_size}
use file_system.BlockLayer.{BlockLayer, read_block, write_block, inode_num}
use file_system.BlockLayer.Termination.{read_block-Meets, write_block-Meets}
use file_system.RwLock.{RwLock, reader_enter, reader_exit}
use file_system.Inode.{Inode, get_inode, put_inode, load_inode}
use file_system.InodeLayer.{InodeLayer, on_bm, on_rwlock}
use file_system.InodeLayer.Read.{
  entry, direct_entry, read_round, read_loop, read_contents, read_found, read_file,
}
use file_system.RwLock.Termination.{reader_exit-Meets, reader_enter-Meets}

-- What a round of read_file or write_file leaves of more than nothing is less.
pub left_lem :
    (fuel remaining : ℕ)
    → remaining < suc fuel
    → (remaining == 0) ≡ false
    → remaining - minimum block_size remaining < fuel
left_lem fuel remaining h k = ground arith

module _ (stack : Stack) where
  pub get_inode-Meets : (inum : ℕ) → Meets {A = Option Inode} Any (get_inode stack inum)
  unfolding get_inode
  get_inode-Meets inum = Meets-if Any _ _ _ (Meets-pure Any _ tt) (record {
    at = λ s.
        Outcome-and_then Any Any _ _ ((read_block-Meets _ _).at s)
          λ buf _. Meets-if Any _ _ _ (Meets-pure Any _ tt) (Meets-pure Any _ tt);
  })

  pub put_inode-Meets :
      (inum : ℕ) (ino : Option Inode) → Meets {A = Unit {0}} Any (put_inode stack inum ino)
  unfolding put_inode
  put_inode-Meets inum none = Meets-pure Any _ tt
  put_inode-Meets inum (some ino) = Meets-if Any _ _ _ (Meets-pure Any _ tt) (record {
    at = λ s.
        Outcome-and_then Any Any _ _ ((read_block-Meets _ _).at s)
          λ buf _. record { at = λ s'. (write_block-Meets _ _).at s' };
  })

on_bm-Outcome :
    {A : Type 0} (s : InodeLayer) (r : Run BlockLayer A)
    → Outcome {A = A} Any r
    → Outcome {A = A} Any (elim r as (λ _. Run InodeLayer A) [
      | ok a b ↦ ok a (record s { bm = b })
      | fault ↦ fault
      | blocked ↦ blocked
      | out_of_fuel ↦ out_of_fuel
    ])
on_bm-Outcome s (ok a b) h = tt
on_bm-Outcome s fault h = tt
on_bm-Outcome s blocked h = tt
on_bm-Outcome s out_of_fuel h = h

pub on_bm-Meets :
    {A : Type 0} (m : Cmd BlockLayer A) → Meets {A = A} Any m → Meets {A = A} Any (on_bm m)
on_bm-Meets m h = record { at = λ s. on_bm-Outcome s (m s.bm) (h.at s.bm) }

on_rwlock-Outcome :
    (inum : ℕ) (s : InodeLayer) (r : Run RwLock (Unit {0}))
    → Outcome {A = Unit {0}} Any r
    → Outcome {A = Unit {0}} Any (elim r as (λ _. Run InodeLayer (Unit {0})) [
      | ok a l ↦ ok a (record s { rwlocks = update s.rwlocks inum l })
      | fault ↦ fault
      | blocked ↦ blocked
      | out_of_fuel ↦ out_of_fuel
    ])
on_rwlock-Outcome inum s (ok a b) h = tt
on_rwlock-Outcome inum s fault h = tt
on_rwlock-Outcome inum s blocked h = tt
on_rwlock-Outcome inum s out_of_fuel h = h

pub on_rwlock-Meets :
    (inum : ℕ) (m : Cmd RwLock (Unit {0}))
    → Meets {A = Unit {0}} Any m
    → Meets {A = Unit {0}} Any (on_rwlock inum m)
unfolding on_rwlock
on_rwlock-Meets inum m h = record {
  at = λ s.
      Outcome-if {S = InodeLayer} {A = Unit {0}} Any (leb inode_num inum) fault _ tt
        (on_rwlock-Outcome inum s (m (s.rwlocks inum)) (h.at (s.rwlocks inum)));
}

module _ (stack : Stack) where
  pub entry-Meets : (block : Block) (k : ℕ) → Meets {A = ℕ} Any (entry block k)
  unfolding entry
  entry-Meets block k = Meets-if Any _ _ _ (Meets-undefined Any) (Meets-pure Any _ tt)

  direct_entry-Meets : (ino : Inode) (k : ℕ) → Meets {A = ℕ} Any (direct_entry ino k)
  unfolding direct_entry
  direct_entry-Meets ino k = Meets-if Any _ _ _ (Meets-undefined Any) (Meets-pure Any _ tt)

  read_round-Meets :
      (ino : Inode) (ptr : Block) (remaining already index indirect_index : ℕ) (buf : Block)
      → Meets {A = Block} Any (read_round stack ino ptr remaining already index indirect_index buf)
  unfolding read_round
  read_round-Meets ino ptr remaining already index indirect_index buf =
      Meets-if Any _ _ _
        (Meets-bind Any Any _ _ (direct_entry-Meets ino index)
          λ id _. Meets-bind Any Any _ _ (read_block-Meets _ _) λ full _. Meets-pure Any _ tt)
        (Meets-bind Any Any _ _ (entry-Meets ptr indirect_index)
          λ id _. Meets-bind Any Any _ _ (read_block-Meets _ _) λ full _. Meets-pure Any _ tt)

  -- Each round takes from what remains, so more fuel than that is enough.
  read_loop-Meets :
      (ino : Inode) (ptr : Block) (fuel remaining already index indirect_index : ℕ) (buf : Block)
      → remaining < fuel
      → Meets {A = Block} Any
          (read_loop stack ino ptr fuel remaining already index indirect_index buf)
  unfolding read_loop
  read_loop-Meets ino ptr zero remaining already index indirect_index buf h = absurd (omega arith)
  read_loop-Meets ino ptr (suc fuel) remaining already index indirect_index buf h =
      Meets-test Any (remaining == 0) _ _ (λ _. Meets-pure Any _ tt)
        λ more.
          Meets-bind Any Any _ _
            (read_round-Meets ino ptr remaining already index indirect_index buf)
            λ buf' _.
              read_loop-Meets ino ptr fuel (remaining - minimum block_size remaining)
                (already + minimum block_size remaining) (index + 1)
                (if ltb already (8 * block_size) then indirect_index else indirect_index + 1) buf'
                (left_lem fuel remaining h more)

  read_contents-Meets :
      (inum : ℕ) (ino : Inode) (now : ℕ)
      → Meets {A = ℤ × Block} Any (read_contents stack inum ino now)
  unfolding read_contents
  read_contents-Meets inum ino now =
      let size = pos_part (to_int ino.size) in
      Meets-next Any _ _ (put_inode-Meets stack inum (some (record ino { atime = now % 2 ^ 32 }))) (
        Meets-bind Any Any _ _ (read_block-Meets _ _) λ ptr _.
          Meets-bind Any Any _ _
            (read_loop-Meets (record ino { atime = now % 2 ^ 32 }) ptr (size + 1) size 0 0 0 _
              (omega arith))
            λ buf _. Meets-pure Any _ tt)

  read_file-Meets :
      (inum : ℕ) (given : Bool) (now : ℕ)
      → Meets {A = Option (ℤ × Block)} Any (read_file stack inum given now)
  unfolding read_file read_found
  read_file-Meets inum given now = Meets-next Any _ _ (on_rwlock-Meets _ _ reader_enter-Meets) (
      Meets-if Any _ _ _
        (Meets-bind Any Any _ _ (on_bm-Meets _ (get_inode-Meets stack inum)) λ ino _. found ino)
        (Meets-next Any _ _ (on_rwlock-Meets _ _ reader_exit-Meets) (Meets-pure Any _ tt)))
    where
      found :
          (ino : Option Inode) → Meets {A = Option (ℤ × Block)} Any (read_found stack inum now ino)
      found none = Meets-next Any _ _ (on_rwlock-Meets _ _ reader_exit-Meets) (Meets-pure Any _ tt)
      found (some ino) =
          Meets-bind Any Any _ _ (on_bm-Meets _ (read_contents-Meets inum ino now)) λ out _.
            Meets-next Any _ _ (on_rwlock-Meets _ _ reader_exit-Meets) (Meets-pure Any _ tt)

  -- The loop of read_file ends within the rounds that its fuel gives, in every state, damaged disks
  -- included, and for every argument: read_file returns, waits, or is undefined, but never runs on.
  pub read_file_ends :
      (inum : ℕ) (given : Bool) (now : ℕ) (s : InodeLayer)
      → read_file stack inum given now s ≢ out_of_fuel
  read_file_ends inum given now s = Outcome-ends _ ((read_file-Meets inum given now).at s)
