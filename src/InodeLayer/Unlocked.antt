-- ===== src/InodeLayer/Unlocked.antt =====
-- alloc_inode neither locks nor changes the mutex of the bitmap.
use file_system.Base.{
  ℕ, zero, suc, ◌≡◌, refl, ◌∙◌, ap, Bool, true, false, Option, none, some, Run, ok, fault, blocked,
  out_of_fuel, Cmd, pure, and_then, if◌then◌else◌, leb, ◌==◌, ◌%◌, ◌*◌,
}
use file_system.Disk
use file_system.Disk.{Block, Disk, Stack, get_inode_buf, put_inode_buf}
use file_system.BlockLayer.{
  Mutex, BlockLayer, on_disk, read_block, write_block, inode_num, iblock, inodes_per_block,
  inode_size,
}
use file_system.Inode.{Inode, load_inode, store_inode, get_inode, put_inode}
use file_system.InodeLayer.{find_slot, alloc_inode, new_inode}

-- A run that ends with another mutex.
abbrev pub with_mutex : {A : Type 0} → Mutex → Run BlockLayer A → Run BlockLayer A
with_mutex m (ok a s) = ok a (record s { bitmap_mutex = m })
with_mutex m fault = fault
with_mutex m blocked = blocked
with_mutex m out_of_fuel = out_of_fuel

-- A command that runs alike with every mutex, and leaves it as it was.
abbrev Ignores : {A : Type 0} → Mutex → Cmd BlockLayer A → Type 0
Ignores m c = (s : BlockLayer) → c (record s { bitmap_mutex = m }) ≡ with_mutex m (c s)

and_then-with_mutex :
    {A B : Type 0} (m : Mutex) (r : Run BlockLayer A) (k : A → Cmd BlockLayer B)
    → ((a : A) → Ignores m (k a))
    → and_then (with_mutex m r) k ≡ with_mutex m (and_then r k)
and_then-with_mutex m (ok a s) k h = h a s
and_then-with_mutex m fault k h = refl
and_then-with_mutex m blocked k h = refl
and_then-with_mutex m out_of_fuel k h = refl

Ignores-bind :
    {A B : Type 0} (m : Mutex) (c : Cmd BlockLayer A) (k : A → Cmd BlockLayer B)
    → Ignores m c
    → ((a : A) → Ignores m (k a))
    → Ignores m (λ s. and_then (c s) k)
Ignores-bind m c k h rest s =
    ap (λ (r : Run BlockLayer _). and_then r k) (h s) ∙ and_then-with_mutex m (c s) k rest

Ignores-if :
    {A : Type 0} (m : Mutex) (b : Bool) (c e : Cmd BlockLayer A)
    → Ignores m c
    → Ignores m e
    → Ignores m (if b then c else e)
Ignores-if m true c e h h' = h
Ignores-if m false c e h h' = h'

on_disk-with_mutex :
    {A : Type 0} (m : Mutex) (s : BlockLayer) (r : Run Disk A)
    → on_disk (record s { bitmap_mutex = m }) r ≡ with_mutex m (on_disk s r)
on_disk-with_mutex m s (ok a d) = refl
on_disk-with_mutex m s fault = refl
on_disk-with_mutex m s blocked = refl
on_disk-with_mutex m s out_of_fuel = refl

read_block-Ignores : (m : Mutex) (id : ℕ) (buf : Block) → Ignores m (read_block id buf)
unfolding read_block
read_block-Ignores m id buf s = on_disk-with_mutex m s (Disk.read_block id buf s.disk)

write_block-Ignores : (m : Mutex) (id : ℕ) (buf : Block) → Ignores m (write_block id buf)
unfolding write_block
write_block-Ignores m id buf s = on_disk-with_mutex m s (Disk.write_block id buf s.disk)

module _ (stack : Stack) (m : Mutex) where
  -- What get_inode makes of the block that it read.
  abbrev in_use : ℕ → Block → Cmd BlockLayer (Option Inode)
  in_use inum buf =
      let ino_disk = load_inode buf (inum % inodes_per_block * inode_size) in
      if ino_disk.type == 0 then pure none else pure (some ino_disk)

  in_use-Ignores : (inum : ℕ) (buf : Block) → Ignores m (in_use inum buf)
  in_use-Ignores inum buf =
      Ignores-if m ((load_inode buf (inum % inodes_per_block * inode_size)).type == 0) (pure none)
        (pure (some (load_inode buf (inum % inodes_per_block * inode_size)))) (λ s. refl)
        (λ s. refl)

  pub get_inode-Ignores : (inum : ℕ) → Ignores m (get_inode stack inum)
  unfolding get_inode
  get_inode-Ignores inum =
      Ignores-if m (leb inode_num inum) (pure none)
        (λ s.
          and_then (read_block (iblock inum s.sb.nblocks) (stack get_inode_buf 0) s) (in_use inum))
        (λ s. refl)
        (λ s.
          Ignores-bind m (read_block (iblock inum s.sb.nblocks) (stack get_inode_buf 0))
            (in_use inum) (read_block-Ignores m _ _) (in_use-Ignores inum) s)

  -- What put_inode does with the block that it read.
  abbrev stored : ℕ → Inode → Block → Cmd BlockLayer (Unit {0})
  stored inum ino buf s =
      write_block (iblock inum s.sb.nblocks)
        (store_inode buf (inum % inodes_per_block * inode_size) ino) s

  put_inode-Ignores : (inum : ℕ) (o : Option Inode) → Ignores m (put_inode stack inum o)
  unfolding put_inode
  put_inode-Ignores inum none = λ s. refl
  put_inode-Ignores inum (some ino) =
      Ignores-if m (leb inode_num inum) (pure tt)
        (λ s.
          and_then (read_block (iblock inum s.sb.nblocks) (stack put_inode_buf 0) s)
            (stored inum ino))
        (λ s. refl)
        (λ s.
          Ignores-bind m (read_block (iblock inum s.sb.nblocks) (stack put_inode_buf 0))
            (stored inum ino) (read_block-Ignores m _ _)
            (λ buf s'. write_block-Ignores m (iblock inum s'.sb.nblocks) _ s') s)

  find_slot-Ignores : (rounds x : ℕ) → Ignores m (find_slot stack rounds x)
  unfolding find_slot
  find_slot-Ignores zero x = λ s. refl
  find_slot-Ignores (suc rounds) x =
      let rest = find_slot-Ignores rounds (suc x) in
      Ignores-bind m (get_inode stack x) _ (get_inode-Ignores x)
        (slot (find_slot stack rounds (suc x)) rest)
    where
      slot :
          (c : Cmd BlockLayer ℕ)
          → Ignores m c
          → (o : Option Inode) → Ignores m (elim o [ none ↦ pure x | some _ ↦ c ])
      slot c rest none = λ s. refl
      slot c rest (some ino) = rest

  pub alloc_inode-Ignores :
      (type : ℕ) (time : ℕ → ℕ) (s : BlockLayer)
      → alloc_inode stack type time (record s { bitmap_mutex = m })
        ≡ with_mutex m (alloc_inode stack type time s)
  unfolding alloc_inode
  alloc_inode-Ignores type time =
      Ignores-bind m (find_slot stack inode_num 0) _ (find_slot-Ignores inode_num 0) λ x.
        Ignores-bind m (put_inode stack x (some (new_inode type time))) (λ _. pure x)
          (put_inode-Ignores x _) (λ _ s. refl)
