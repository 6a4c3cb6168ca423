-- ===== src/InodeLayer/Read/Whole.antt =====
-- read_file of a file whose rounds are on the disk.
use file_system.Base.{
  ℕ, ◌+◌, ◌*◌, ◌%◌, ◌^◌, ◌≤◌, ◌<◌, ◌≡◌, ◌≢◌, refl, ap, ◌∙◌, true, some, arith, ok, inr, lt→leb,
  ==_of_ne, update, bind-ok,
}
use file_system.Base.Int.{ℤ, pos, to_int, to_int-small}
use file_system.Disk.{Block, Disk, Stack, malloc_buf, read_indirect}
use file_system.BlockLayer.{mounted, read_block}
use file_system.BlockLayer.Alloc.{first_data}
use file_system.RwLock.{RwLock}
use file_system.RwLock.Idle.{idle, held_by_reader}
use file_system.Inode.{Inode, get_inode}
use file_system.Inode.Table.{
  inode_at, find_inode, set_inode, get_inode-mounted, put_inode-mounted, set_inode-elsewhere,
}
use file_system.InodeLayer.Locks.{
  layer, enter_reader, leave_reader, update_self, after_reader, on_bm-ok,
}
use file_system.InodeLayer.Read.{read_file, read_contents}
use file_system.InodeLayer.Read.Rounds.{read_loop-rounds, HasRound, place}

-- The inode after read_file.
abbrev pub touched : Inode → ℕ → Inode
touched ino now = record ino { atime = now % 2 ^ 32 }

-- An inode in use of n bytes whose rounds lie in data blocks, so that no change of the inode table moves
-- them: what blocks[8] names is read, and each round is where the inode and that block say.
pub record IsReadable (stack : Stack) (buf : Block) (n inum : ℕ) (ino : Inode) (d : Disk)
    : Type 0 where
  pub at : inode_at d inum ≡ ino
  pub in_use : ino.type ≢ 0
  pub size : ino.size ≡ n
  pub bounded : n ≤ 69632
  pub loads :
      (d' : Disk)
      → ((i : ℕ) → first_data ≤ i → d' i ≡ d i)
      → (ptr : Block) × (read_block (ino.blocks 8) (stack read_indirect 0) (mounted d')
          ≡ ok ptr (mounted d'))
        × ((j : ℕ) → 512 * j < n → HasRound buf n d' j (place ino ptr j))

module _ (stack : Stack) (buf : Block) (n inum now : ℕ) (ino : Inode) (d : Disk)
    (small : inum < 1024) (s : IsReadable stack buf n inum ino d) where
  read_contents-readable :
      (out : Block) × (read_contents stack inum ino now (mounted d)
        ≡ ok (pos n, out) (mounted (set_inode d inum (touched ino now))))
      × ((i : ℕ) → i < n → out i ≡ buf i)
  unfolding read_contents
  read_contents-readable =
      let ino' : Inode = touched ino now in
      let d' : Disk = set_inode d inum ino' in
      let bounded : n ≤ 69632 = s.bounded in
      let size : to_int ino.size ≡ pos n = ap to_int s.size ∙ to_int-small n (omega arith) in
      let (ptr, e₁, held) = s.loads d' (λ i lo. set_inode-elsewhere d inum i ino' small (inr lo)) in
      let (out, e₂, same) =
        read_loop-rounds stack ino' ptr buf n s.bounded d' held (n + 1) n 0 0 0 (stack malloc_buf 0)
          (omega arith) (omega arith) (omega arith) (omega arith)
          (λ j lt below. absurd (omega arith)) in
      (out, rw (put_inode-mounted stack d inum ino' small, size, e₁, e₂), same)

  pub read_file-readable :
      (locks : ℕ → RwLock) (r : ℤ)
      → locks inum ≡ idle r
      → (out : Block) × (read_file stack inum true now (layer (mounted d) locks)
          ≡ ok
              (some (pos n, out))
              (layer (mounted (set_inode d inum (touched ino now))) (after_reader locks inum r)))
        × ((i : ℕ) → i < n → out i ≡ buf i)
  unfolding read_file find_inode
  read_file-readable locks r free =
      let (out, e, same) = read_contents-readable in
      let d' : Disk = set_inode d inum (touched ino now) in
      let found : find_inode d inum ≡ some ino =
        rw (lt→leb 1024 inum small, s.at, ==_of_ne ino.type 0 s.in_use) refl in
      (
        out,
        bind-ok _ (enter_reader inum small locks r (mounted d) free)
            ∙ (bind-ok _ (
                  on_bm-ok (get_inode stack inum) _
                    (get_inode-mounted stack d inum ∙ ap (λ o. ok o (mounted d)) found))
                ∙ (bind-ok _ (on_bm-ok (read_contents stack inum ino now) _ e)
                    ∙ bind-ok _ (
                        leave_reader inum small (update locks inum (held_by_reader r)) r
                          (mounted d') (update_self locks inum _)))),
        same,
      )
