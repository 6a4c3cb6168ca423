-- ===== src/InodeLayer/Gap/Leak.antt =====
-- What read_file makes of a file of 4100 to 4607 bytes.
use mathlib.Core.Path.{subst}
use file_system.Base.{
  ℕ, zero, suc, ◌+◌, ◌-◌, ◌≤◌, ◌<◌, ◌≡◌, ◌≢◌, refl, ap, ◌∙◌, true, arith, ok, some, update, lt→ltb,
  le→ltb, lt→leb, ==_of_eq, ==_of_ne,
}
use file_system.Base.Int.{ℤ, pos, to_int}
use file_system.Disk.{Block, Disk, Stack, block_num, direct_buffer, final_indirect}
use file_system.BlockLayer.{mounted}
use file_system.BlockLayer.Alloc.{first_data}
use file_system.BlockLayer.Bitmap.{used}
use file_system.BlockLayer.Space.{free_count, alloc_block-free}
use file_system.RwLock.{RwLock}
use file_system.RwLock.Idle.{idle, held_by_writer}
use file_system.Inode.{Inode}
use file_system.Inode.Table.{inode_at, inode_at-Fits, set_inode, put_inode-mounted}
use file_system.InodeLayer.{InodeLayer}
use file_system.InodeLayer.Locks.{layer, update_self, after_writer}
use file_system.InodeLayer.Read.{read_file}
use file_system.InodeLayer.Read.Whole.{IsReadable, read_file-readable}
use file_system.InodeLayer.RoundTrip.{IsFile, write_file-ok}
use file_system.InodeLayer.Write.{write_file, write_loop, finish, write_contents}
use file_system.InodeLayer.Write.Round.{Progress, advance, write_round}
use file_system.InodeLayer.Write.Stored.{IsBuffer, stored, with_block, round-direct}
use file_system.InodeLayer.Write.Contents.{begin, begin-Inv}
use file_system.InodeLayer.Write.Freeing.{free_direct-Freed}
use file_system.InodeLayer.Write.Indirect.Loop.{write_loop-eight}
use file_system.InodeLayer.Gap.{leaked, spelled, ninth-IsReadable}

last_round :
    (stack : Stack) (buf : Block) (n : ℕ) (old_size : ℤ) (fuel : ℕ) (p p' : Progress) (d d' : Disk)
    → p.remaining < fuel
    → p.remaining ≢ 0
    → p'.remaining ≡ 0
    → write_round stack buf n old_size p (mounted d) ≡ ok p' (mounted d')
    → write_loop stack buf n old_size fuel p (mounted d) ≡ ok p' (mounted d')
unfolding write_loop
last_round stack buf n old_size zero p p' d d' enough ne over e = absurd (omega arith)
last_round stack buf n old_size (suc zero) p p' d d' enough ne over e = absurd (omega arith)
last_round stack buf n old_size (suc (suc fuel)) p p' d d' enough ne over e =
    rw (==_of_ne p.remaining 0 ne, e, ==_of_eq p'.remaining 0 over) refl

module _ (stack : Stack) (stack_bytes : (k : ℕ) → IsBuffer (stack direct_buffer k)) (buf : Block)
    (buf_bytes : IsBuffer buf) (n : ℕ) (long : 4100 ≤ n) (short : n < 4608) where
  -- The write, behind its checks.
  write_contents-gap :
      (inum : ℕ) (d : Disk)
      → IsFile d inum
      → 9 ≤ free_count d 32645 first_data
      → first_data ≤ spelled buf
      → spelled buf < block_num
      → used d (spelled buf) ≡ true
      → ((k : ℕ) → k < 9 → spelled buf ≢ (inode_at d inum).blocks k)
      → (d' : Disk) × (ino' : Inode) × (write_contents stack inum
            (inode_at d inum)
            buf
            n
            (mounted d)
          ≡ ok tt (mounted d'))
        × IsReadable stack (leaked buf (d (spelled buf))) n inum ino' d'
  unfolding write_contents finish
  write_contents-gap inum d f room lo hi u other =
      let ino : Inode = inode_at d inum in
      let (d₁, e₁, f₁, _, keep₁) =
        free_direct-Freed stack 32645 ino 8 0 d f.bytes (omega arith) f.pointers in
      let (fuel, d₂, p, e₂, enough, v) =
        write_loop-eight stack buf stack_bytes buf_bytes n 32645 (omega arith) (omega arith) d₁ ino
          (stack final_indirect 0) (to_int ino.size) (n + 1) 0 d₁ (begin stack buf n 32645 ino)
          (omega arith) (omega arith)
          (begin-Inv stack buf n 32645 ino d₁ f₁.bytes (omega (arith, f₁.room, room))) in
      let (b, allocated, first) =
        alloc_block-free stack d₂ 32645 (omega arith) (omega (arith, v.spent, f₁.room, room)) in
      let p' : Progress = advance (record p { ino = with_block p.ino p.index b }) in
      let d₃ : Disk = stored (stack direct_buffer) buf d₂ p b in
      let e₃ =
        last_round stack buf n (to_int ino.size) fuel p p' d₂ d₃ enough (omega (arith, v.remaining))
          (ground (arith, v.remaining))
          (round-direct stack buf n (to_int ino.size) d₂ p b
            (omega (arith, v.lag (omega arith) (omega arith) (omega arith)))
            (omega (arith, v.index)) (omega (arith, first.below)) allocated) in
      let ino' : Inode = record ino { size = n; blocks = p'.ino.blocks } in
      let before : used d₁ (spelled buf) ≡ true =
        keep₁ (spelled buf) (λ k _ lt. other k (omega arith)) ∙ u in
      let kept = v.kept (spelled buf) lo hi before in
      (
        set_inode d₃ inum ino',
        ino',
        rw (e₁, e₂, e₃, v.overwrite, lt→leb n 4096 (omega arith))
            (put_inode-mounted stack d₃ inum (record p'.ino { size = n }) f.small
              ∙ ap
                  (λ (x : Inode).
                    ok tt
                      (mounted (set_inode d₃ inum (record x { size = n; blocks = p'.ino.blocks }))))
                  v.rest),
        subst (λ (x : Block). IsReadable stack (leaked buf x) n inum ino' (set_inode d₃ inum ino'))
            (kept.1 ∙ f₁.behind (spelled buf) (omega arith))
            (ninth-IsReadable stack stack_bytes buf buf_bytes n long short d₁ ino
              (inode_at-Fits d inum f.bytes) f.in_use inum f.small (stack final_indirect 0) d₂ p v b
              first lo hi kept.0),
      )

  -- For buffers that hold bytes and an inode in use whose block pointers are sound, on a disk of bytes with
  -- at least nine free data blocks and with an idle lock, for a size n from 4100 to 4607, and when the four
  -- bytes behind the first 4096 of the buffer spell the number of an allocated data block that the inode
  -- did not name, as one of another file is: writing n bytes ends normally, and read_file after it ends
  -- normally with size n and a buffer whose first 4096 bytes are those written and whose others are the
  -- contents of that block.
  pub read_file-write_file_leaks :
      (inum now : ℕ) (d : Disk) (locks : ℕ → RwLock) (r : ℤ)
      → IsFile d inum
      → 9 ≤ free_count d 32645 first_data
      → locks inum ≡ idle r
      → first_data ≤ spelled buf
      → spelled buf < block_num
      → used d (spelled buf) ≡ true
      → ((k : ℕ) → k < 9 → spelled buf ≢ (inode_at d inum).blocks k)
      → (s' : InodeLayer) × (write_file stack inum buf (pos n) (layer (mounted d) locks) ≡ ok tt s')
        × (out : Block) × (s'' : InodeLayer) × (read_file stack inum true now s'
            ≡ ok (some (pos n, out)) s'')
        × ((i : ℕ) → i < 4096 → out i ≡ buf i)
        × ((i : ℕ) → 4096 + i < n → out (4096 + i) ≡ d (spelled buf) i)
  read_file-write_file_leaks inum now d locks r f room free lo hi u other =
      let (d', ino', run, readable) = write_contents-gap inum d f room lo hi u other in
      let (out, e, same) =
        read_file-readable stack (leaked buf (d (spelled buf))) n inum now ino' d' f.small readable
          (after_writer locks inum r) r
          (update_self (update locks inum (held_by_writer r)) inum (idle r)) in
      (
        layer (mounted d') (after_writer locks inum r),
        write_file-ok stack buf n (omega arith) inum d d' locks r f free run,
        out,
        _,
        e,
        (λ i lt. same i (omega arith) ∙ rw (lt→ltb i 4096 lt) refl),
        (λ i lt.
            let offset : 4096 + i - 4096 ≡ i = omega arith in
            same (4096 + i) lt ∙ rw (le→ltb (4096 + i) 4096 (omega arith), offset) refl),
      )
