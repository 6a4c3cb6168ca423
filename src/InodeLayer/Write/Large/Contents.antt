-- ===== src/InodeLayer/Write/Large/Contents.antt =====
-- write_file behind its checks, for a file with an indirect section.
use file_system.Base.{
  ℕ, ◌+◌, ◌-◌, ◌*◌, ◌≤◌, ◌<◌, ◌≡◌, ◌≢◌, refl, ap, ◌∙◌, true, arith, ok, update, lt→leb, le→leb,
  Bool,
}
use file_system.Base.Int.{ℤ, pos, geb, to_int, to_int-small}
use file_system.Disk.{Block, Disk, Stack, block_num, final_indirect, old_indirect}
use file_system.Disk.Laws.{IsBytes}
use file_system.BlockLayer.{mounted}
use file_system.BlockLayer.Blocks.{read_block-ok, write_block-ok}
use file_system.BlockLayer.Alloc.{first_data}
use file_system.BlockLayer.Space.{free_count}
use file_system.BlockLayer.Pointers.{IsPointer}
use file_system.Inode.{Inode, load_word}
use file_system.Inode.Codec.{Fits}
use file_system.Inode.Table.{put_inode-mounted, set_inode}
use file_system.InodeLayer.Write.{finish, write_contents, free_direct}
use file_system.InodeLayer.Write.Round.{Progress}
use file_system.InodeLayer.Write.Stored.{IsBuffer, used-ne}
use file_system.InodeLayer.Write.Contents.{begin, begin-Inv}
use file_system.InodeLayer.Write.Each.{free_each, free_entries-free_each}
use file_system.InodeLayer.Write.Freeing.{free_direct-Freed}
use file_system.InodeLayer.Write.Indirect.Loop.{Ends}
use file_system.InodeLayer.Write.Indirect.Whole.{HasBytes, write_loop-first}
use file_system.InodeLayer.Write.Large.{IsLarge, Spared, DirectBlock}
use file_system.InodeLayer.Write.Large.Ending.{last_disk, last-IsLarge, last-Spared, last-room}

pub finish-kept :
    (stack : Stack) (n : ℕ) (old_size : ℤ) (d : Disk) (p : Progress)
    → geb n old_size ≡ true
    → 4096 < n
    → p.need_to_overwrite_indirect ≡ true
    → p.ino.blocks 8 < block_num
    → finish stack n old_size p (mounted d)
      ≡ ok tt (mounted (update d (p.ino.blocks 8) p.final_indirect_block))
unfolding finish
finish-kept stack n old_size d p grown large over fits =
    rw
      (
        over,
        grown,
        write_block-ok (p.ino.blocks 8) p.final_indirect_block (mounted d) fits,
        lt→leb n 4096 large,
      )
      refl

pub finish-shrunk :
    (stack : Stack) (n s rounds : ℕ) (d d' : Disk) (p : Progress)
    → n < s
    → 4096 < n
    → s - n ≡ 512 * rounds
    → p.indirect_index + rounds ≤ 128
    → p.need_to_overwrite_indirect ≡ true
    → p.ino.blocks 8 < block_num
    → free_each stack (λ k. load_word (d (p.ino.blocks 8)) 0 k) rounds p.indirect_index (mounted d)
      ≡ ok tt (mounted d')
    → finish stack n (pos s) p (mounted d)
      ≡ ok tt (mounted (update d' (p.ino.blocks 8) p.final_indirect_block))
unfolding finish geb
finish-shrunk stack n s rounds d d' p shrunk large whole within over fits freed =
    rw
      (
        over,
        lt→leb s n shrunk,
        read_block-ok (p.ino.blocks 8) (stack old_indirect 0) (mounted d) fits,
        whole,
        free_entries-free_each stack (d (p.ino.blocks 8)) (512 * rounds + 1) rounds p.indirect_index
            (omega arith) within,
        freed,
        write_block-ok (p.ino.blocks 8) p.final_indirect_block (mounted d') fits,
        lt→leb n 4096 large,
      )
      refl

module _ (stack : Stack) (buf : Block) (n w inum : ℕ) (small : inum < 1024) (d d₁ d₃ : Disk)
    (ino : Inode) (flag : Bool) (c : ℕ) (ptr : Block) (count : ℕ) (old_size : ℤ)
    (same : to_int ino.size ≡ old_size) where
  -- The parts of write_file behind its checks, one after the other.
  pub write_contents-parts :
      (r : Ends stack buf n w d₁ ino old_size flag c ptr count (n + 1) (begin stack buf n w ino) d₁)
      → free_direct stack ino 8 0 (mounted d) ≡ ok tt (mounted d₁)
      → finish stack n old_size r.last (mounted r.disk)
        ≡ ok tt (mounted (update d₃ (r.last.ino.blocks 8) r.last.final_indirect_block))
      → write_contents stack inum ino buf n (mounted d)
        ≡ ok tt (
            mounted (
              set_inode
                (update d₃ (r.last.ino.blocks 8) r.last.final_indirect_block)
                inum
                (record ino { size = n; blocks = r.last.ino.blocks })))
  unfolding write_contents
  write_contents-parts r e₁ e₃ =
      let d₄ : Disk = update d₃ (r.last.ino.blocks 8) r.last.final_indirect_block in
      rw (e₁, same, r.ends, e₃)
        (put_inode-mounted stack d₄ inum (record r.last.ino { size = n }) small
          ∙ ap (λ (x : Inode). ok tt (mounted (set_inode d₄ inum (record x { size = n }))))
              r.rounds.rest)

module _ (stack : Stack) (stack_bytes : HasBytes stack) (buf : Block) (buf_bytes : IsBuffer buf)
    (n m : ℕ) (long : 4608 ≤ n) (large : n ≤ 69632) (parts : n ≤ 512 * m) where
  pub write_contents-first :
      (inum : ℕ) (ino : Inode) (d : Disk)
      → inum < 1024
      → IsBytes d
      → m < free_count d 32645 first_data
      → Fits ino
      → ino.type ≢ 0
      → ino.size ≤ 4096
      → ((k : ℕ) → k < 9 → IsPointer (ino.blocks k))
      → (d' : Disk) × (write_contents stack inum ino buf n (mounted d) ≡ ok tt (mounted d'))
        × (blocks : ℕ → ℕ) × IsLarge buf n inum (record ino { size = n; blocks = blocks }) d'
        × Spared (DirectBlock ino) inum d d'
        × (free_count d 32645 first_data ≤ free_count d' 32645 first_data + (m + 1))
  unfolding geb
  write_contents-first inum ino d small h room fit typed short pointers =
      let old_size : to_int ino.size ≡ pos ino.size = to_int-small ino.size (omega arith) in
      let grown : geb n (to_int ino.size) ≡ true = rw old_size (le→leb ino.size n (omega arith)) in
      let was_direct : geb 4096 (to_int ino.size) ≡ true =
        rw old_size (le→leb ino.size 4096 short) in
      let (d₁, e₁, f₁, _, keep₁) =
        free_direct-Freed stack 32645 ino 8 0 d h (omega arith) pointers in
      let (c, ptr, unused, r) =
        write_loop-first stack stack_bytes buf buf_bytes n 32645 (omega arith) long large d₁ ino
          (stack final_indirect 0) stack_bytes.final (n + 1) d₁ (begin stack buf n 32645 ino)
          (omega arith) (begin-Inv stack buf n 32645 ino d₁ f₁.bytes (omega (arith, f₁.room))) m
          (to_int ino.size) parts (omega (arith, f₁.room)) grown was_direct in
      let v = r.rounds in
      let e₃ =
        finish-kept stack n (to_int ino.size) r.disk r.last grown (omega arith)
          (v.overwrite (omega (arith, r.done))) (rw v.ninth v.c_high) in
      (
        last_disk buf n 32645 inum small long large d₁ r.disk r.disk ino fit typed true c ptr 0 r.k
            r.last v r.done v.bytes (λ i lo. refl) (λ y other. refl),
        write_contents-parts stack buf n 32645 inum small d d₁ r.disk ino true c ptr 0
            (to_int ino.size) refl r e₁ e₃,
        r.last.ino.blocks,
        last-IsLarge buf n 32645 inum small long large d₁ r.disk r.disk ino fit typed true c ptr 0
            r.k r.last v r.done v.bytes (λ i lo. refl) (λ y other. refl)
            (λ i lt. absurd (omega arith)),
        last-Spared buf n 32645 inum small long large d₁ r.disk r.disk ino fit typed true c ptr 0
            r.k r.last v r.done v.bytes (λ i lo. refl) (λ y other. refl) (DirectBlock ino) d
            f₁.behind (λ y out. keep₁ y (λ k _ hi e. out (k, hi, e)))
            (λ y u _. used-ne d₁ y c u unused) (λ y i _ lt. absurd (omega arith)),
        omega (
          arith,
          f₁.room,
          v.spent,
          r.near,
          last-room buf n 32645 inum small long large d₁ r.disk r.disk ino fit typed true c ptr 0
              r.k r.last v r.done v.bytes (λ i lo. refl) (λ y other. refl),
        ),
      )
