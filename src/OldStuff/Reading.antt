-- ===== src/OldStuff/Reading.antt =====
-- The earlier read_file reads a file in the direct section as read_file of inode_layer.cc does.
use file_system.Base.{
  false, ℕ, zero, suc, ◌+◌, ◌-◌, ◌*◌, ◌/◌, ◌%◌, ◌^◌, ◌≤◌, ◌<◌, ◌≡◌, refl, ◌∙◌, arith, minimum, ok,
  inl, inr, eq_or_ne, lt→ltb, lt→leb, ==_of_eq, ==_of_ne, ltb, if◌then◌else◌, bind-ok,
}
use file_system.Base.Int.{pos, to_int, to_int-small, pos}
use file_system.Disk.{
  Block, Disk, Stack, block_num, memcpy, full_direct_buffer, malloc_buf, remainder_buffer,
  read_indirect,
}
use file_system.BlockLayer.{mounted}
use file_system.BlockLayer.Blocks.{read_block-ok}
use file_system.BlockLayer.Pointers.{IsPointer, read_block-IsPointer}
use file_system.Inode.{Inode}
use file_system.Inode.Table.{set_inode, put_inode-mounted}
use file_system.InodeLayer.Read.{read_round, read_loop, direct_entry, read_contents}
use file_system.OldStuff
use file_system.OldStuff.{read_full, read_remainder, read_sections}

module _ (stack : Stack) (ino : Inode) (d : Disk)
    (sound : (k : ℕ) → k < 8 → ino.blocks k < block_num) where
  -- The buffer after k full blocks from block x on, and after the bytes behind them.
  unfoldable full_blocks : ℕ → ℕ → Block → Block
  full_blocks zero x buf = buf
  full_blocks (suc k) x buf = full_blocks k (suc x) (memcpy buf (x * 512) (d (ino.blocks x)) 0 512)

  abbrev with_rest : ℕ → ℕ → Block → Block
  with_rest calls r buf =
      if ltb 0 r then memcpy buf (calls * 512) (d (ino.blocks calls)) 0 r else buf

  read_full-mounted :
      (k x : ℕ) (buf : Block)
      → x + k ≤ 8
      → read_full stack ino k x buf (mounted d) ≡ ok (full_blocks k x buf) (mounted d)
  unfolding read_full direct_entry full_blocks
  read_full-mounted zero x buf fits = refl
  read_full-mounted (suc k) x buf fits = rw (lt→leb 9 x (omega arith)) (
      bind-ok _
        (read_block-ok (ino.blocks x) (λ i. buf (x * 512 + i)) (mounted d) (sound x (omega arith)))
      ∙ read_full-mounted k (suc x) _ (omega arith))

  read_remainder-mounted :
      (calls r : ℕ) (buf : Block)
      → calls * 512 + r ≤ 4096
      → read_remainder stack ino calls r buf (mounted d) ≡ ok (with_rest calls r buf) (mounted d)
  unfolding read_remainder direct_entry
  read_remainder-mounted calls r buf fits = elim (eq_or_ne r 0) [
    | inl e ↦ rw e refl
    | inr ne ↦
        rw (lt→ltb 0 r (omega arith), lt→leb 9 calls (omega arith))
          (bind-ok _ (
            read_block-ok (ino.blocks calls) (stack remainder_buffer 0) (mounted d)
              (sound calls (omega arith))))
  ]

  module _ (ptr : Block) where
    round :
        (rem already x ii : ℕ) (buf : Block)
        → already < 4096
        → x < 8
        → read_round stack ino ptr rem already x ii buf (mounted d)
          ≡ ok (memcpy buf (x * 512) (d (ino.blocks x)) 0 (minimum 512 rem)) (mounted d)
    unfolding read_round direct_entry
    round rem already x ii buf early lt = rw (
      lt→ltb already 4096 early,
      lt→leb 9 x (omega arith),
      read_block-ok (ino.blocks x) (stack full_direct_buffer x) (mounted d) (sound x lt),
    )

    read_loop-done :
        (fuel x rem already : ℕ) (buf : Block)
        → rem ≡ 0
        → 0 < fuel
        → read_loop stack ino ptr fuel rem already x 0 buf (mounted d) ≡ ok buf (mounted d)
    unfolding read_loop
    read_loop-done zero x rem already buf e enough = absurd (omega arith)
    read_loop-done (suc fuel) x rem already buf e enough = rw (==_of_eq rem 0 e) refl

    read_loop-mounted :
        (k r fuel x rem already : ℕ) (buf : Block)
        → rem ≡ 512 * k + r
        → r < 512
        → already ≡ 512 * x
        → already + rem ≤ 4096
        → rem < fuel
        → read_loop stack ino ptr fuel rem already x 0 buf (mounted d)
          ≡ ok (with_rest (x + k) r (full_blocks k x buf)) (mounted d)
    unfolding read_loop full_blocks
    read_loop-mounted k r zero x rem already buf er lr ea short enough = absurd (omega arith)
    read_loop-mounted zero zero (suc fuel) x rem already buf er lr ea short enough =
        rw (==_of_eq rem 0 (omega arith)) refl
    read_loop-mounted zero (suc r) (suc fuel) x rem already buf er lr ea short enough =
        let small : minimum 512 rem ≡ suc r = ground arith in
        let here : x + 0 ≡ x = omega arith in
        rw
          (
            ==_of_ne rem 0 (omega arith),
            round rem already x 0 buf (omega arith) (omega arith),
            lt→ltb already 4096 (omega arith),
            small,
            here,
            lt→ltb 0 (suc r) (omega arith),
          )
          (read_loop-done fuel (x + 1) (rem - suc r) (already + suc r) _ (omega arith)
            (omega arith))
    read_loop-mounted (suc k) r (suc fuel) x rem already buf er lr ea short enough =
        let whole : minimum 512 rem ≡ 512 = ground arith in
        let next : x + 1 ≡ suc x = omega arith in
        let calls : x + suc k ≡ suc x + k = omega arith in
        rw
          (
            ==_of_ne rem 0 (omega arith),
            round rem already x 0 buf (omega arith) (omega arith),
            lt→ltb already 4096 (omega arith),
            whole,
            next,
            calls,
          )
          (read_loop-mounted k r fuel (suc x) (rem - 512) (already + 512) _ (omega arith) lr
            (omega arith) (omega arith) (omega arith))

    read_loop-whole :
        (n : ℕ) (buf : Block)
        → n ≤ 4096
        → read_loop stack ino ptr (n + 1) n 0 0 0 buf (mounted d)
          ≡ ok (with_rest (n / 512) (n % 512) (full_blocks (n / 512) 0 buf)) (mounted d)
    read_loop-whole n buf short =
        let start : 0 + n / 512 ≡ n / 512 = omega arith in
        rw start at (
          read_loop-mounted (n / 512) (n % 512) (n + 1) 0 n 0 buf (omega arith) (omega arith)
            (omega arith) (omega arith) (omega arith))

  -- A file of n ≤ 4096 bytes: the parts of the earlier read_file, one behind the other.
  read_sections-mounted :
      (n : ℕ)
      → n ≤ 4096
      → read_sections stack ino n (mounted d)
        ≡ ok
            (with_rest (n / 512) (n % 512) (full_blocks (n / 512) 0 (stack malloc_buf 0)))
            (mounted d)
  unfolding read_sections
  read_sections-mounted n short =
      let few : ltb 8 (if ltb 0 (n % 512) then n / 512 + 1 else n / 512) ≡ false = ground arith in
      rw few (
        bind-ok _ (read_full-mounted (n / 512) 0 (stack malloc_buf 0) (omega arith))
        ∙ bind-ok _ (read_remainder-mounted (n / 512) (n % 512) _ (omega arith)))

-- At an inode below 1024 of at most 4096 bytes whose eight direct blocks lie on the disk and whose ninth
-- is sound, the earlier read_file ends normally behind the check of the inode, with the same size, the
-- same bytes and the same disk as that of inode_layer.cc.
pub read_contents-read_contents :
    (stack : Stack) (inum now : ℕ) (ino : Inode) (d : Disk)
    → inum < 1024
    → ino.size ≤ 4096
    → ((k : ℕ) → k < 8 → ino.blocks k < block_num)
    → IsPointer (ino.blocks 8)
    → (out : Block) × (d' : Disk) × (OldStuff.read_contents stack inum ino now (mounted d)
        ≡ ok (pos ino.size, out) (mounted d'))
      × (read_contents stack inum ino now (mounted d) ≡ ok (pos ino.size, out) (mounted d'))
unfolding OldStuff.read_contents read_contents
read_contents-read_contents stack inum now ino d small short sound ninth =
    let ino' : Inode = record ino { atime = now % 2 ^ 32 } in
    let d' : Disk = set_inode d inum ino' in
    let (ptr, e) = read_block-IsPointer d' (ino.blocks 8) (stack read_indirect 0) ninth in
    let size : to_int ino.size ≡ pos ino.size = to_int-small ino.size (omega arith) in
    (
      with_rest stack ino' d' sound (ino.size / 512) (ino.size % 512)
          (full_blocks stack ino' d' sound (ino.size / 512) 0 (stack malloc_buf 0)),
      d',
      rw (put_inode-mounted stack d inum ino' small, size)
          (bind-ok _ (read_sections-mounted stack ino' d' sound ino.size short)),
      rw (put_inode-mounted stack d inum ino' small, size, e)
          (bind-ok _ (read_loop-whole stack ino' d' sound ptr ino.size (stack malloc_buf 0) short)),
    )
