-- ===== src/InodeLayer/Gap.antt =====
-- The sizes from 4097 to 4607: write_file takes the ninth block for a direct one, and read_file for the
-- indirect block.
pub mod Leak
use file_system.Base.{
  ℕ, zero, suc, ◌+◌, ◌-◌, ◌*◌, ◌≤◌, ◌<◌, ◌≡◌, ◌≢◌, refl, ap, ◌∙◌, true, false, arith, ok, some, inl,
  inr, lt_or_ge, update, lt→ltb, le→ltb, lt→leb, ==_of_eq, ==_of_ne, ltb, if◌then◌else◌,
}
use file_system.Base.Int.{ℤ, pos, to_int}
use file_system.Disk.{Block, Disk, Stack, block_num, direct_buffer, final_indirect, read_indirect}
use file_system.Disk.Laws.{IsBytes}
use file_system.BlockLayer.{mounted}
use file_system.BlockLayer.Blocks.{read_block-ok}
use file_system.BlockLayer.Alloc.{first_data}
use file_system.BlockLayer.Bitmap.{used}
use file_system.BlockLayer.Space.{IsFirstFree, free_count, alloc_block-free}
use file_system.RwLock.{RwLock}
use file_system.RwLock.Idle.{idle, held_by_writer}
use file_system.Inode.{Inode, load_word}
use file_system.Inode.Codec.{Fits}
use file_system.Inode.Table.{
  inode_at, inode_at-Fits, inode_at-set_inode, set_inode, set_inode-elsewhere, put_inode-mounted,
}
use file_system.InodeLayer.{InodeLayer}
use file_system.InodeLayer.Locks.{layer, update_self, after_writer}
use file_system.InodeLayer.Read.{read_file}
use file_system.InodeLayer.Read.Rounds.{HasRound, place, round_size}
use file_system.InodeLayer.Read.Whole.{IsReadable, read_file-readable}
use file_system.InodeLayer.RoundTrip.{IsFile, write_file-ok}
use file_system.InodeLayer.Write.{write_file, write_loop, finish, write_contents}
use file_system.InodeLayer.Write.Round.{Progress, advance, write_round}
use file_system.InodeLayer.Write.Stored.{
  IsBuffer, Holds, stored, with_block, round-direct, stored_other, Holds-stored_new,
  Holds-stored_old,
}
use file_system.InodeLayer.Write.Contents.{begin, begin-Inv}
use file_system.InodeLayer.Write.Direct.{Inv}
use file_system.InodeLayer.Write.Freeing.{free_direct-Freed}
use file_system.InodeLayer.Write.Indirect.Loop.{write_loop-eight}

-- What a file of a size in the gap reads as: its first 4096 bytes, and then the block whose number its next
-- four bytes spell.
abbrev pub leaked : Block → Block → Block
leaked buf other i = if ltb i 4096 then buf i else other (i - 4096)

-- The number that the first four bytes behind 4096 spell.
abbrev pub spelled : Block → ℕ
spelled buf = load_word (λ i. buf (4096 + i)) 0 0

module _ (stack : Stack) (stack_bytes : (k : ℕ) → IsBuffer (stack direct_buffer k)) (buf : Block)
    (buf_bytes : IsBuffer buf) (n : ℕ) (long : 4100 ≤ n) (short : n < 4608) where
  -- The ninth round, behind the eight direct ones.
  module _ (d₁ : Disk) (ino : Inode) (fit : Fits ino) (typed : ino.type ≢ 0) (inum : ℕ)
      (small : inum < 1024) (start : Block) (d₂ : Disk) (p : Progress)
      (v : Inv buf n 32645 d₁ ino start 8 d₂ p) (b : ℕ)
      (first : IsFirstFree d₂ (block_num - first_data) first_data b) where
    abbrev ninth : Progress
    ninth = advance (record p { ino = with_block p.ino p.index b })

    abbrev written : Disk
    written = stored (stack direct_buffer) buf d₂ p b

    abbrev last_ino : Inode
    last_ino = record ino { size = n; blocks = update p.ino.blocks p.index b }

    abbrev last_disk : Disk
    last_disk = set_inode written inum last_ino

    blocks_old : (j : ℕ) → j < 8 → update p.ino.blocks p.index b j ≡ p.ino.blocks j
    blocks_old j lt = rw (==_of_ne j p.index (omega (arith, v.index))) refl

    blocks_ninth : update p.ino.blocks p.index b 8 ≡ b
    blocks_ninth = rw (==_of_eq 8 p.index (omega (arith, v.index))) refl

    last-Fits : Fits last_ino
    last-Fits = record {
      type = fit.type;
      size = omega arith;
      atime = fit.atime;
      mtime = fit.mtime;
      ctime = fit.ctime;
      blocks = λ j lt. elim (lt_or_ge j 8) [
        | inl direct ↦ rw (blocks_old j direct) (omega (arith, (v.held j direct).high))
        | inr ge ↦ let e : j ≡ 8 = omega arith in rw (e, blocks_ninth) (omega (arith, first.below))
      ];
      beyond = λ j ge.
          rw (==_of_ne j p.index (omega (arith, v.index)))
            (v.later j (omega arith) ∙ fit.beyond j ge);
    }

    last-elsewhere : (y : ℕ) → first_data ≤ y → last_disk y ≡ written y
    last-elsewhere y lo = set_inode-elsewhere written inum y last_ino small (inr lo)

    ninth-Holds : Holds buf n written 8 b
    ninth-Holds =
        Holds-stored_new (stack direct_buffer) buf stack_bytes buf_bytes n 32645 (omega arith) d₂ p
          b first v.bytes 8 v.index v.remaining

    -- What read_file takes for the first entry of the indirect block is data.
    first_entry : load_word (last_disk b) 0 0 ≡ spelled buf
    unfolding load_word
    first_entry =
        let h : (i : ℕ) → i < round_size n 8 → written b i ≡ buf (512 * 8 + i) =
          ninth-Holds.bytes in
        rw
          (
            last-elsewhere b first.from,
            h 0 (ground arith),
            h 1 (ground arith),
            h 2 (ground arith),
            h 3 (ground arith),
          )
          refl

    pub ninth-IsReadable :
        first_data ≤ spelled buf
        → spelled buf < block_num
        → used d₂ (spelled buf) ≡ true
        → IsReadable stack (leaked buf (d₂ (spelled buf))) n inum last_ino last_disk
    ninth-IsReadable lo hi u = record {
      at = inode_at-set_inode written inum inum last_ino last-Fits ∙ rw (==_of_eq inum inum refl);
      in_use = typed;
      size = refl;
      bounded = omega arith;
      loads = λ d' above. (
        last_disk b,
        rw blocks_ninth (
            read_block-ok b (stack read_indirect 0) (mounted d') (omega (arith, first.below))
            ∙ ap (λ (x : Block). ok x (mounted d')) (above b first.from)),
        λ j lt. elim (lt_or_ge j 8) [
          | inl direct ↦
              let h : Holds buf n written j (p.ino.blocks j) =
                Holds-stored_old (stack direct_buffer) buf stack_bytes buf_bytes n 32645
                  (omega arith) d₂ p b first v.bytes j _ (v.held j direct) in
              rw (lt→ltb j 8 direct, blocks_old j direct)
                (record {
                  high = h.high;
                  bytes = λ i within.
                      let below : 512 * j + i < 4096 = ground arith in
                      rw (above _ h.low, last-elsewhere _ h.low, lt→ltb (512 * j + i) 4096 below)
                        (h.bytes i within);
                })
          | inr ge ↦
              let e : j ≡ 8 = omega arith in
              let cell : 8 - 8 ≡ 0 = refl in
              rw (e, first_entry)
                (record {
                  high = hi;
                  bytes = λ i within.
                      let offset : 512 * 8 + i - 4096 ≡ i = omega arith in
                      rw
                        (
                          above (spelled buf) lo,
                          last-elsewhere (spelled buf) lo,
                          (stored_other (stack direct_buffer) buf stack_bytes buf_bytes n 32645
                              (omega arith) d₂ p b first v.bytes (spelled buf) lo hi u).1,
                          le→ltb (512 * 8 + i) 4096 (omega arith),
                          offset,
                        )
                        refl;
                })
        ],
      );
    }
