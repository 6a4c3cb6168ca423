-- ===== src/InodeLayer/Remove/Laws.antt =====
-- What remove_file frees and what it leaves.
use file_system.Base.{
  ℕ, zero, suc, ◌+◌, ◌-◌, ◌/◌, ◌^◌, ◌≤◌, ◌<◌, ◌≡◌, ◌≢◌, refl, ◌∙◌, false, some, none, arith, ltb,
  ok, inl, inr, eq_or_ne, lt_or_ge, lt→leb, lt→ltb, le→ltb, if◌then◌else◌, bind-ok,
}
use file_system.Base.Int.{to_int-small}
use file_system.Disk.{Disk, Block, Stack, block_num, remove_indirect}
use file_system.Disk.Laws.{IsBytes}
use file_system.BlockLayer.{mounted}
use file_system.BlockLayer.Alloc.{first_data}
use file_system.BlockLayer.Blocks.{read_block-ok}
use file_system.BlockLayer.Bitmap.{used}
use file_system.BlockLayer.Pointers.{IsPointer, Freed, Freed-refl, Freed-trans, free_block-Freed}
use file_system.Inode.{Inode, load_word}
use file_system.Inode.Table.{
  inode_at, find_inode, set_inode-elsewhere, get_inode-mounted, used-set_inode, find_inode-same,
}
use file_system.InodeLayer.{free_inode}
use file_system.InodeLayer.Alloc.{free_inode_lem}
use file_system.InodeLayer.RoundTrip.{IsFile, find_inode-IsFile}
use file_system.InodeLayer.Write.Freeing.{free_direct-Freed}
use file_system.InodeLayer.Remove.{free_indirect, free_blocks, free_blocks_rest, remove_file}

-- How many entries of the indirect block remove_file frees; 0 when it does not look at it.
abbrev pub entries_freed : ℕ → ℕ
entries_freed size = if ltb 4096 size then (size - 4096) / 512 + 1 else 0

-- The part of the file's block map that remove_file follows is sound: the size leaves room for one
-- more entry than the file has, and a large file's indirect block lies behind the bitmap and holds
-- pointers.
pub record IsRemovable (d : Disk) (ino : Inode) : Type 0 where
  pub size : ino.size < 69632
  pub indirect : 4096 < ino.size → (9 ≤ ino.blocks 8) × (ino.blocks 8 < block_num)
  pub entries :
      4096 < ino.size
      → (k : ℕ) → k < entries_freed ino.size
      → IsPointer (load_word (d (ino.blocks 8)) 0 k)

module _ (stack : Stack) (w : ℕ) where
  free_indirect-Freed :
      (ptr : Block) (rounds x : ℕ) (d : Disk)
      → IsBytes d
      → x + rounds ≤ 128
      → ((k : ℕ) → k < x + rounds → IsPointer (load_word ptr 0 k))
      → (d' : Disk) × (free_indirect stack ptr rounds x (mounted d) ≡ ok tt (mounted d'))
        × Freed w d d'
        × ((k : ℕ)
            → x ≤ k
            → k < x + rounds
            → load_word ptr 0 k < block_num
            → used d' (load_word ptr 0 k) ≡ false)
  unfolding free_indirect
  free_indirect-Freed ptr zero x d h fits pointers =
      (d, refl, Freed-refl w d h, λ k lo hi lt. absurd (omega arith))
  free_indirect-Freed ptr (suc rounds) x d h fits pointers =
      let (d₁, e₁, f₁, gone₁, _) =
        free_block-Freed stack w d (load_word ptr 0 x) h (pointers x (omega arith)) in
      let (d₂, e₂, f₂, gone₂) =
        free_indirect-Freed ptr rounds (suc x) d₁ f₁.bytes (omega arith)
          (λ k lt. pointers k (omega arith)) in
      (
        d₂,
        rw (lt→leb 128 x (omega arith), e₁) e₂,
        Freed-trans w d d₁ d₂ f₁ f₂,
        λ k lo hi lt. elim (eq_or_ne x k) [
          | inl e ↦
              let lt' : load_word ptr 0 x < block_num = rw e lt in
              rw (← e) (f₂.stays (load_word ptr 0 x) lt' (gone₁ lt'))
          | inr ne ↦ gone₂ k (omega arith) (omega arith) lt
        ],
      )

  -- Everything that the struct names as a block of the file is free afterwards.
  pub record AllFreed (d d' : Disk) (ino : Inode) : Type 0 where
    pub freed : Freed w d d'
    pub direct : (k : ℕ) → k < 8 → ino.blocks k < block_num → used d' (ino.blocks k) ≡ false
    pub indirect :
        4096 < ino.size
        → (k : ℕ) → k < entries_freed ino.size
        → load_word (d (ino.blocks 8)) 0 k < block_num
        → used d' (load_word (d (ino.blocks 8)) 0 k) ≡ false
    pub table : 4096 < ino.size → used d' (ino.blocks 8) ≡ false

  -- The branch of a file with an indirect block, behind the loop over the direct ones.
  free_large :
      (d d₁ : Disk) (ino : Inode)
      → Freed w d d₁
      → ((k : ℕ) → k < 8 → ino.blocks k < block_num → used d₁ (ino.blocks k) ≡ false)
      → IsRemovable d ino
      → 4096 < ino.size
      → (d' : Disk) × (free_blocks_rest stack ino (mounted d₁) ≡ ok tt (mounted d'))
        × AllFreed d d' ino
  unfolding free_blocks_rest
  free_large d d₁ ino f₁ gone₁ sound large =
      let block = sound.indirect large in
      let count : entries_freed ino.size ≡ (ino.size - 4096) / 512 + 1 =
        rw (lt→ltb 4096 ino.size large) in
      let (d₂, e₂, f₂, gone₂) =
        free_indirect-Freed (d (ino.blocks 8)) ((ino.size - 4096) / 512 + 1) 0 d₁ f₁.bytes
          (omega (arith, sound.size)) (λ k lt. sound.entries large k (omega (arith, count))) in
      let (d₃, e₃, f₃, gone₃, _) =
        free_block-Freed stack w d₂ (ino.blocks 8) f₂.bytes (inl block.1) in
      (
        d₃,
        rw
            (
              lt→leb (2 ^ 31) ino.size (omega (arith, sound.size)),
              to_int-small ino.size (omega (arith, sound.size)),
              lt→ltb 0 (ino.size - 4096) (omega arith),
              read_block-ok (ino.blocks 8) (stack remove_indirect 0) (mounted d₁) block.1,
              f₁.behind (ino.blocks 8) block.0,
              e₂,
            )
            e₃,
        record {
          freed = Freed-trans w d d₁ d₃ f₁ (Freed-trans w d₁ d₂ d₃ f₂ f₃);
          direct = λ k lt below.
              f₃.stays (ino.blocks k) below (f₂.stays (ino.blocks k) below (gone₁ k lt below));
          indirect =
              λ _ k lt below. f₃.stays _ below (gone₂ k (omega arith) (omega (arith, count)) below);
          table = λ _. gone₃ block.1;
        },
      )

  free_blocks-AllFreed :
      (d : Disk) (ino : Inode)
      → IsBytes d
      → ((k : ℕ) → k < 9 → IsPointer (ino.blocks k))
      → IsRemovable d ino
      → (d' : Disk) × (free_blocks stack ino (mounted d) ≡ ok tt (mounted d')) × AllFreed d d' ino
  unfolding free_blocks
  free_blocks-AllFreed d ino h pointers sound =
      let (d₁, e₁, f₁, gone₁, _) = free_direct-Freed stack w ino 8 0 d h (omega arith) pointers in
      elim (lt_or_ge 4096 ino.size) [
        | inl large ↦
            let (d', e, all) =
              free_large d d₁ ino f₁ (λ k lt below. gone₁ k (omega arith) (omega arith) below) sound
                large in
            (d', rw e₁ e, all)
        | inr short ↦ (
          d₁,
          rw (
            e₁,
            lt→leb (2 ^ 31) ino.size (omega (arith, sound.size)),
            to_int-small ino.size (omega (arith, sound.size)),
            le→ltb 0 (ino.size - 4096) (omega arith),
          ),
          record {
            freed = f₁;
            direct = λ k lt below. gone₁ k (omega arith) (omega arith) below;
            indirect = λ large. absurd (omega arith);
            table = λ large. absurd (omega arith);
          },
        )
      ]

find_inode-behind :
    (d d' : Disk) (j : ℕ) → ((i : ℕ) → 9 ≤ i → d' i ≡ d i) → find_inode d' j ≡ find_inode d j
unfolding inode_at
find_inode-behind d d' j same = find_inode-same d d' j (rw (same (j / 9 + 9) (omega arith)))

-- free_inode at an inode that is there.
record IsGone (d d' : Disk) (inum : ℕ) : Type 0 where
  gone : find_inode d' inum ≡ none
  others : (j : ℕ) → j ≢ inum → inode_at d' j ≡ inode_at d j
  bitmap : (j : ℕ) → j < block_num → used d' j ≡ used d j
  contents : (i : ℕ) → first_data ≤ i → d' i ≡ d i

free_inode-found :
    (stack : Stack) (inum : ℕ) (d : Disk)
    → IsBytes d
    → (ino : Inode) → find_inode d inum ≡ some ino
    → (d' : Disk) × (free_inode stack inum (mounted d) ≡ ok tt (mounted d')) × IsGone d d' inum
free_inode-found stack inum d h ino found = elim (free_inode_lem stack inum d h) [
  | inl (missing, _) ↦ cc (missing, found)
  | inr (d', e, _, small, set, gone, others) ↦ (
    d',
    e,
    record {
      gone = gone;
      others = others;
      bitmap = λ j lt. rw set (used-set_inode d inum j _ small lt);
      contents = λ i lo. rw set (set_inode-elsewhere d inum i _ small (inr lo));
    },
  )
]

-- On a disk of bytes, remove_file of an inode in use whose block map is sound ends normally.
-- Afterwards the inode is not in use and its direct blocks, and the indirect block and the entries
-- followed if the file is larger than 4096 bytes, are free; nothing that was free is allocated,
-- every other inode is found as before, and no data block has other contents.
pub remove_file_lem :
    (stack : Stack) (inum : ℕ) (d : Disk)
    → IsFile d inum
    → IsRemovable d (inode_at d inum)
    → (d' : Disk) × (remove_file stack inum (mounted d) ≡ ok tt (mounted d'))
      × (find_inode d' inum ≡ none)
      × ((j : ℕ) → j ≢ inum → find_inode d' j ≡ find_inode d j)
      × ((k : ℕ)
          → k < 8
          → (inode_at d inum).blocks k < block_num
          → used d' ((inode_at d inum).blocks k) ≡ false)
      × (4096 < (inode_at d inum).size → used d' ((inode_at d inum).blocks 8) ≡ false)
      × (4096 < (inode_at d inum).size
          → (k : ℕ) → k < entries_freed (inode_at d inum).size
          → load_word (d ((inode_at d inum).blocks 8)) 0 k < block_num
          → used d' (load_word (d ((inode_at d inum).blocks 8)) 0 k) ≡ false)
      × ((j : ℕ) → j < block_num → used d j ≡ false → used d' j ≡ false)
      × ((i : ℕ) → first_data ≤ i → d' i ≡ d i)
unfolding remove_file
remove_file_lem stack inum d file sound =
    let (d₁, e₁, all) =
      free_blocks-AllFreed stack 0 d (inode_at d inum) file.bytes file.pointers sound in
    let (d₂, e₂, here) =
      free_inode-found stack inum d₁ all.freed.bytes (inode_at d inum)
        (find_inode-behind d d₁ inum all.freed.behind ∙ find_inode-IsFile d inum file) in
    (
      d₂,
      bind-ok _ (get_inode-mounted stack d inum) ∙ rw (find_inode-IsFile d inum file, e₁) e₂,
      here.gone,
      λ j ne.
          find_inode-same d₁ d₂ j (here.others j ne) ∙ find_inode-behind d d₁ j all.freed.behind,
      λ k lt below. here.bitmap _ below ∙ all.direct k lt below,
      λ large. here.bitmap _ (sound.indirect large).1 ∙ all.table large,
      λ large k lt below. here.bitmap _ below ∙ all.indirect large k lt below,
      λ j below free. here.bitmap j below ∙ all.freed.stays j below free,
      λ i lo. here.contents i lo ∙ all.freed.behind i (omega arith),
    )
