-- ===== src/Inode/Table.antt =====
-- The inode table of a mounted disk: what get_inode and put_inode do to it, inode by inode.
use file_system.Base.{
  ℕ, ◌+◌, ◌*◌, ◌/◌, ◌%◌, ◌≤◌, ◌<◌, ◌≡◌, ◌≢◌, refl, Option, none, some, arith, leb, ◌==◌,
  if◌then◌else◌, update, ok, Bool-cases, eq_or_ne, lt_or_ge, inl, inr, ◌∙◌, ◌⊎◌, lt→leb, ==_of_eq,
  bind-ok, ==_of_ne, le→leb,
}
use file_system.Disk.{Disk, Stack, block_num, get_inode_buf, put_inode_buf}
use file_system.Disk.Laws.{IsBytes}
use file_system.BlockLayer.{mounted, inode_num, iblock}
use file_system.BlockLayer.Blocks.{read_block-ok, write_block-ok}
use file_system.BlockLayer.Bitmap.{used}
use file_system.Inode.{Inode, load_inode, store_inode, get_inode, put_inode}
use file_system.Inode.Codec.{
  load_inode-Fits, Fits, load_inode-store_inode, load_inode-outside, store_inode-outside,
}

-- The struct at an inode's place on the disk, in use or not.
unfoldable pub inode_at : Disk → ℕ → Inode
inode_at d inum = load_inode (d (inum / 9 + 9)) (inum % 9 * 56)

-- An inode that is in use.
unfoldable pub find_inode : Disk → ℕ → Option Inode
find_inode d inum =
    if leb inode_num inum
    then none
    else if (inode_at d inum).type == 0
    then none
    else some (inode_at d inum)

-- The disk with an inode stored at its place.
unfoldable pub set_inode : Disk → ℕ → Inode → Disk
set_inode d inum ino = update d (inum / 9 + 9) (store_inode (d (inum / 9 + 9)) (inum % 9 * 56) ino)

module _ (stack : Stack) (d : Disk) (inum : ℕ) where
  place : inum < inode_num → iblock inum block_num ≡ inum / 9 + 9
  place h = omega arith

  pub get_inode-mounted : get_inode stack inum (mounted d) ≡ ok (find_inode d inum) (mounted d)
  unfolding get_inode find_inode inode_at
  get_inode-mounted = elim (lt_or_ge inum inode_num) [
    | inl lt ↦
        rw (lt→leb inode_num inum lt, place lt)
          (bind-ok _
              (read_block-ok (inum / 9 + 9) (stack get_inode_buf 0) (mounted d) (omega arith))
            ∙ elim (Bool-cases ((load_inode (d (inum / 9 + 9)) (inum % 9 * 56)).type == 0)) [
              | inl z ↦ rw z
              | inr z ↦ rw z
            ])
    | inr ge ↦ rw (le→leb inode_num inum ge)
  ]

  pub put_inode-mounted :
      (ino : Inode)
      → inum < inode_num
      → put_inode stack inum (some ino) (mounted d) ≡ ok tt (mounted (set_inode d inum ino))
  unfolding put_inode set_inode
  put_inode-mounted ino h =
      rw (lt→leb inode_num inum h, place h)
        (bind-ok _ (read_block-ok (inum / 9 + 9) (stack put_inode_buf 0) (mounted d) (omega arith))
          ∙ rw (place h, write_block-ok (inum / 9 + 9) _ (mounted d) (omega arith)))

module _ (d : Disk) (i j : ℕ) (ino : Inode) where
  pub inode_at-set_inode :
      Fits ino → inode_at (set_inode d i ino) j ≡ (if j == i then ino else inode_at d j)
  unfolding inode_at set_inode
  inode_at-set_inode fit = elim (eq_or_ne j i) [
    | inl e ↦
        rw (e, ==_of_eq i i refl, ==_of_eq (i / 9 + 9) (i / 9 + 9) refl)
          (load_inode-store_inode (d (i / 9 + 9)) (i % 9 * 56) ino fit)
    | inr ne ↦ rw (==_of_ne j i ne) (apart ne)
  ]
    where
      apart :
          j ≢ i
          → load_inode
              (if j / 9 + 9 == i / 9 + 9
                then store_inode (d (i / 9 + 9)) (i % 9 * 56) ino
                else d (j / 9 + 9))
              (j % 9 * 56)
            ≡ load_inode (d (j / 9 + 9)) (j % 9 * 56)
      apart ne = elim (eq_or_ne (j / 9) (i / 9)) [
        | inl e ↦
            rw (e, ==_of_eq (i / 9 + 9) (i / 9 + 9) refl)
              (load_inode-outside _ _ (j % 9 * 56)
                λ b lo hi. store_inode-outside (d (i / 9 + 9)) (i % 9 * 56) ino b (grind arith))
        | inr far ↦ rw (==_of_ne (j / 9 + 9) (i / 9 + 9) (omega arith))
      ]

  -- The bitmap and the data blocks are not touched.
  pub set_inode-elsewhere : i < inode_num → (j < 9) ⊎ (123 ≤ j) → set_inode d i ino j ≡ d j
  unfolding set_inode
  set_inode-elsewhere h out = ground arith

pub used-set_inode :
    (d : Disk) (i j : ℕ) (ino : Inode)
    → i < inode_num
    → j < block_num
    → used (set_inode d i ino) j ≡ used d j
unfolding used
used-set_inode d i j ino h lt =
    rw (set_inode-elsewhere d i (j / 4096 + 1) ino h (inl (omega arith)))

pub set_inode-IsBytes : (d : Disk) (i : ℕ) (ino : Inode) → IsBytes d → IsBytes (set_inode d i ino)
unfolding set_inode store_inode
set_inode-IsBytes d i ino h a b = ground (arith, h a b, h (i / 9 + 9) b)

-- On a disk of bytes every struct of the table fits its types.
pub inode_at-Fits : (d : Disk) (inum : ℕ) → IsBytes d → Fits (inode_at d inum)
unfolding inode_at
inode_at-Fits d inum h =
    load_inode-Fits (d (inum / 9 + 9)) (inum % 9 * 56) (λ i. h (inum / 9 + 9) i)

-- Disks that agree on the inode table have the same structs.
pub inode_at-same :
    (d d' : Disk)
    → ((i : ℕ) → 9 ≤ i → i < 123 → d' i ≡ d i)
    → (j : ℕ) → j < inode_num
    → inode_at d' j ≡ inode_at d j
unfolding inode_at
inode_at-same d d' same j small = rw (same (j / 9 + 9) (omega arith) (omega arith)) refl

-- An inode that has the same struct on both disks is found alike.
pub find_inode-same :
    (d d' : Disk) (j : ℕ) → inode_at d' j ≡ inode_at d j → find_inode d' j ≡ find_inode d j
unfolding find_inode
find_inode-same d d' j e = rw e

pub find_inode-some :
    (d : Disk) (x : ℕ) (i : Inode) → find_inode d x ≡ some i → (x < 1024) × (i ≡ inode_at d x)
unfolding find_inode
find_inode-some d x i e = ground arith

pub find_inode-type_zero : (d : Disk) (x : ℕ) → (inode_at d x).type ≡ 0 → find_inode d x ≡ none
unfolding find_inode
find_inode-type_zero d x e = ground arith
