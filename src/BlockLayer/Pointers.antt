-- ===== src/BlockLayer/Pointers.antt =====
-- Block numbers that an inode may hold, and what freeing one does to a mounted disk.
use file_system.Base.{
  ℕ, ◌+◌, ◌/◌, ◌≤◌, ◌<◌, ◌≡◌, refl, arith, ok, ◌⊎◌, inl, inr, ◌∙◌, false, ==_of_eq, ==_of_ne, ◌≢◌,
}
use file_system.Disk.{Disk, Block, Stack, block_num}
use file_system.Disk.Laws.{IsBytes}
use file_system.BlockLayer.{mounted, free_block, read_block}
use file_system.BlockLayer.Blocks.{read_block-ok, read_block-beyond}
use file_system.BlockLayer.Bitmap.{unmark, unmark-IsBytes, unmark-elsewhere, used, used-unmark}
use file_system.BlockLayer.Alloc.{first_data, free_block-mounted, free_block-beyond}
use file_system.BlockLayer.Space.{free_count, free_count-unmark}

-- A block of the disk, or a number so large, as -1 is, that reads and frees of it do nothing.
abbrev pub IsPointer : ℕ → Type 0
IsPointer id = (id < block_num) ⊎ (block_num < id / 4096 + 1)

-- What any number of frees leaves: bytes, all blocks behind the bitmap, and no less free space.
pub record Freed (w : ℕ) (d d' : Disk) : Type 0 where
  pub bytes : IsBytes d'
  pub behind : (i : ℕ) → 9 ≤ i → d' i ≡ d i
  pub room : free_count d w first_data ≤ free_count d' w first_data
  pub stays : (j : ℕ) → j < block_num → used d j ≡ false → used d' j ≡ false

pub Freed-refl : (w : ℕ) (d : Disk) → IsBytes d → Freed w d d
Freed-refl w d h = record {
  bytes = h;
  behind = λ i lo. refl;
  room = omega arith;
  stays = λ j lt free. free;
}

pub Freed-trans : (w : ℕ) (a b c : Disk) → Freed w a b → Freed w b c → Freed w a c
Freed-trans w a b c f g = record {
  bytes = g.bytes;
  behind = λ i lo. g.behind i lo ∙ f.behind i lo;
  room = omega (arith, f.room, g.room);
  stays = λ j lt free. g.stays j lt (f.stays j lt free);
}

pub free_block-Freed :
    (stack : Stack) (w : ℕ) (d : Disk) (id : ℕ)
    → IsBytes d
    → IsPointer id
    → (d' : Disk) × (free_block stack id (mounted d) ≡ ok tt (mounted d'))
      × Freed w d d'
      × (id < block_num → used d' id ≡ false)
      × ((y : ℕ) → y ≢ id → used d' y ≡ used d y)
free_block-Freed stack w d id h (inl lt) = (
  unmark d id,
  free_block-mounted stack d id lt,
  record {
    bytes = unmark-IsBytes d id h;
    behind = λ i lo. unmark-elsewhere d id i (omega arith);
    room = free_count-unmark d h id w first_data;
    stays = λ j below free. rw (used-unmark d h id j) (ground (arith, free));
  },
  λ below. rw (used-unmark d h id id, ==_of_eq id id refl),
  λ y ne. rw (used-unmark d h id y, ==_of_ne y id ne) refl,
)
free_block-Freed stack w d id h (inr far) = (
  d,
  free_block-beyond stack d id far,
  Freed-refl w d h,
  λ below. absurd (omega arith),
  λ y ne. refl,
)

pub read_block-IsPointer :
    (d : Disk) (id : ℕ) (buf : Block)
    → IsPointer id
    → (out : Block) × (read_block id buf (mounted d) ≡ ok out (mounted d))
read_block-IsPointer d id buf (inl lt) = (d id, read_block-ok id buf (mounted d) lt)
read_block-IsPointer d id buf (inr far) = (buf, read_block-beyond id buf (mounted d) (omega arith))
