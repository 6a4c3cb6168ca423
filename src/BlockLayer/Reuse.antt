-- ===== src/BlockLayer/Reuse.antt =====
-- alloc_block on every bitmap, and free_block behind it.
use file_system.BlockLayer.Alloc.{alloc_block-mounted, free_block-mounted, taken, first_data}
use file_system.BlockLayer.Bitmap.{
  mark, unmark, used-mark, used-unmark, mark-elsewhere, mark-IsBytes, used,
}
use file_system.Base.{
  ap, ◌∙◌, sym, refl, inl, inr, eq_or_ne, ==_of_eq, ==_of_ne, if◌then◌else◌, ◌==◌, ◌≡◌, ok, ◌-◌,
  ◌⊎◌, ℕ, true, ◌≢◌, ◌/◌, ◌+◌, arith,
}
use file_system.BlockLayer.{no_block, Stack, Disk, alloc_block, mounted, block_num, free_block}
use file_system.Disk.{Stack, Disk, block_num}
use file_system.Disk.Laws.{IsBytes}
use file_system.BlockLayer.Space.{AllUsed, IsFirstFree, first_free-cases}

-- On a disk of bytes alloc_block ends normally. If every block from 123 on is allocated, it gives -1 and
-- changes nothing. Otherwise it gives the first one that is free; the bitmap then has that block as
-- allocated and every other as before, no disk block changes but the one with its mark, and free_block
-- of it ends normally and gives every block the mark that it had at first.
pub free_block-alloc_block :
    (stack : Stack) (d : Disk)
    → IsBytes d
    → ((alloc_block stack (mounted d) ≡ ok no_block (mounted d))
        × AllUsed d (block_num - first_data) first_data)
      ⊎ ((x : ℕ) × (d' : Disk) × (d'' : Disk) × IsFirstFree d (block_num - first_data) first_data x
          × (alloc_block stack (mounted d) ≡ ok x (mounted d'))
          × ((j : ℕ) → used d' j ≡ (if j == x then true else used d j))
          × ((i : ℕ) → i ≢ x / 4096 + 1 → d' i ≡ d i)
          × (free_block stack x (mounted d') ≡ ok tt (mounted d''))
          × ((j : ℕ) → used d'' j ≡ used d j))
free_block-alloc_block stack d bytes =
    elim (first_free-cases d (block_num - first_data) first_data) [
      | inl all ↦ inl (alloc_block-mounted stack d ∙ ap (taken d) all.0, all.1)
      | inr (x, e, f) ↦ inr (
        x,
        mark d x,
        unmark (mark d x) x,
        f,
        alloc_block-mounted stack d ∙ ap (taken d) e,
        λ j. used-mark d bytes x j f.free,
        mark-elsewhere d x,
        free_block-mounted stack (mark d x) x (omega (arith, f.below)),
        λ j. elim (eq_or_ne j x) [
          | inl same ↦
              rw (same, used-unmark (mark d x) (mark-IsBytes d x bytes) x x, ==_of_eq x x refl)
                (sym f.free)
          | inr ne ↦
              rw
                (
                  used-unmark (mark d x) (mark-IsBytes d x bytes) x j,
                  ==_of_ne j x ne,
                  used-mark d bytes x j f.free,
                  ==_of_ne j x ne,
                )
                refl
        ],
      )
    ]
