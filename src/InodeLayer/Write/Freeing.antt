-- ===== src/InodeLayer/Write/Freeing.antt =====
-- The loop of write_file and remove_file that frees the direct blocks.
use mathlib.Core.Path.{subst}
use file_system.Base.{
  zero, suc, ℕ, ◌+◌, ◌≤◌, ◌<◌, ◌≡◌, refl, false, arith, ◌≢◌, ◌∙◌, ok, inl, inr, eq_or_ne,
}
use file_system.Disk.{Disk, Stack, block_num}
use file_system.Disk.Laws.{IsBytes}
use file_system.BlockLayer.{mounted}
use file_system.BlockLayer.Bitmap.{used}
use file_system.BlockLayer.Pointers.{IsPointer, Freed, Freed-refl, Freed-trans, free_block-Freed}
use file_system.Inode.{Inode}
use file_system.InodeLayer.Write.{free_direct}

-- For sound block pointers the loop ends normally; it frees those of its rounds that are blocks of the
-- disk, no block becomes allocated, and the marks of all others stay.
pub free_direct-Freed :
    (stack : Stack) (w : ℕ) (ino : Inode) (rounds x : ℕ) (d : Disk)
    → IsBytes d
    → x + rounds ≤ 9
    → ((k : ℕ) → k < 9 → IsPointer (ino.blocks k))
    → (d' : Disk) × (free_direct stack ino rounds x (mounted d) ≡ ok tt (mounted d'))
      × Freed w d d'
      × ((k : ℕ)
          → x ≤ k
          → k < x + rounds
          → ino.blocks k < block_num
          → used d' (ino.blocks k) ≡ false)
      × ((y : ℕ) → ((k : ℕ) → x ≤ k → k < x + rounds → y ≢ ino.blocks k) → used d' y ≡ used d y)
unfolding free_direct
free_direct-Freed stack w ino zero x d h fits pointers =
    (d, refl, Freed-refl w d h, λ k lo hi lt. absurd (omega arith), λ y other. refl)
free_direct-Freed stack w ino (suc rounds) x d h fits pointers =
    let (d₁, e₁, f₁, gone₁, keep₁) =
      free_block-Freed stack w d (ino.blocks x) h (pointers x (omega arith)) in
    let (d₂, e₂, f₂, gone₂, keep₂) =
      free_direct-Freed stack w ino rounds (suc x) d₁ f₁.bytes (omega arith) pointers in
    (
      d₂,
      rw e₁ e₂,
      Freed-trans w d d₁ d₂ f₁ f₂,
      λ k lo hi lt. elim (eq_or_ne k x) [
        | inl e ↦ rw e (
            f₂.stays (ino.blocks x) (subst (λ (c : ℕ). ino.blocks c < block_num) e lt)
              (gone₁ (subst (λ (c : ℕ). ino.blocks c < block_num) e lt)))
        | inr ne ↦ gone₂ k (omega arith) (omega arith) lt
      ],
      λ y other.
          keep₂ y (λ k lo hi. other k (omega arith) (omega arith))
          ∙ keep₁ y (other x (omega arith) (omega arith)),
    )
