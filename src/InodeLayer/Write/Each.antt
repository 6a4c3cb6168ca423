-- ===== src/InodeLayer/Write/Each.antt =====
-- The loops of write_file that free blocks, as loops over a sequence of block numbers.
use file_system.Base.{
  ℕ, zero, suc, ◌+◌, ◌-◌, ◌*◌, ◌≤◌, ◌<◌, ◌≡◌, ◌≢◌, refl, ◌∙◌, ap, true, arith, ok, Cmd, pure, ◌>>◌,
  lt→leb, ==_of_ne,
}
use file_system.Disk.{Block, Disk, Stack, block_num}
use file_system.Disk.Laws.{IsBytes}
use file_system.BlockLayer.{BlockLayer, mounted, free_block}
use file_system.BlockLayer.Alloc.{first_data, free_block-mounted}
use file_system.BlockLayer.Bitmap.{used, unmark, used-unmark, unmark-IsBytes, unmark-elsewhere}
use file_system.BlockLayer.Pointers.{Freed, Freed-refl, Freed-trans}
use file_system.BlockLayer.Space.{free_count, free_count-unmark_gain, free_count-unmark}
use file_system.Inode.{Inode, load_word}
use file_system.InodeLayer.Read.{entry}
use file_system.InodeLayer.Write.{free_direct, free_entries}

unfoldable pub free_each : Stack → (ℕ → ℕ) → ℕ → ℕ → Cmd BlockLayer (Unit {0})
free_each stack f zero x = pure tt
free_each stack f (suc rounds) x = do free_block stack (f x); free_each stack f rounds (suc x)

pub free_direct-free_each :
    (stack : Stack) (ino : Inode) (rounds x : ℕ)
    → free_direct stack ino rounds x ≡ free_each stack ino.blocks rounds x
unfolding free_direct free_each
free_direct-free_each stack ino zero x = refl
free_direct-free_each stack ino (suc rounds) x =
    ap (λ (m : Cmd BlockLayer (Unit {0})). free_block stack (ino.blocks x) >> m)
      (free_direct-free_each stack ino rounds (suc x))

pub free_entries-free_each :
    (stack : Stack) (ptr : Block) (fuel rounds x : ℕ)
    → rounds < fuel
    → x + rounds ≤ 128
    → free_entries stack ptr fuel (512 * rounds) x
      ≡ free_each stack (λ k. load_word ptr 0 k) rounds x
unfolding free_entries free_each entry
free_entries-free_each stack ptr zero rounds x enough fits = absurd (omega arith)
free_entries-free_each stack ptr (suc fuel) zero x enough fits = refl
free_entries-free_each stack ptr (suc fuel) (suc rounds) x enough fits =
    let less : 512 * suc rounds - 512 ≡ 512 * rounds = omega arith in
    let next : x + 1 ≡ suc x = omega arith in
    rw (==_of_ne (512 * suc rounds) 0 (omega arith), lt→leb 128 x (omega arith), less, next)
      (ap (λ (m : Cmd BlockLayer (Unit {0})). free_block stack (load_word ptr 0 x) >> m)
        (free_entries-free_each stack ptr fuel rounds (suc x) (omega arith) (omega arith)))

-- Distinct allocated data blocks, from x on.
pub record AreBlocks (d : Disk) (f : ℕ → ℕ) (rounds x : ℕ) : Type 0 where
  pub low : (k : ℕ) → x ≤ k → k < x + rounds → first_data ≤ f k
  pub high : (k : ℕ) → x ≤ k → k < x + rounds → f k < block_num
  pub marked : (k : ℕ) → x ≤ k → k < x + rounds → used d (f k) ≡ true
  pub distinct : (i j : ℕ) → x ≤ i → i < x + rounds → x ≤ j → j < x + rounds → i ≢ j → f i ≢ f j

-- Freeing them leaves that many free blocks more, and the other marks as they were.
pub free_each_lem :
    (stack : Stack) (f : ℕ → ℕ) (rounds x : ℕ) (d : Disk)
    → IsBytes d
    → AreBlocks d f rounds x
    → (d' : Disk) × (free_each stack f rounds x (mounted d) ≡ ok tt (mounted d'))
      × Freed 32645 d d'
      × ((y : ℕ) → ((k : ℕ) → x ≤ k → k < x + rounds → y ≢ f k) → used d' y ≡ used d y)
      × (free_count d 32645 first_data + rounds ≤ free_count d' 32645 first_data)
unfolding free_each
free_each_lem stack f zero x d h blocks =
    (d, refl, Freed-refl 32645 d h, λ y other. refl, omega arith)
free_each_lem stack f (suc rounds) x d h blocks =
    let lt : f x < block_num = blocks.high x (omega arith) (omega arith) in
    let d₁ : Disk = unmark d (f x) in
    let bytes₁ : IsBytes d₁ = unmark-IsBytes d (f x) h in
    let (d', e, freed, keep, gain) = free_each_lem stack f rounds (suc x) d₁ bytes₁ (record {
      low = λ k lo hi. blocks.low k (omega arith) (omega arith);
      high = λ k lo hi. blocks.high k (omega arith) (omega arith);
      marked = λ k lo hi.
          rw
            (
              used-unmark d h (f x) (f k),
              ==_of_ne (f k) (f x) (
                  blocks.distinct k x (omega arith) (omega arith) (omega arith) (omega arith)
                    (omega arith)),
            )
            (blocks.marked k (omega arith) (omega arith));
      distinct = λ i j li hi lj hj ne.
          blocks.distinct i j (omega arith) (omega arith) (omega arith) (omega arith) ne;
    }) in
    (
      d',
      rw (free_block-mounted stack d (f x) lt) e,
      Freed-trans 32645 d d₁ d'
          (record {
            bytes = bytes₁;
            behind = λ i lo. unmark-elsewhere d (f x) i (omega arith);
            room = free_count-unmark d h (f x) 32645 first_data;
            stays = λ j below free. rw (used-unmark d h (f x) j) (ground (arith, free));
          })
          freed,
      λ y other.
          keep y (λ k lo hi. other k (omega arith) (omega arith))
          ∙ rw (used-unmark d h (f x) y, ==_of_ne y (f x) (other x (omega arith) (omega arith)))
              refl,
      omega (
        arith,
        gain,
        free_count-unmark_gain d h (f x) 32645 first_data
            (blocks.marked x (omega arith) (omega arith)) (blocks.low x (omega arith) (omega arith))
            (omega (arith, lt)),
      ),
    )
