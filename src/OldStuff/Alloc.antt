-- ===== src/OldStuff/Alloc.antt =====
-- What the earlier alloc_block does on every disk.
use file_system.Base.{
  Run, ap, lt→leb, ==_of_ne, ==_of_eq, ℕ, zero, suc, ◌+◌, ◌/◌, ◌%◌, ◌≤◌, ◌<◌, ◌≡◌, ◌≢◌, ◌⊎◌, inl,
  inr, refl, ok, fault, arith, eq_or_ne, update, bind-ok, ◌∙◌,
}
use file_system.Disk.{Disk, Stack, bitmap_buf}
use file_system.BlockLayer.{BlockLayer, mounted}
use file_system.BlockLayer.Alloc.{held}
use file_system.BlockLayer.Blocks.{read_block-ok, write_block-ok}
use file_system.OldStuff.{bit_set, alloc_loop, alloc_block}

-- No byte of the first bitmap block from offset `id` to its end is the character 0.
abbrev pub NoZeroChar : Disk → ℕ → Type 0
NoZeroChar d id = (j : ℕ) → id ≤ j → j < 512 → d 1 j ≢ 48

-- `x` is the first offset from `id` on at which that block has one.
pub record IsFirstZeroChar (d : Disk) (id x : ℕ) : Type 0 where
  pub from : id ≤ x
  pub below : x < 512
  pub found : d 1 x ≡ 48
  pub first : (j : ℕ) → id ≤ j → j < x → d 1 j ≢ 48

-- The disk with the bit of block x set.
abbrev pub with_bit : Disk → ℕ → Disk
with_bit d x = update d 1 (update (d 1) (x / 8) (bit_set (d 1 (x / 8)) (x % 8)))

-- The two ways in which the search ends.
abbrev pub Outcome : Run BlockLayer ℕ → Disk → ℕ → Type 0
Outcome run d id =
    ((run ≡ fault) × NoZeroChar d id)
    ⊎ ((x : ℕ) × IsFirstZeroChar d id x × (run ≡ ok x (mounted (with_bit d x))))

module _ (stack : Stack) (d : Disk) where
  loop_beyond : (k : ℕ) → alloc_loop stack (suc k) 512 (held d) ≡ fault
  unfolding alloc_loop
  loop_beyond k = bind-ok _ (read_block-ok 1 (stack bitmap_buf 512) (held d) (omega arith))

  module _ (id : ℕ) (lt : id < 512) where
    first_block : id / 4096 + 1 ≡ 1
    first_block = omega arith

    loop_next :
        (k : ℕ)
        → d 1 id ≢ 48
        → alloc_loop stack (suc k) id (held d) ≡ alloc_loop stack k (suc id) (held d)
    unfolding alloc_loop
    loop_next k ne =
        let same : id % 4096 ≡ id = omega arith in
        rw (first_block, same)
          (bind-ok _ (read_block-ok 1 (stack bitmap_buf id) (held d) (omega arith))
            ∙ rw (lt→leb 512 id lt, ==_of_ne (d 1 id) 48 ne) refl)

    loop_found :
        (k : ℕ)
        → d 1 id ≡ 48
        → alloc_loop stack (suc k) id (held d) ≡ ok id (mounted (with_bit d id))
    unfolding alloc_loop
    loop_found k e =
        let same : id % 4096 ≡ id = omega arith in
        rw (first_block, same)
          (bind-ok _ (read_block-ok 1 (stack bitmap_buf id) (held d) (omega arith))
            ∙ rw (lt→leb 512 id lt, ==_of_eq (d 1 id) 48 e)
                (bind-ok _ (write_block-ok 1 _ (held d) (omega arith))))

    NoZeroChar-suc : d 1 id ≢ 48 → NoZeroChar d (suc id) → NoZeroChar d id
    NoZeroChar-suc ne none j lo hi = elim (eq_or_ne j id) [
      | inl e ↦ rw e ne
      | inr far ↦ none j (omega arith) hi
    ]

    IsFirstZeroChar-suc :
        (x : ℕ) → d 1 id ≢ 48 → IsFirstZeroChar d (suc id) x → IsFirstZeroChar d id x
    IsFirstZeroChar-suc x ne f = record {
      from = omega (arith, f.from);
      below = f.below;
      found = f.found;
      first = λ j lo hi. elim (eq_or_ne j id) [
        | inl e ↦ rw e ne
        | inr far ↦ f.first j (omega arith) hi
      ];
    }

  loop_lem : (k id : ℕ) → id ≤ 512 → 512 < id + k → Outcome (alloc_loop stack k id (held d)) d id
  loop_lem zero id le more = absurd (omega arith)
  loop_lem (suc k) id le more = elim (eq_or_ne id 512) [
    | inl e ↦ inl (
      ap (λ i. alloc_loop stack (suc k) i (held d)) e ∙ loop_beyond k,
      λ j lo hi. absurd (omega arith),
    )
    | inr ne ↦
        let lt : id < 512 = omega arith in
        elim (eq_or_ne (d 1 id) 48) [
          | inl e ↦ inr (
            id,
            record {
              from = omega arith;
              below = lt;
              found = e;
              first = λ j lo hi. absurd (omega arith);
            },
            loop_found id lt k e,
          )
          | inr other ↦ elim (loop_lem k (suc id) (omega arith) (omega arith)) [
            | inl (e, none) ↦ inl (loop_next id lt k other ∙ e, NoZeroChar-suc id lt other none)
            | inr (x, f, e) ↦
                inr (x, IsFirstZeroChar-suc id lt x other f, loop_next id lt k other ∙ e)
          ]
        ]
  ]

  -- On every disk the earlier alloc_block reads no mark of the bitmap. It gives the first id from 123 to
  -- 511 at whose offset the first bitmap block has the byte 48, the character 0, and sets that id's bit;
  -- when there is no such byte, as on a formatted disk, it reads behind its buffer.
  pub alloc_block_lem : Outcome (alloc_block stack (mounted d)) d 123
  unfolding alloc_block
  alloc_block_lem = loop_lem 32645 123 (omega arith) (omega arith)
