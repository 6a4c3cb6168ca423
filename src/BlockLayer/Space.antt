-- ===== src/BlockLayer/Space.antt =====
-- First fit, and how much free space the bitmap leaves: how allocation and freeing change it.
use file_system.Base.{
  ap, ◌/◌, ◌-◌, ℕ, zero, suc, ◌+◌, ◌≤◌, ◌<◌, ◌≡◌, refl, Bool, true, false, none, some, arith,
  if◌then◌else◌, eq_or_ne, ◌⊎◌, inl, inr, ◌∙◌, ok, ==_of_eq, ==_of_ne,
}
use file_system.Disk.{Disk, block_num, Stack}
use file_system.Disk.Laws.{IsBytes}
use file_system.BlockLayer.{mounted, alloc_block}
use file_system.Disk.{Stack}
use file_system.BlockLayer.Bitmap.{used, mark, unmark, used-mark, used-unmark}
use file_system.BlockLayer.Alloc.{first_free, first_data, alloc_block-mounted, taken}

-- Every one of k blocks from `id` on is allocated.
abbrev pub AllUsed : Disk → ℕ → ℕ → Type 0
AllUsed d k id = (j : ℕ) → id ≤ j → j < id + k → used d j ≡ true

-- `x` is the first block from `id` on that is free, and lies among the next k.
pub record IsFirstFree (d : Disk) (k id x : ℕ) : Type 0 where
  pub from : id ≤ x
  pub below : x < id + k
  pub free : used d x ≡ false
  pub first : (j : ℕ) → id ≤ j → j < x → used d j ≡ true

pub first_free-cases :
    (d : Disk) (k id : ℕ)
    → ((first_free d k id ≡ none) × AllUsed d k id)
      ⊎ ((x : ℕ) × (first_free d k id ≡ some x) × IsFirstFree d k id x)
unfolding first_free
first_free-cases d zero id = inl (refl, λ j p q. absurd (omega arith))
first_free-cases d (suc k) id = go (used d id) refl (first_free-cases d k (suc id))
  where
    extend :
        {b : Bool} (j : ℕ)
        → used d id ≡ true
        → (suc id ≤ j → used d j ≡ b)
        → b ≡ true
        → id ≤ j
        → used d j ≡ true
    extend j u rest e h = elim (eq_or_ne id j) [
      | inl same ↦ rw same at u
      | inr ne ↦ rest (omega arith) ∙ e
    ]

    go :
        (b : Bool)
        → used d id ≡ b
        → ((first_free d k (suc id) ≡ none) × AllUsed d k (suc id))
          ⊎ ((x : ℕ) × (first_free d k (suc id) ≡ some x) × IsFirstFree d k (suc id) x)
        → ((first_free d (suc k) id ≡ none) × AllUsed d (suc k) id)
          ⊎ ((x : ℕ) × (first_free d (suc k) id ≡ some x) × IsFirstFree d (suc k) id x)
    go false u rest = inr (
      id,
      rw (u, first_free),
      record {
        from = omega arith;
        below = omega arith;
        free = u;
        first = λ j p q. absurd (omega arith);
      },
    )
    go true u (inl (e, all)) =
        inl (rw (u, first_free) e, λ j p q. extend j u (λ h. all j h (omega arith)) refl p)
    go true u (inr (x, e, f)) = inr (
      x,
      rw (u, first_free) e,
      record {
        from = omega (arith, f.from);
        below = omega (arith, f.below);
        free = f.free;
        first = λ j p q. extend j u (λ h. f.first j h q) refl p;
      },
    )

-- The number of free blocks among k from `id` on.
unfoldable pub free_count : Disk → ℕ → ℕ → ℕ
free_count d zero id = 0
free_count d (suc k) id = (if used d id then 0 else 1) + free_count d k (suc id)

pub free_count-pos : (d : Disk) (k id : ℕ) → AllUsed d k id → free_count d k id ≡ 0
unfolding free_count
free_count-pos d zero id all = refl
free_count-pos d (suc k) id all =
    rw (all id (omega arith) (omega arith))
      (omega (arith, free_count-pos d k (suc id) (λ j p q. all j (omega arith) (omega arith))))

module _ (d : Disk) (bytes : IsBytes d) (x : ℕ) where
  free_count-mark_before :
      (k id : ℕ) → used d x ≡ false → x < id → free_count (mark d x) k id ≡ free_count d k id
  unfolding free_count
  free_count-mark_before zero id free h = refl
  free_count-mark_before (suc k) id free h =
      ground (arith, used-mark d bytes x id free, free_count-mark_before k (suc id) free)

  -- Allocation takes at most one block away.
  pub free_count-mark :
      (k id : ℕ) → used d x ≡ false → free_count d k id ≤ free_count (mark d x) k id + 1
  unfolding free_count
  free_count-mark zero id free = omega arith
  free_count-mark (suc k) id free = ground (
    arith,
    used-mark d bytes x id free,
    free_count-mark k (suc id) free,
    free_count-mark_before k (suc id) free,
  )

  -- Freeing takes none away.
  pub free_count-unmark : (k id : ℕ) → free_count d k id ≤ free_count (unmark d x) k id
  unfolding free_count
  free_count-unmark zero id = omega arith
  free_count-unmark (suc k) id =
      ground (arith, used-unmark d bytes x id, free_count-unmark k (suc id))

  -- Freeing an allocated block gives one more.
  pub free_count-unmark_gain :
      (k id : ℕ)
      → used d x ≡ true
      → id ≤ x
      → x < id + k
      → free_count d k id + 1 ≤ free_count (unmark d x) k id
  unfolding free_count
  free_count-unmark_gain zero id u lo hi = absurd (omega arith)
  free_count-unmark_gain (suc k) id u lo hi = elim (eq_or_ne id x) [
    | inl e ↦
        rw (used-unmark d bytes x id, ==_of_eq id x e, e, u)
          (omega (arith, free_count-unmark k (suc x)))
    | inr ne ↦
        rw (used-unmark d bytes x id, ==_of_ne id x ne)
          (omega (arith, free_count-unmark_gain k (suc id) u (omega arith) (omega arith)))
  ]

-- Disks that agree on the bitmap agree on what is free.
pub used-same :
    (d d' : Disk) → ((i : ℕ) → i < 9 → d' i ≡ d i) → (j : ℕ) → j < block_num → used d' j ≡ used d j
unfolding used
used-same d d' same j h = rw (same (j / 4096 + 1) (omega arith))

pub free_count-same :
    (d d' : Disk)
    → ((i : ℕ) → i < 9 → d' i ≡ d i)
    → (k id : ℕ) → id + k ≤ block_num
    → free_count d' k id ≡ free_count d k id
unfolding free_count
free_count-same d d' same zero id h = refl
free_count-same d d' same (suc k) id h =
    rw (used-same d d' same id (omega arith), free_count-same d d' same k (suc id) (omega arith))

-- With a free block left, alloc_block takes the first one.
pub alloc_block-free :
    (stack : Stack) (d : Disk) (w : ℕ)
    → first_data + w ≤ block_num
    → 0 < free_count d w first_data
    → (b : ℕ) × (alloc_block stack (mounted d) ≡ ok b (mounted (mark d b)))
      × IsFirstFree d (block_num - first_data) first_data b
alloc_block-free stack d w fits some_free =
    go (first_free-cases d (block_num - first_data) first_data)
  where
    go :
        ((first_free d (block_num - first_data) first_data ≡ none)
            × AllUsed d (block_num - first_data) first_data)
          ⊎ ((x : ℕ) × (first_free d (block_num - first_data) first_data ≡ some x)
              × IsFirstFree d (block_num - first_data) first_data x)
        → (b : ℕ) × (alloc_block stack (mounted d) ≡ ok b (mounted (mark d b)))
          × IsFirstFree d (block_num - first_data) first_data b
    go (inl (e, all)) =
        absurd (omega (arith, free_count-pos d w first_data (λ j p q. all j p (omega arith))))
    go (inr (x, e, f)) = (x, alloc_block-mounted stack d ∙ ap (taken d) e, f)
