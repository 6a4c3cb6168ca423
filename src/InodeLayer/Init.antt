-- ===== src/InodeLayer/Init.antt =====
-- The constructors: a formatted disk, and the root directory in inode 0.
use file_system.Base.{
  ℕ, ◌%◌, ◌<◌, ◌≡◌, refl, ◌∙◌, true, none, some, arith, ok, inl, inr, bind-ok, ==_of_eq, eq_or_ne,
  false, ◌≢◌, ap, fault,
}
use file_system.Disk.{Disk, Stack, init_disk, block_num}
use file_system.Disk.Laws.{IsBytes}
use file_system.BlockLayer.{
  mounted, init_block_layer, Mutex, uninitialised, alloc_block, free_block,
}
use file_system.InodeLayer.Unlocked.{with_mutex, alloc_inode-Ignores}
use file_system.BlockLayer.Bitmap.{used}
use file_system.RwLock.{init_rwlock}
use file_system.Inode.{load_inode, load_half}
use file_system.Inode.Table.{inode_at, find_inode, find_inode-same}
use mathlib.Core.Path.{subst}
use file_system.Base.Bytes.{bit_test-zero}
use file_system.BlockLayer.Space.{used-same}
use file_system.InodeLayer.{init_inode_layer, alloc_inode, new_inode}
use file_system.InodeLayer.Alloc.{alloc_inode_lem, Slot}
use file_system.InodeLayer.Locks.{layer, on_bm-ok}

pub init_disk-IsBytes : IsBytes init_disk
unfolding init_disk
init_disk-IsBytes i j = omega arith

-- The formatted disk has no inode in use and no block allocated.
pub find_inode-init : (j : ℕ) → find_inode init_disk j ≡ none
unfolding find_inode inode_at load_inode load_half init_disk
find_inode-init j = ground arith

zero-Slot : (x : ℕ) → Slot init_disk 1024 0 x → x ≡ 0
zero-Slot x (inl f) = elim (eq_or_ne x 0) [
  | inl e ↦ e
  | inr ne ↦ let (i, e) = f.first 0 (omega arith) (omega arith) in cc (find_inode-init 0, e)
]
zero-Slot x (inr (z, _)) = z

pub used-init : (j : ℕ) → used init_disk j ≡ false
unfolding used init_disk
used-init j = bit_test-zero (j % 4096 % 8) (omega arith)

-- Whatever the memory for the mutex of the bitmap holds: the constructor ends normally with the root
-- directory in inode 0, of type T_DIR, size 0 and no blocks; no other inode is in use, no block of the
-- disk is allocated, every lock of an inode is idle and every cell holds a byte. It leaves the mutex as
-- it found it, so that the first alloc_block and the first free_block are undefined behaviour when that
-- memory is no mutex.
pub init_inode_layer_lem :
    (stack : Stack) (mutex : Mutex) (time : ℕ → ℕ)
    → (d : Disk) × (init_inode_layer stack mutex time
        ≡ ok true (layer (record (mounted d) { bitmap_mutex = mutex }) (λ i. init_rwlock)))
      × (find_inode d 0 ≡ some (new_inode 1 time))
      × ((j : ℕ) → j ≢ 0 → find_inode d j ≡ none)
      × ((j : ℕ) → j < block_num → used d j ≡ false)
      × IsBytes d
      × (mutex ≡ uninitialised
          → (alloc_block stack (record (mounted d) { bitmap_mutex = mutex }) ≡ fault)
            × ((id : ℕ)
                → free_block stack id (record (mounted d) { bitmap_mutex = mutex }) ≡ fault))
unfolding init_inode_layer alloc_block free_block
init_inode_layer_lem stack mutex time =
    let (x, d, e, s, at, others, kept, bytes) = alloc_inode_lem stack 1 time init_disk in
    let root = zero-Slot x s in
    let run : alloc_inode stack 1 time (init_block_layer mutex)
        ≡ ok x (record (mounted d) { bitmap_mutex = mutex }) =
      alloc_inode-Ignores stack mutex 1 time (mounted init_disk) ∙ ap (with_mutex mutex) e in
    (
      d,
      bind-ok _ (on_bm-ok (alloc_inode stack 1 time) (λ i. init_rwlock) run)
          ∙ rw (root, ==_of_eq 0 0 refl),
      unfold find_inode in rw (subst (λ (y : ℕ). inode_at d y ≡ new_inode 1 time) root at),
      λ j ne. find_inode-same init_disk d j (others j (λ e. ne (e ∙ root))) ∙ find_inode-init j,
      λ j lt. used-same init_disk d (λ i lo. kept i (inl lo)) j lt ∙ used-init j,
      bytes init_disk-IsBytes,
      λ m. (rw m refl, λ id. rw m refl),
    )
