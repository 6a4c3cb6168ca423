-- ===== src/Examples/Layers.antt =====
-- The theorems on the disk, the bitmap and the inode table at concrete inputs.
use file_system.Examples.{sevens, clock, small_disk, small_disk-IsBytes}
use file_system.Disk
use file_system.Base.{
  ℕ, ◌≡◌, ◌<◌, ◌≤◌, ok, some, none, arith, true, ◌+◌, fault, ◌⊎◌, if◌then◌else◌, ltb, ◌≢◌, ◌==◌,
  ◌-◌, ◌/◌, Option,
}
use file_system.Disk.Laws.{read_block-write_block, IsBytes}
use file_system.Disk.{Disk, Block, Stack, init_disk, block_num, Buffer}
use file_system.BlockLayer.{mounted, alloc_block, free_block, no_block}
use file_system.Inode.{Inode, get_inode, put_inode}
use file_system.Inode.Table.{set_inode, inode_at, find_inode}
use file_system.InodeLayer.{new_inode, alloc_inode, free_inode}
use file_system.BlockLayer.Space.{AllUsed, IsFirstFree}
use file_system.BlockLayer.Bitmap.{used}
use file_system.BlockLayer.Alloc.{first_data}
use file_system.InodeLayer.Alloc.{new_inode-Fits, alloc_inode_lem, free_inode_lem, Slot}
use file_system.BlockLayer.Reuse.{free_block-alloc_block}
use file_system.Inode.Laws.{get_inode-put_inode}

read_block-write_block_example :
    ((Disk.write_block 5 (λ i. 1) init_disk ≡ fault)
      × (Disk.read_block 5 (λ i. 2) init_disk ≡ fault)
      × (5 ≡ block_num))
    ⊎ ((d' : Disk) × (Disk.write_block 5 (λ i. 1) init_disk ≡ ok tt d')
        × (Disk.read_block 5 (λ i. 2) d' ≡ ok (if ltb 5 block_num then (λ i. 1) else (λ i. 2)) d')
        × ((i : ℕ) → i ≢ 5 → d' i ≡ init_disk i)
        × (5 ≢ block_num))
read_block-write_block_example = read_block-write_block 5 (λ i. 1) (λ i. 2) init_disk

free_block-alloc_block_example :
    ((alloc_block sevens (mounted small_disk) ≡ ok no_block (mounted small_disk))
      × AllUsed small_disk (block_num - first_data) first_data)
    ⊎ ((x : ℕ) × (d' : Disk) × (d'' : Disk) × IsFirstFree small_disk
          (block_num - first_data)
          first_data
          x
        × (alloc_block sevens (mounted small_disk) ≡ ok x (mounted d'))
        × ((j : ℕ) → used d' j ≡ (if j == x then true else used small_disk j))
        × ((i : ℕ) → i ≢ x / 4096 + 1 → d' i ≡ small_disk i)
        × (free_block sevens x (mounted d') ≡ ok tt (mounted d''))
        × ((j : ℕ) → used d'' j ≡ used small_disk j))
free_block-alloc_block_example = free_block-alloc_block sevens small_disk small_disk-IsBytes

get_inode-put_inode_example :
    (d' : Disk) × (put_inode sevens 1 (some (new_inode 2 clock)) (mounted init_disk)
      ≡ ok tt (mounted d'))
    × (get_inode sevens 1 (mounted d')
        ≡ ok
            (if (new_inode 2 clock).type == 0 then none else some (new_inode 2 clock))
            (mounted d'))
    × ((j : ℕ)
        → j ≢ 1
        → (o : Option Inode) × (get_inode sevens j (mounted init_disk) ≡ ok o (mounted init_disk))
          × (get_inode sevens j (mounted d') ≡ ok o (mounted d')))
    × ((i : ℕ) → (i < 9) ⊎ (123 ≤ i) → d' i ≡ init_disk i)
get_inode-put_inode_example =
    get_inode-put_inode sevens init_disk 1 (new_inode 2 clock) (omega arith)
      (new_inode-Fits 2 clock)

alloc_inode_lem_example :
    (x : ℕ) × (d' : Disk) × (alloc_inode sevens 2 clock (mounted small_disk) ≡ ok x (mounted d'))
    × Slot small_disk 1024 0 x
    × (inode_at d' x ≡ new_inode 2 clock)
    × ((j : ℕ) → j ≢ x → inode_at d' j ≡ inode_at small_disk j)
    × ((i : ℕ) → (i < 9) ⊎ (123 ≤ i) → d' i ≡ small_disk i)
    × (IsBytes small_disk → IsBytes d')
alloc_inode_lem_example = alloc_inode_lem sevens 2 clock small_disk

free_inode_lem_example :
    ((find_inode small_disk 1 ≡ none) × (free_inode sevens 1 (mounted small_disk) ≡ fault))
    ⊎ ((d' : Disk) × (free_inode sevens 1 (mounted small_disk) ≡ ok tt (mounted d'))
        × (find_inode small_disk 1 ≡ some (inode_at small_disk 1))
        × (1 < 1024)
        × (d' ≡ set_inode small_disk 1 (record (inode_at small_disk 1) { type = 0 }))
        × (find_inode d' 1 ≡ none)
        × ((j : ℕ) → j ≢ 1 → inode_at d' j ≡ inode_at small_disk j))
free_inode_lem_example = free_inode_lem sevens 1 small_disk small_disk-IsBytes
