-- ===== src/Examples/Large.antt =====
-- Files with an indirect section, and a file of a size in the gap, at concrete inputs.
use file_system.Examples.{
  sevens, clock, small_disk, free_locks, hello, sevens-IsBuffer, hello-IsBuffer, small_disk-IsBytes,
  small_disk-IsFile, pattern_buffer, sevens-HasBytes, small_disk-inode, small_disk-free,
}
use file_system.Base.{
  ℕ, ◌≡◌, ◌<◌, ◌≤◌, refl, inl, ok, some, arith, true, false, ◌+◌, inr, ◌==◌, if◌then◌else◌, ◌∙◌,
}
use file_system.Base.Int.{pos, decrement}
use file_system.Disk.{Disk, Block, init_disk}
use file_system.BlockLayer.{mounted}
use file_system.Inode.{load_word, Inode}
use file_system.Inode.Table.{inode_at, inode_at-same, set_inode-elsewhere}
use file_system.InodeLayer.{new_inode, InodeLayer}
use file_system.RwLock.Idle.{idle}
use file_system.InodeLayer.LargeFiles.{
  write_file-IsLarge, write_file-rewrites, read_file-write_file_large,
}
use file_system.InodeLayer.Write.Large.{IsLarge, Spared, DirectBlock, BlockOf}
use file_system.Server.Laws.{content}
use file_system.Client.Session.{new-IsFile}
use file_system.BlockLayer.Bitmap.{used, mark, mark-elsewhere, mark-IsBytes, used-mark}
use file_system.BlockLayer.Alloc.{first_data}
use file_system.InodeLayer.Init.{used-init}
use file_system.InodeLayer.Locks.{layer, after_writer}
use file_system.InodeLayer.Read.{read_file}
use file_system.InodeLayer.Write.{write_file}
use file_system.BlockLayer.Space.{free_count, used-same, free_count-mark}
use file_system.InodeLayer.Gap.{spelled}
use file_system.InodeLayer.Gap.Leak.{read_file-write_file_leaks}

read_file-write_file_large_example :
    (s' : InodeLayer) × (write_file sevens 1 pattern_buffer
        (pos 5120)
        (layer (mounted small_disk) free_locks)
      ≡ ok tt s')
    × (out : Block) × (s'' : InodeLayer) × (read_file sevens 1 true 9 s'
        ≡ ok (some (pos 5120, out)) s'')
    × ((i : ℕ) → i < 5120 → out i ≡ pattern_buffer i)
    × (s''.rwlocks 1 ≡ idle (decrement (pos 0)))
read_file-write_file_large_example =
    read_file-write_file_large sevens sevens-HasBytes pattern_buffer (λ i. omega arith) 5120 10
      (omega arith) (omega arith) (omega arith) 1 small_disk free_locks (pos 0) refl 9
      small_disk-IsFile (rw small_disk-inode (omega arith))
      (omega (arith, small_disk-free 32645 (omega arith)))

-- The disk behind a first write of 5120 bytes.
five_kilobytes :
    (d' : Disk) × (write_file sevens 1 pattern_buffer
        (pos 5120)
        (layer (mounted small_disk) free_locks)
      ≡ ok tt (layer (mounted d') (after_writer free_locks 1 (pos 0))))
    × (blocks : ℕ → ℕ) × IsLarge pattern_buffer 5120 1
        (record (inode_at small_disk 1) { size = 5120; blocks = blocks })
        d'
    × Spared (DirectBlock (inode_at small_disk 1)) 1 small_disk d'
    × (free_count small_disk 32645 first_data ≤ free_count d' 32645 first_data + (10 + 1))
five_kilobytes =
    write_file-IsLarge sevens sevens-HasBytes pattern_buffer (λ i. omega arith) 5120 10
      (omega arith) (omega arith) (omega arith) 1 small_disk free_locks (pos 0) refl
      small_disk-IsFile (rw small_disk-inode (omega arith))
      (omega (arith, small_disk-free 32645 (omega arith)))

abbrev grown_disk : Disk
grown_disk = five_kilobytes.0

write_file-rewrites_example :
    (d' : Disk) × (write_file sevens 1
        (content hello)
        (pos 4608)
        (layer (mounted grown_disk) free_locks)
      ≡ ok tt (layer (mounted d') (after_writer free_locks 1 (pos 0))))
    × (ino' : Inode) × IsLarge (content hello) 4608 1 ino' d'
    × Spared
        (BlockOf grown_disk 5120
          (record (inode_at small_disk 1) { size = 5120; blocks = five_kilobytes.2 }))
        1
        grown_disk
        d'
    × (free_count grown_disk 32645 first_data + (8 + 2) ≤ free_count d' 32645 first_data + 9)
    × (out : Block) × (s'' : InodeLayer) × (read_file sevens 1 true 9
          (layer (mounted d') (after_writer free_locks 1 (pos 0)))
        ≡ ok (some (pos 4608, out)) s'')
    × ((i : ℕ) → i < 4608 → out i ≡ content hello i)
    × (s''.rwlocks 1 ≡ idle (decrement (pos 0)))
write_file-rewrites_example =
    write_file-rewrites sevens sevens-HasBytes (content hello) hello-IsBuffer 4608 9 (omega arith)
      (omega arith) (omega arith) 1 grown_disk free_locks (pos 0) refl pattern_buffer 5120 2 9
      (record (inode_at small_disk 1) { size = 5120; blocks = five_kilobytes.2 }) (omega arith)
      five_kilobytes.3 (omega arith) (omega arith) (omega arith) (inr (refl, refl)) (omega arith)

-- A disk on which block 200 is allocated, and a buffer whose bytes behind 4096 spell that number.
abbrev marked_disk : Disk
marked_disk = mark small_disk 200

abbrev spelling : Block
spelling i = if i == 4096 then 200 else 0

marked_disk-inode : inode_at marked_disk 1 ≡ new_inode 2 clock
marked_disk-inode =
    inode_at-same small_disk marked_disk (λ i lo hi. mark-elsewhere small_disk 200 i (omega arith))
      1 (omega arith)
    ∙ small_disk-inode

spelling-spelled : spelled spelling ≡ 200
unfolding load_word
spelling-spelled = refl

block_200-free : used small_disk 200 ≡ false
block_200-free =
    used-same init_disk small_disk
      (λ i lt.
        set_inode-elsewhere init_disk 1 i (new_inode 2 clock) (omega arith) (inl (omega arith)))
      200 (omega arith)
    ∙ used-init 200

read_file-write_file_leaks_example :
    (s' : InodeLayer) × (write_file sevens 1 spelling
        (pos 4200)
        (layer (mounted marked_disk) free_locks)
      ≡ ok tt s')
    × (out : Block) × (s'' : InodeLayer) × (read_file sevens 1 true 9 s'
        ≡ ok (some (pos 4200, out)) s'')
    × ((i : ℕ) → i < 4096 → out i ≡ spelling i)
    × ((i : ℕ) → 4096 + i < 4200 → out (4096 + i) ≡ marked_disk (spelled spelling) i)
read_file-write_file_leaks_example =
    read_file-write_file_leaks sevens sevens-IsBuffer spelling (λ i. ground arith) 4200
      (omega arith) (omega arith) 1 9 marked_disk free_locks (pos 0)
      (new-IsFile marked_disk 1 2 clock (omega arith) (omega arith) (omega arith)
        (mark-IsBytes small_disk 200 small_disk-IsBytes) marked_disk-inode)
      (omega (
        arith,
        small_disk-free 32645 (omega arith),
        free_count-mark small_disk small_disk-IsBytes 200 32645 first_data block_200-free,
      ))
      refl (rw spelling-spelled (omega arith)) (rw spelling-spelled (omega arith))
      (rw (spelling-spelled, used-mark small_disk small_disk-IsBytes 200 200 block_200-free) refl)
      (λ k lt. rw (spelling-spelled, marked_disk-inode) (omega arith))
