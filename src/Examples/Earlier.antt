-- ===== src/Examples/Earlier.antt =====
-- The theorems on the earlier routines at concrete inputs.
use file_system.Base.{fault, ok, inl, arith, ◌≡◌}
use file_system.Base.Int.{pos}
use file_system.Disk.{Disk, Block, init_disk}
use file_system.BlockLayer.{mounted}
use file_system.InodeLayer.{new_inode}
use file_system.InodeLayer.Read.{read_contents}
use file_system.OldStuff
use file_system.OldStuff.Write.{write_loop}
use file_system.OldStuff.Partial.{write_loop-fault}
use file_system.Server.Laws.{content}
use file_system.OldStuff.{alloc_block}
use file_system.OldStuff.Alloc.{Outcome, alloc_block_lem}
use file_system.OldStuff.Reading.{read_contents-read_contents}
use file_system.Examples.{hello, sevens, clock, small_disk}

alloc_block_lem_example : Outcome (alloc_block sevens (mounted init_disk)) init_disk 123
alloc_block_lem_example = alloc_block_lem sevens init_disk

read_contents-read_contents_example :
    (out : Block) × (d' : Disk) × (OldStuff.read_contents sevens 1
        (record (new_inode 2 clock) { size = 700 })
        9
        (mounted small_disk)
      ≡ ok (pos 700, out) (mounted d'))
    × (read_contents sevens 1 (record (new_inode 2 clock) { size = 700 }) 9 (mounted small_disk)
        ≡ ok (pos 700, out) (mounted d'))
read_contents-read_contents_example =
    read_contents-read_contents sevens 1 9 (record (new_inode 2 clock) { size = 700 }) small_disk
      (omega arith) (omega arith) (λ k lt. omega arith) (inl (omega arith))

write_loop-fault_example :
    write_loop sevens
      (content hello)
      6
      (record { ino = new_inode 2 clock; remaining = 5; already = 0; index = 0 })
      (mounted small_disk)
    ≡ fault
write_loop-fault_example =
    write_loop-fault sevens (content hello) 6
      (record { ino = new_inode 2 clock; remaining = 5; already = 0; index = 0 }) small_disk
      (omega arith) (λ e. cc)
