-- ===== src/Examples/Progress.antt =====
-- The theorems on what ends, and on what a write leaves alone, at concrete inputs.
use file_system.Base.{ok, out_of_fuel, ◌≢◌, ◌≡◌, arith, true, refl, ℕ}
use file_system.Base.Int.{pos}
use file_system.Disk.{Disk}
use file_system.BlockLayer.{mounted}
use file_system.RwLock.System.{init, start}
use file_system.RwLock.Progress.{Left, GetsIn, holder_leaves, free_enters}
use file_system.InodeLayer.Locks.{layer, after_writer}
use file_system.InodeLayer.Read.{read_file}
use file_system.InodeLayer.Write.{write_file}
use file_system.InodeLayer.Write.Contents.{IsStored, Replaced}
use file_system.InodeLayer.RoundTrip.{write_file-IsStored}
use file_system.InodeLayer.Termination.{read_file_ends}
use file_system.InodeLayer.Termination.Writing.{write_file_ends}
use file_system.Inode.Table.{inode_at}
use file_system.Server.Laws.{content}
use file_system.Examples.{
  sevens, sevens-IsBuffer, hello, hello-IsBuffer, small_disk, small_disk-IsFile, small_disk-room,
  free_locks,
}
use file_system.Examples.Service.{one_reader, one_reader-Reach}

holder_leaves_example : Left 0 one_reader
holder_leaves_example = holder_leaves one_reader-Reach 0 refl

free_enters_example : GetsIn 3 init
free_enters_example = free_enters start refl 3

read_file_ends_example :
    read_file sevens 1 true 9 (layer (mounted small_disk) free_locks) ≢ out_of_fuel
read_file_ends_example = read_file_ends sevens 1 true 9 (layer (mounted small_disk) free_locks)

write_file_ends_example :
    write_file sevens 1 (content hello) (pos 5) (layer (mounted small_disk) free_locks)
    ≢ out_of_fuel
write_file_ends_example =
    write_file_ends sevens 1 (content hello) (pos 5) (layer (mounted small_disk) free_locks)

write_file-IsStored_example :
    (d' : Disk) × (write_file sevens 1
        (content hello)
        (pos 5)
        (layer (mounted small_disk) free_locks)
      ≡ ok tt (layer (mounted d') (after_writer free_locks 1 (pos 0))))
    × (blocks : ℕ → ℕ) × IsStored (content hello) 5 1 (inode_at small_disk 1) blocks d'
    × Replaced 8 5 1 (inode_at small_disk 1) blocks small_disk d'
write_file-IsStored_example =
    write_file-IsStored sevens sevens-IsBuffer (content hello) hello-IsBuffer 5 (omega arith) 1 8
      small_disk free_locks (pos 0) (omega arith) small_disk-IsFile small_disk-room refl
