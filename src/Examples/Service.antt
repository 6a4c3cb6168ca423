-- ===== src/Examples/Service.antt =====
-- The theorems on files, the server, its client and the lock at concrete inputs.
use file_system.Examples.{
  sevens, clock, small_disk, free_locks, hello, sevens-IsBuffer, hello-IsBuffer, small_disk-IsBytes,
  small_disk-IsFile, small_disk-room, small_disk-IsRemovable, small_disk-no_inode,
}
use file_system.Server
use file_system.Client
use file_system.Base.{
  ℕ, ◌≡◌, ◌<◌, ◌≤◌, refl, [], inl, ok, fault, some, none, arith, true, false, ◌≢◌, update,
}
use file_system.Disk.Laws.{IsBytes}
use file_system.Base.Int.{pos, negsuc, is_positive, decrement}
use file_system.Disk.{Disk, Block, block_num}
use file_system.BlockLayer.{mounted, Mutex, uninitialised, alloc_block, free_block}
use file_system.Inode.{load_word}
use file_system.Inode.Table.{inode_at, find_inode}
use file_system.InodeLayer.{new_inode, InodeLayer, init_inode_layer}
use file_system.RwLock.{init_counters, reader_entered, reader_waits, init_rwlock}
use file_system.RwLock.Idle.{idle}
use file_system.InodeLayer.RoundTrip.{read_file-write_file}
use file_system.Server.Laws.{content, missing_id, get_attributes-remove, no_attributes}
use file_system.Client.Session.{get-put-create}
use file_system.BlockLayer.Bitmap.{used}
use file_system.BlockLayer.Alloc.{first_data}
use file_system.InodeLayer.Init.{init_inode_layer_lem}
use file_system.InodeLayer.Remove.Laws.{remove_file_lem, entries_freed}
use file_system.RwLock.System.{
  System, Reach, start, later, pick, outside, reader_test, reading, reader_arrives, reader_enters,
}
use file_system.RwLock.Exclusion.{exclusive, never_waits, Passes}
use file_system.InodeLayer.Release.{
  read_file-releases, write_file-releases, read_refused, write_refused,
}
use file_system.InodeLayer.Remove.{remove_file}
use file_system.InodeLayer.Locks.{layer, after_reader, after_writer}
use file_system.InodeLayer.Read.{read_file}
use file_system.InodeLayer.Write.{write_file}
use file_system.Server.{ok_status, inum_of}

init_inode_layer_lem_example :
    (d : Disk) × (init_inode_layer sevens uninitialised clock
      ≡ ok true (layer (record (mounted d) { bitmap_mutex = uninitialised }) (λ i. init_rwlock)))
    × (find_inode d 0 ≡ some (new_inode 1 clock))
    × ((j : ℕ) → j ≢ 0 → find_inode d j ≡ none)
    × ((j : ℕ) → j < block_num → used d j ≡ false)
    × IsBytes d
    × (◌≡◌ {A = Mutex} uninitialised uninitialised
        → (alloc_block sevens (record (mounted d) { bitmap_mutex = uninitialised }) ≡ fault)
          × ((id : ℕ)
              → free_block sevens id (record (mounted d) { bitmap_mutex = uninitialised }) ≡ fault))
init_inode_layer_lem_example = init_inode_layer_lem sevens uninitialised clock

write_refused_example :
    write_file sevens 1 (content hello) (negsuc 4) (layer (mounted small_disk) free_locks)
    ≡ ok tt (layer (mounted small_disk) (after_writer free_locks 1 (pos 0)))
write_refused_example =
    write_refused sevens 1 (omega arith) free_locks (pos 0) refl (content hello) (negsuc 4)
      small_disk (inl tt)

read_file-releases_example :
    (after_reader free_locks 1 (pos 0) 1 ≡ idle (decrement (pos 0)))
    × ((i : ℕ) → i ≢ 1 → after_reader free_locks 1 (pos 0) i ≡ free_locks i)
read_file-releases_example =
    read_file-releases sevens 1 (omega arith) free_locks (pos 0) refl false 9 (mounted small_disk)
      none (layer (mounted small_disk) (after_reader free_locks 1 (pos 0)))
      (read_refused sevens 1 (omega arith) free_locks (pos 0) refl false 9 small_disk (inl refl))

write_file-releases_example :
    (after_writer free_locks 1 (pos 0) 1 ≡ idle (pos 0))
    × ((i : ℕ) → i ≢ 1 → after_writer free_locks 1 (pos 0) i ≡ free_locks i)
write_file-releases_example =
    write_file-releases sevens 1 (omega arith) free_locks (pos 0) refl (content hello) (negsuc 4)
      (mounted small_disk) (layer (mounted small_disk) (after_writer free_locks 1 (pos 0)))
      (write_refused sevens 1 (omega arith) free_locks (pos 0) refl (content hello) (negsuc 4)
        small_disk (inl tt))

read_file-write_file_example :
    (s' : InodeLayer) × (write_file sevens 1
        (content hello)
        (pos 5)
        (layer (mounted small_disk) free_locks)
      ≡ ok tt s')
    × (out : Block) × (s'' : InodeLayer) × (read_file sevens 1 true 9 s'
        ≡ ok (some (pos 5, out)) s'')
    × ((i : ℕ) → i < 5 → out i ≡ content hello i)
    × (s''.rwlocks 1 ≡ idle (decrement (pos 0)))
read_file-write_file_example =
    read_file-write_file sevens sevens-IsBuffer (content hello) hello-IsBuffer 5 (omega arith) 1 8 9
      small_disk free_locks (pos 0) (omega arith) small_disk-IsFile small_disk-room refl

remove_file_lem_example :
    (d' : Disk) × (remove_file sevens 1 (mounted small_disk) ≡ ok tt (mounted d'))
    × (find_inode d' 1 ≡ none)
    × ((j : ℕ) → j ≢ 1 → find_inode d' j ≡ find_inode small_disk j)
    × ((k : ℕ)
        → k < 8
        → (inode_at small_disk 1).blocks k < block_num
        → used d' ((inode_at small_disk 1).blocks k) ≡ false)
    × (4096 < (inode_at small_disk 1).size → used d' ((inode_at small_disk 1).blocks 8) ≡ false)
    × (4096 < (inode_at small_disk 1).size
        → (k : ℕ) → k < entries_freed (inode_at small_disk 1).size
        → load_word (small_disk ((inode_at small_disk 1).blocks 8)) 0 k < block_num
        → used d' (load_word (small_disk ((inode_at small_disk 1).blocks 8)) 0 k) ≡ false)
    × ((j : ℕ) → j < block_num → used small_disk j ≡ false → used d' j ≡ false)
    × ((i : ℕ) → first_data ≤ i → d' i ≡ small_disk i)
remove_file_lem_example =
    remove_file_lem sevens 1 small_disk small_disk-IsFile small_disk-IsRemovable

missing_id_example :
    (Server.put sevens 2 hello (layer (mounted small_disk) free_locks)
      ≡ ok ok_status (layer (mounted small_disk) (after_writer free_locks (inum_of 2) (pos 0))))
    × (Server.get sevens 2 9 (layer (mounted small_disk) free_locks)
        ≡ ok
            (ok_status, [])
            (layer (mounted small_disk) (after_reader free_locks (inum_of 2) (pos 0))))
    × (Server.get_attributes sevens 2 (layer (mounted small_disk) free_locks)
        ≡ ok (ok_status, no_attributes) (layer (mounted small_disk) free_locks))
    × (Server.remove sevens 2 (layer (mounted small_disk) free_locks)
        ≡ ok ok_status (layer (mounted small_disk) free_locks))
missing_id_example =
    missing_id sevens 2 9 hello small_disk free_locks (pos 0) (omega arith) small_disk-no_inode refl

get_attributes-remove_example :
    (d' : Disk) × (Server.remove sevens 1 (layer (mounted small_disk) free_locks)
      ≡ ok ok_status (layer (mounted d') free_locks))
    × (Server.get_attributes sevens 1 (layer (mounted d') free_locks)
        ≡ ok (ok_status, no_attributes) (layer (mounted d') free_locks))
get_attributes-remove_example =
    get_attributes-remove sevens 1 small_disk free_locks small_disk-IsFile small_disk-IsRemovable

get-put-create_example :
    (id : ℕ) × (s₁ s₂ s₃ : InodeLayer) × (Client.create sevens 2 clock
        (layer (mounted small_disk) free_locks)
      ≡ ok (ok_status, id) s₁)
    × (Client.put sevens id hello s₁ ≡ ok ok_status s₂)
    × (Client.get sevens id 9 s₂ ≡ ok (ok_status, hello) s₃)
get-put-create_example =
    get-put-create sevens sevens-IsBuffer hello hello-IsBuffer (omega arith) 2 8 9 clock small_disk
      free_locks (pos 0) (omega arith) (omega arith) (omega arith) small_disk-IsBytes
      small_disk-room (λ i lt. refl)

-- Thread 0 after it has entered as a reader.
abbrev pub one_reader : System
one_reader = record {
  counters = reader_entered init_counters;
  holder = some 0;
  pc = update (update (λ i. outside) 0 reader_test) 0 reading;
}

pub one_reader-Reach : Reach one_reader
unfolding reader_waits is_positive
one_reader-Reach =
    later (later start (pick 0 reader_arrives (λ _. refl))) (pick 0 (reader_enters refl) (λ e. cc))

exclusive_example : ◌≡◌ {A = ℕ} 0 0
exclusive_example = exclusive one_reader-Reach 0 0 tt tt

never_waits_example : Passes (reader_entered init_counters) reading
never_waits_example = never_waits one_reader-Reach 0
