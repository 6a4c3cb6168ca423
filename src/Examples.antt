-- ===== src/Examples.antt =====
-- Small disks, buffers and locks, and what holds of them, for the runs in the modules below.
mod Layers
mod Service
mod Large
mod Earlier
mod Session
mod Progress
mod Testing
mod Threads
mod Programs
mod Message
use file_system.Disk
use file_system.Server
use file_system.Client
use file_system.Inode.Table.{
  find_inode-same, set_inode, inode_at, find_inode, set_inode-IsBytes, inode_at-set_inode,
  set_inode-elsewhere,
}
use file_system.Base.{
  zero, suc, ℕ, ◌≡◌, ◌%◌, ◌<◌, ◌≤◌, refl, ◌∙◌, List, [], ◌∷◌, inl, ok, some, none, arith, true,
  false, ◌+◌, fault, ◌⊎◌, if◌then◌else◌, ltb, ◌≢◌, update, ◌==◌, ◌-◌, ◌/◌, ◌^◌, Option,
}
use file_system.Disk.Laws.{read_block-write_block, IsBytes}
use file_system.Base.Int.{pos, negsuc, is_positive, decrement}
use file_system.Disk.{Disk, Block, Stack, init_disk, block_num, Buffer}
use file_system.BlockLayer.{mounted, alloc_block, free_block, no_block}
use file_system.Inode.{Inode, load_inode, store_inode, get_inode, put_inode, load_word}
use file_system.InodeLayer.{
  new_inode, InodeLayer, alloc_inode, free_inode, getattr, init_inode_layer,
}
use file_system.RwLock.{RwLock, init_counters, reader_entered, reader_waits, init_rwlock}
use file_system.RwLock.Idle.{idle}
use file_system.InodeLayer.Write.Stored.{IsBuffer}
use file_system.InodeLayer.RoundTrip.{IsFile, read_file-write_file}
use file_system.InodeLayer.Write.Indirect.Whole.{HasBytes}
use file_system.BlockLayer.Space.{free_count, free_count-same, AllUsed, IsFirstFree}
use file_system.Server.Laws.{content, get-put, missing_id, get_attributes-remove, no_attributes}
use file_system.Client.Session.{new-IsFile, get-put-create}
use file_system.BlockLayer.Bitmap.{used}
use file_system.BlockLayer.Alloc.{first_data}
use file_system.InodeLayer.Init.{
  init_disk-IsBytes, used-init, init_inode_layer_lem, find_inode-init,
}
use file_system.InodeLayer.Remove.Laws.{IsRemovable, remove_file_lem, entries_freed}
use file_system.InodeLayer.Alloc.{new_inode-Fits, alloc_inode_lem, free_inode_lem, Slot}
use file_system.RwLock.System.{
  System, Reach, start, later, pick, outside, reader_test, reading, reader_arrives, reader_enters,
}
use file_system.RwLock.Exclusion.{exclusive, never_waits, Passes}
use file_system.BlockLayer.Reuse.{free_block-alloc_block}
use file_system.InodeLayer.Release.{
  read_file-releases, write_file-releases, read_refused, write_refused,
}
use file_system.InodeLayer.Remove.{remove_file}
use file_system.InodeLayer.Locks.{layer, after_reader, after_writer}
use file_system.InodeLayer.Read.{read_file}
use file_system.InodeLayer.Write.{size_refused, write_file}
use file_system.Inode.Codec.{load_inode-store_inode}
use file_system.Inode.Laws.{get_inode-put_inode}
use file_system.Server.{ok_status, inum_of}

-- Local arrays filled with 7, and a clock.
abbrev pub sevens : Stack
sevens b k i = 7

abbrev pub clock : ℕ → ℕ
clock i = 100 + i

-- The formatted disk with an empty file in inode 1.
abbrev pub small_disk : Disk
small_disk = set_inode init_disk 1 (new_inode 2 clock)

abbrev pub free_locks : ℕ → RwLock
free_locks i = idle (pos 0)

abbrev pub hello : List ℕ
hello = 104 ∷ 101 ∷ 108 ∷ 108 ∷ 111 ∷ []

pub sevens-IsBuffer : (k : ℕ) (i : ℕ) → 7 < 256
sevens-IsBuffer k i = omega arith

pub sevens-HasBytes : HasBytes sevens
sevens-HasBytes = record {
  direct = sevens-IsBuffer;
  indirect = sevens-IsBuffer;
  temp = sevens-IsBuffer;
  final = sevens-IsBuffer 0;
}

-- A buffer of any length.
abbrev pub pattern_buffer : Block
pattern_buffer i = i % 251

pub hello-IsBuffer : IsBuffer (content hello)
hello-IsBuffer zero = omega arith
hello-IsBuffer (suc zero) = omega arith
hello-IsBuffer (suc (suc zero)) = omega arith
hello-IsBuffer (suc (suc (suc zero))) = omega arith
hello-IsBuffer (suc (suc (suc (suc zero)))) = omega arith
hello-IsBuffer (suc (suc (suc (suc (suc n))))) = omega arith

pub small_disk-IsBytes : IsBytes small_disk
small_disk-IsBytes = set_inode-IsBytes init_disk 1 (new_inode 2 clock) init_disk-IsBytes

pub small_disk-inode : inode_at small_disk 1 ≡ new_inode 2 clock
small_disk-inode = inode_at-set_inode init_disk 1 1 (new_inode 2 clock) (new_inode-Fits 2 clock)

pub small_disk-IsFile : IsFile small_disk 1
small_disk-IsFile =
    new-IsFile small_disk 1 2 clock (omega arith) (omega arith) (omega arith) small_disk-IsBytes
      small_disk-inode

-- With no block allocated all are counted.
all_free : (k id : ℕ) → free_count init_disk k id ≡ k
unfolding free_count
all_free zero id = refl
all_free (suc k) id = rw (used-init id) (omega (arith, all_free k (suc id)))

pub small_disk-free : (w : ℕ) → first_data + w ≤ block_num → free_count small_disk w first_data ≡ w
small_disk-free w fits =
    free_count-same init_disk small_disk
      (λ i lt. set_inode-elsewhere init_disk 1 i (new_inode 2 clock) (omega arith) (inl lt)) w
      first_data fits
    ∙ all_free w first_data

pub small_disk-room : 8 ≤ free_count small_disk 8 first_data
small_disk-room = omega (arith, small_disk-free 8 (omega arith))

pub small_disk-IsRemovable : IsRemovable small_disk (inode_at small_disk 1)
small_disk-IsRemovable = rw small_disk-inode (record {
  size = omega arith;
  indirect = λ h. absurd (omega arith);
  entries = λ h. absurd (omega arith);
})

pub small_disk-no_inode : find_inode small_disk 2 ≡ none
small_disk-no_inode =
    find_inode-same init_disk small_disk 2
      (inode_at-set_inode init_disk 1 2 (new_inode 2 clock) (new_inode-Fits 2 clock))
    ∙ find_inode-init 2
