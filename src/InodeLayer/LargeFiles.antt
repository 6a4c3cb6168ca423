-- ===== src/InodeLayer/LargeFiles.antt =====
-- write_file followed by read_file, for files with an indirect section.
use file_system.Base.{ℕ, ◌+◌, ◌*◌, ◌%◌, ◌≤◌, ◌<◌, ◌≡◌, ◌⊎◌, ok, some, true, update}
use file_system.Base.Int.{ℤ, pos, decrement}
use file_system.Disk.{Block, Disk, Stack}
use file_system.BlockLayer.{mounted}
use file_system.BlockLayer.Alloc.{first_data}
use file_system.BlockLayer.Space.{free_count}
use file_system.RwLock.{RwLock}
use file_system.RwLock.Idle.{idle, held_by_reader, held_by_writer}
use file_system.Inode.{Inode}
use file_system.Inode.Codec.{Fits}
use file_system.Inode.Table.{inode_at, inode_at-Fits}
use file_system.InodeLayer.{InodeLayer}
use file_system.InodeLayer.Locks.{layer, update_self, after_writer}
use file_system.InodeLayer.Read.{read_file}
use file_system.InodeLayer.Read.Whole.{read_file-readable}
use file_system.InodeLayer.RoundTrip.{IsFile, write_file-ok}
use file_system.InodeLayer.Write.{write_file}
use file_system.InodeLayer.Write.Stored.{IsBuffer}
use file_system.InodeLayer.Write.Indirect.Whole.{HasBytes}
use file_system.InodeLayer.Write.Large.{
  IsLarge, IsLarge-IsReadable, IsLarge-IsPointer, Spared, DirectBlock, BlockOf,
}
use file_system.InodeLayer.Write.Large.Contents.{write_contents-first}
use file_system.InodeLayer.Write.Large.Rewriting.{write_contents-rewrites}

pub IsLarge-IsFile :
    (buf : Block) (n inum : ℕ) (ino : Inode) (d : Disk)
    → inum < 1024
    → IsLarge buf n inum ino d
    → IsFile d inum
IsLarge-IsFile buf n inum ino d small s = record {
  small = small;
  bytes = s.bytes;
  in_use = rw s.at s.in_use;
  pointers = λ k lt. rw s.at (IsLarge-IsPointer buf n inum ino d s k lt);
}

module _ (stack : Stack) (stack_bytes : HasBytes stack) (buf : Block) (buf_bytes : IsBuffer buf)
    (n m : ℕ) (long : 4608 ≤ n) (large : n ≤ 69632) (parts : n ≤ 512 * m) (inum : ℕ) (d : Disk)
    (locks : ℕ → RwLock) (r : ℤ) (free : locks inum ≡ idle r) where
  -- A read behind a write that left the file of n bytes.
  read_back :
      (now : ℕ) (ino : Inode) (d' : Disk)
      → inum < 1024
      → IsLarge buf n inum ino d'
      → (out : Block) × (s'' : InodeLayer) × (read_file stack inum true now
            (layer (mounted d') (after_writer locks inum r))
          ≡ ok (some (pos n, out)) s'')
        × ((i : ℕ) → i < n → out i ≡ buf i)
        × (s''.rwlocks inum ≡ idle (decrement r))
  read_back now ino d' small s =
      let locks' : ℕ → RwLock = after_writer locks inum r in
      let (out, e, same) =
        read_file-readable stack buf n inum now ino d' small
          (IsLarge-IsReadable stack buf n inum ino d' s) locks' r
          (update_self (update locks inum (held_by_writer r)) inum (idle r)) in
      (
        out,
        _,
        e,
        same,
        update_self (update locks' inum (held_by_reader r)) inum (idle (decrement r)),
      )

  -- For buffers that hold bytes and a file of at most 4096 bytes whose block pointers are sound, on a
  -- disk of bytes with the lock of its inode idle: if n, from 4608 to 69632, is at most 512 * m and more
  -- than m data blocks are free, write_file of n bytes returns; the inode then has an indirect section
  -- that holds those bytes, in allocated blocks that are all apart. What was allocated outside the
  -- inode's eight direct blocks stays allocated and keeps its bytes, the other inodes are as they were,
  -- and at most m + 1 free data blocks are spent.
  pub write_file-IsLarge :
      IsFile d inum
      → (inode_at d inum).size ≤ 4096
      → m < free_count d 32645 first_data
      → (d' : Disk) × (write_file stack inum buf (pos n) (layer (mounted d) locks)
          ≡ ok tt (layer (mounted d') (after_writer locks inum r)))
        × (blocks : ℕ → ℕ) × IsLarge buf n inum
            (record (inode_at d inum) { size = n; blocks = blocks })
            d'
        × Spared (DirectBlock (inode_at d inum)) inum d d'
        × (free_count d 32645 first_data ≤ free_count d' 32645 first_data + (m + 1))
  write_file-IsLarge f short room =
      let (d', e, blocks, s, spared, spent) =
        write_contents-first stack stack_bytes buf buf_bytes n m long large parts inum
          (inode_at d inum) d f.small f.bytes room (inode_at-Fits d inum f.bytes) f.in_use short
          f.pointers in
      (d', write_file-ok stack buf n large inum d d' locks r f free e, blocks, s, spared, spent)

  -- For buffers that hold bytes and a file of at most 4096 bytes whose block pointers are sound, on a
  -- disk of bytes with the lock of its inode idle: if n, from 4608 to 69632, is at most 512 * m and more
  -- than m data blocks are free, then writing n bytes ends normally, and read_file after it ends normally
  -- with size n and a buffer whose first n bytes are those written, with the lock idle again.
  pub read_file-write_file_large :
      (now : ℕ)
      → IsFile d inum
      → (inode_at d inum).size ≤ 4096
      → m < free_count d 32645 first_data
      → (s' : InodeLayer) × (write_file stack inum buf (pos n) (layer (mounted d) locks) ≡ ok tt s')
        × (out : Block) × (s'' : InodeLayer) × (read_file stack inum true now s'
            ≡ ok (some (pos n, out)) s'')
        × ((i : ℕ) → i < n → out i ≡ buf i)
        × (s''.rwlocks inum ≡ idle (decrement r))
  read_file-write_file_large now f short room =
      let (d', e, blocks, s, _, _) = write_file-IsLarge f short room in
      let (out, s'', e', same, released) =
        read_back now (record (inode_at d inum) { size = n; blocks = blocks }) d' f.small s in
      (_, e, out, s'', e', same, released)

  -- For buffers that hold bytes and an inode with an indirect section of s bytes in allocated blocks that
  -- are all apart, with its lock idle, where either n is s or both n and s are whole numbers of blocks: if
  -- the file's m blocks for n bytes, 4608 to 69632, are no more than its old ones and the free ones
  -- together, write_file of n bytes returns, whether the file grows, stays as long as it was or shrinks.
  -- The inode then has an indirect section with those bytes, in allocated blocks that are all apart. What
  -- was allocated outside the blocks of the file stays allocated and keeps its bytes, the other inodes are
  -- as they were, and at least as many blocks are free as the old file's blocks and the free ones together
  -- leave beside the new ones. A read_file after it ends normally with size n and those bytes.
  pub write_file-rewrites :
      (buf₀ : Block) (s count now : ℕ) (ino : Inode)
      → inum < 1024
      → IsLarge buf₀ s inum ino d
      → 512 * m < n + 512
      → s ≤ 512 * (8 + count)
      → 512 * (8 + count) < s + 512
      → (n ≡ s) ⊎ ((n % 512 ≡ 0) × (s % 512 ≡ 0))
      → m ≤ free_count d 32645 first_data + (8 + count)
      → (d' : Disk) × (write_file stack inum buf (pos n) (layer (mounted d) locks)
          ≡ ok tt (layer (mounted d') (after_writer locks inum r)))
        × (ino' : Inode) × IsLarge buf n inum ino' d'
        × Spared (BlockOf d s ino) inum d d'
        × (free_count d 32645 first_data + (8 + count) ≤ free_count d' 32645 first_data + m)
        × (out : Block) × (s'' : InodeLayer) × (read_file stack inum true now
              (layer (mounted d') (after_writer locks inum r))
            ≡ ok (some (pos n, out)) s'')
        × ((i : ℕ) → i < n → out i ≡ buf i)
        × (s''.rwlocks inum ≡ idle (decrement r))
  write_file-rewrites buf₀ s count now ino small f few cover tight aligned room =
      let fit : Fits ino = rw f.at at (inode_at-Fits d inum f.bytes) in
      let (d', e, blocks, f', spared, spent) =
        write_contents-rewrites stack stack_bytes buf₀ buf buf_bytes n m long large parts few s
          count inum small ino d f fit cover tight aligned room in
      let ino' : Inode = record ino { size = n; blocks = blocks } in
      let (out, s'', e', same, released) = read_back now ino' d' small f' in
      (
        d',
        write_file-ok stack buf n large inum d d' locks r (IsLarge-IsFile buf₀ s inum ino d small f)
            free (rw f.at e),
        ino',
        f',
        spared,
        spent,
        out,
        s'',
        e',
        same,
        released,
      )
