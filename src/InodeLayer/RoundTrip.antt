-- ===== src/InodeLayer/RoundTrip.antt =====
-- write_file followed by read_file, for a file that fits the direct section.
use file_system.Base.{
  lt→ltb, ℕ, ◌+◌, ◌≤◌, ◌<◌, ◌≡◌, ◌≢◌, refl, ap, ◌∙◌, true, some, arith, ok, lt→leb, le→ltb,
  ==_of_ne, update, bind-ok, lt→ltb,
}
use file_system.Base.Int.{ℤ, pos, decrement}
use file_system.Disk.{Block, Disk, Stack, block_num, direct_buffer, read_indirect}
use file_system.Disk.Laws.{IsBytes}
use file_system.BlockLayer.{mounted}
use file_system.BlockLayer.Alloc.{first_data}
use file_system.BlockLayer.Space.{free_count}
use file_system.BlockLayer.Pointers.{IsPointer, read_block-IsPointer}
use file_system.RwLock.{RwLock}
use file_system.RwLock.Idle.{idle, held_by_reader, held_by_writer}
use file_system.RwLock.{writer_exit}
use file_system.InodeLayer.{InodeLayer, on_rwlock}
use file_system.Inode.Table.{inode_at-Fits}
use file_system.InodeLayer.Locks.{on_bm-ok}
use file_system.Inode.{Inode, get_inode}
use file_system.Inode.Table.{inode_at, find_inode, set_inode, get_inode-mounted}
use file_system.InodeLayer.Locks.{
  layer, enter_writer, leave_writer, update_self, after_reader, after_writer, on_bm-ok,
}
use file_system.InodeLayer.Read.{read_file}
use file_system.InodeLayer.Read.Whole.{touched, IsReadable, read_file-readable}
use file_system.InodeLayer.Write.{write_file, size_refused, write_contents}
use file_system.InodeLayer.Write.Stored.{IsBuffer}
use file_system.InodeLayer.Write.Contents.{Replaced, IsStored, write_contents-direct}
use file_system.InodeLayer.{InodeLayer}

-- An inode in use, on a disk whose cells hold bytes and whose pointers to blocks are sound.
pub record IsFile (d : Disk) (inum : ℕ) : Type 0 where
  pub small : inum < 1024
  pub bytes : IsBytes d
  pub in_use : (inode_at d inum).type ≢ 0
  pub pointers : (k : ℕ) → k < 9 → IsPointer ((inode_at d inum).blocks k)

pub find_inode-IsFile :
    (d : Disk) (inum : ℕ) → IsFile d inum → find_inode d inum ≡ some (inode_at d inum)
unfolding find_inode
find_inode-IsFile d inum f =
    rw (lt→leb 1024 inum f.small, ==_of_ne (inode_at d inum).type 0 f.in_use)

-- write_file of a file is its part behind the checks, between the two ends of its lock.
pub write_file-ok :
    (stack : Stack) (buf : Block) (n : ℕ)
    → n ≤ 69632
    → (inum : ℕ) (d d' : Disk) (locks : ℕ → RwLock) (r : ℤ) → IsFile d inum
    → locks inum ≡ idle r
    → write_contents stack inum (inode_at d inum) buf n (mounted d) ≡ ok tt (mounted d')
    → write_file stack inum buf (pos n) (layer (mounted d) locks)
      ≡ ok tt (layer (mounted d') (after_writer locks inum r))
unfolding write_file size_refused
write_file-ok stack buf n bound inum d d' locks r f free e =
    bind-ok _ (enter_writer inum f.small locks r (mounted d) free)
    ∙ rw (le→ltb 69632 n bound) (
        bind-ok _ (
          on_bm-ok (get_inode stack inum) (update locks inum (held_by_writer r)) (
            get_inode-mounted stack d inum
            ∙ ap (λ o. ok o (mounted d)) (find_inode-IsFile d inum f)))
        ∙ (bind-ok (λ _. on_rwlock inum writer_exit)
              (on_bm-ok (write_contents stack inum (inode_at d inum) buf n)
                (update locks inum (held_by_writer r)) e)
            ∙ leave_writer inum f.small (update locks inum (held_by_writer r)) r (mounted d')
                (update_self locks inum _)))

module _ (stack : Stack) (stack_bytes : (k : ℕ) → IsBuffer (stack direct_buffer k)) (buf : Block)
    (buf_bytes : IsBuffer buf) (n : ℕ) (short : n ≤ 4096) where
  IsStored-IsReadable :
      (inum : ℕ) (ino : Inode) (blocks : ℕ → ℕ) (d : Disk)
      → ino.type ≢ 0
      → IsStored buf n inum ino blocks d
      → IsReadable stack buf n inum (record ino { size = n; blocks = blocks }) d
  IsStored-IsReadable inum ino blocks d typed s = record {
    at = s.at;
    in_use = typed;
    size = refl;
    bounded = omega arith;
    loads = λ d' above.
        let (ptr, e) =
          read_block-IsPointer d' (blocks 8) (stack read_indirect 0) (s.pointers 8 (omega arith)) in
        (
          ptr,
          e,
          λ j lt. rw (lt→ltb j 8 (omega arith)) (record {
            high = (s.held j lt).1.high;
            bytes =
                λ i within. rw (above (blocks j) (s.held j lt).0) ((s.held j lt).1.bytes i within);
          }),
        );
  }

  pub read_file-stored :
      (inum now : ℕ) (ino : Inode) (blocks : ℕ → ℕ) (d : Disk) (locks : ℕ → RwLock) (r : ℤ)
      → inum < 1024
      → ino.type ≢ 0
      → locks inum ≡ idle r
      → IsStored buf n inum ino blocks d
      → (out : Block) × (read_file stack inum true now (layer (mounted d) locks)
          ≡ ok (some (pos n, out)) (
              layer
                (mounted
                  (set_inode d inum (touched (record ino { size = n; blocks = blocks }) now)))
                (after_reader locks inum r)))
        × ((i : ℕ) → i < n → out i ≡ buf i)
  read_file-stored inum now ino blocks d locks r small typed free s =
      read_file-readable stack buf n inum now (record ino { size = n; blocks = blocks }) d small
        (IsStored-IsReadable inum ino blocks d typed s) locks r free

  -- For buffers that hold bytes and an inode in use whose block pointers are sound, on a disk of bytes
  -- with eight free data blocks and with the inode's lock idle: write_file of at most 4096 bytes
  -- returns, and its inode then names blocks that hold the bytes. Those blocks are apart from each
  -- other and from all that were allocated and that the inode did not name; they are marked as
  -- allocated, but for one that blocks[8] names. Allocated data blocks that the inode did not name stay
  -- allocated and keep their bytes, the other inodes are as they were, and there are at most eight free
  -- data blocks fewer.
  pub write_file-IsStored :
      (inum w : ℕ) (d : Disk) (locks : ℕ → RwLock) (r : ℤ)
      → first_data + w ≤ block_num
      → IsFile d inum
      → 8 ≤ free_count d w first_data
      → locks inum ≡ idle r
      → (d' : Disk) × (write_file stack inum buf (pos n) (layer (mounted d) locks)
          ≡ ok tt (layer (mounted d') (after_writer locks inum r)))
        × (blocks : ℕ → ℕ) × IsStored buf n inum (inode_at d inum) blocks d'
        × Replaced w n inum (inode_at d inum) blocks d d'
  write_file-IsStored inum w d locks r fits f room free =
      let (d', e, blocks, s, rest) =
        write_contents-direct stack stack_bytes buf buf_bytes n w short fits inum (inode_at d inum)
          d f.small f.bytes room (inode_at-Fits d inum f.bytes) f.pointers in
      (d', write_file-ok stack buf n (omega arith) inum d d' locks r f free e, blocks, s, rest)

  -- For buffers that hold bytes and an inode in use whose block pointers are sound, on a disk of
  -- bytes with at least eight free data blocks among the first w, with an idle lock: writing n ≤
  -- 4096 bytes ends normally, and then read_file ends normally with size n and a buffer whose
  -- first n bytes are those written, with the lock idle again.
  pub read_file-write_file :
      (inum w now : ℕ) (d : Disk) (locks : ℕ → RwLock) (r : ℤ)
      → first_data + w ≤ block_num
      → IsFile d inum
      → 8 ≤ free_count d w first_data
      → locks inum ≡ idle r
      → (s' : InodeLayer) × (write_file stack inum buf (pos n) (layer (mounted d) locks) ≡ ok tt s')
        × (out : Block) × (s'' : InodeLayer) × (read_file stack inum true now s'
            ≡ ok (some (pos n, out)) s'')
        × ((i : ℕ) → i < n → out i ≡ buf i)
        × (s''.rwlocks inum ≡ idle (decrement r))
  read_file-write_file inum w now d locks r fits f room free =
      let (d', e, blocks, s, _) = write_file-IsStored inum w d locks r fits f room free in
      let locks' : ℕ → RwLock = after_writer locks inum r in
      let (out, e', same) =
        read_file-stored inum now (inode_at d inum) blocks d' locks' r f.small f.in_use
          (update_self (update locks inum (held_by_writer r)) inum (idle r)) s in
      (
        layer (mounted d') locks',
        e,
        out,
        _,
        e',
        same,
        update_self (update locks' inum (held_by_reader r)) inum (idle (decrement r)),
      )
