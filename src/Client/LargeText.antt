-- ===== src/Client/LargeText.antt =====
-- A client that writes and reads one file of whole blocks with an indirect section.
use file_system.Base.{
  refl, ℕ, ◌-◌, ◌+◌, ◌*◌, ◌/◌, ◌%◌, ◌≤◌, ◌<◌, ◌≡◌, List, arith, ok, inl, inr, bind-ok, update,
}
use file_system.Base.Int.{ℤ, decrement}
use file_system.Base.Lists.{length}
use file_system.Disk.{Disk, Stack}
use file_system.BlockLayer.{mounted}
use file_system.BlockLayer.Alloc.{first_data}
use file_system.BlockLayer.Space.{free_count, free_count-same}
use file_system.RwLock.{RwLock}
use file_system.RwLock.Idle.{idle, held_by_reader, held_by_writer}
use file_system.Inode.{Inode}
use file_system.Inode.Table.{inode_at, set_inode, set_inode-elsewhere}
use file_system.InodeLayer.{InodeLayer}
use file_system.InodeLayer.Locks.{layer, update_self, after_writer, after_reader}
use file_system.InodeLayer.Read.Whole.{touched, read_file-readable}
use file_system.InodeLayer.RoundTrip.{IsFile}
use file_system.InodeLayer.Write.Stored.{IsBuffer}
use file_system.InodeLayer.Write.Indirect.Whole.{HasBytes}
use file_system.InodeLayer.Write.Large.{IsLarge, IsLarge-IsReadable, IsLarge-touched}
use file_system.InodeLayer.LargeFiles.{write_file-IsLarge, write_file-rewrites}
use file_system.Server.{ok_status, inum_of}
use file_system.Server.Laws.{content, put_lem, get_lem}
use file_system.Server
use file_system.Client.{create, put, get}
use file_system.Client.Session.{new-IsFile}
use file_system.Disk.Laws.{IsBytes}
use file_system.InodeLayer.{alloc_inode}
use file_system.InodeLayer.Alloc.{alloc_inode_lem, Slot-lt}
use file_system.InodeLayer.Locks.{on_bm-ok}
use file_system.Base.{◌^◌}

-- A string of bytes that fills nine to 128 blocks.
pub record IsBlocks (text : List ℕ) : Type 0 where
  pub bytes : IsBuffer (content text)
  pub whole : length text % 512 ≡ 0
  pub long : 4608 ≤ length text
  pub large : length text ≤ 65536

-- The file `id` holds the text, nobody is in a call for it, and with the file's own blocks there is
-- room for 128.
pub record HoldsText (id : ℕ) (text : List ℕ) (fs : InodeLayer) : Type 0 where
  pub disk : Disk
  pub locks : ℕ → RwLock
  pub writers : ℤ
  pub inode : Inode
  pub at : fs ≡ layer (mounted disk) locks
  pub idle : locks (inum_of id) ≡ idle writers
  pub file : IsLarge (content text) (length text) (inum_of id) inode disk
  pub blocks : IsBlocks text
  pub room : 65536 ≤ 512 * free_count disk 32645 first_data + length text

-- create makes an empty file.
pub create-IsFile :
    (stack : Stack) (type : ℕ) (time : ℕ → ℕ) (d : Disk) (locks : ℕ → RwLock)
    → 0 < type
    → type < 2 ^ 15
    → IsBytes d
    → (id : ℕ) × (d' : Disk) × (create stack type time (layer (mounted d) locks)
        ≡ ok (ok_status, id) (layer (mounted d') locks))
      × (inum_of id < 1024)
      × IsFile d' (inum_of id)
      × ((inode_at d' (inum_of id)).size ≤ 4096)
      × (free_count d' 32645 first_data ≡ free_count d 32645 first_data)
unfolding create Server.create
create-IsFile stack type time d locks lo hi bytes =
    let (id, d', e, slot, inode, _, kept, still) = alloc_inode_lem stack type time d in
    let below : id < 1024 = Slot-lt d id slot in
    let same : inum_of id ≡ id = omega arith in
    (
      id,
      d',
      bind-ok _ (bind-ok _ (on_bm-ok (alloc_inode stack type time) locks e)),
      omega arith,
      new-IsFile d' id type time lo hi below (still bytes) inode,
      rw (same, inode) (omega arith),
      free_count-same d d' (λ i lt. kept i (inl lt)) 32645 first_data (omega arith),
    )

module _ (stack : Stack) (stack_bytes : HasBytes stack) (id : ℕ) (small : inum_of id < 1024) where
  -- A put of another such string.
  pub put-HoldsText :
      (old text : List ℕ) (fs : InodeLayer)
      → IsBlocks text
      → HoldsText id old fs
      → (fs' : InodeLayer) × (put stack id text fs ≡ ok ok_status fs') × HoldsText id text fs'
  unfolding put
  put-HoldsText old text fs blocks h =
      let m : ℕ = length text / 512 in
      let (d', e, ino', file, _, room, _, _, _, _, _) =
        write_file-rewrites stack stack_bytes (content text) blocks.bytes (length text) m
          blocks.long (omega (arith, blocks.large)) (omega (arith, blocks.whole)) (inum_of id)
          h.disk h.locks h.writers h.idle (content old) (length old) (length old / 512 - 8) 0
          h.inode small h.file (omega (arith, blocks.whole))
          (omega (arith, h.blocks.whole, h.blocks.long))
          (omega (arith, h.blocks.whole, h.blocks.long)) (inr (blocks.whole, h.blocks.whole))
          (omega (arith, h.room, h.blocks.whole, h.blocks.long, blocks.large)) in
      (
        layer (mounted d') (after_writer h.locks (inum_of id) h.writers),
        rw h.at (bind-ok _ (put_lem stack id text _ _ (omega (arith, blocks.large)) e)),
        record {
          disk = d';
          locks = after_writer h.locks (inum_of id) h.writers;
          writers = h.writers;
          inode = ino';
          at = refl;
          idle =
              update_self (update h.locks (inum_of id) (held_by_writer h.writers)) (inum_of id)
                (idle h.writers);
          file = file;
          blocks = blocks;
          room = omega (arith, h.room, room, h.blocks.whole, h.blocks.long, blocks.whole);
        },
      )

  -- The first put, to a file without an indirect section.
  pub put-HoldsText_first :
      (text : List ℕ) (d : Disk) (locks : ℕ → RwLock) (r : ℤ)
      → IsBlocks text
      → IsFile d (inum_of id)
      → (inode_at d (inum_of id)).size ≤ 4096
      → locks (inum_of id) ≡ idle r
      → 129 ≤ free_count d 32645 first_data
      → (fs' : InodeLayer) × (put stack id text (layer (mounted d) locks) ≡ ok ok_status fs')
        × HoldsText id text fs'
  unfolding put
  put-HoldsText_first text d locks r blocks file short free room =
      let m : ℕ = length text / 512 in
      let (d', e, cells, large, _, spent) =
        write_file-IsLarge stack stack_bytes (content text) blocks.bytes (length text) m blocks.long
          (omega (arith, blocks.large)) (omega (arith, blocks.whole)) (inum_of id) d locks r free
          file short (omega (arith, room, blocks.large)) in
      (
        layer (mounted d') (after_writer locks (inum_of id) r),
        bind-ok _ (put_lem stack id text _ _ (omega (arith, blocks.large)) e),
        record {
          disk = d';
          locks = after_writer locks (inum_of id) r;
          writers = r;
          inode = record (inode_at d (inum_of id)) { size = length text; blocks = cells };
          at = refl;
          idle = update_self (update locks (inum_of id) (held_by_writer r)) (inum_of id) (idle r);
          file = large;
          blocks = blocks;
          room = omega (arith, room, spent, blocks.whole);
        },
      )

  -- A get returns the string.
  pub get-HoldsText :
      (now : ℕ) (text : List ℕ) (fs : InodeLayer)
      → HoldsText id text fs
      → (fs' : InodeLayer) × (get stack id now fs ≡ ok (ok_status, text) fs')
        × HoldsText id text fs'
  unfolding get
  get-HoldsText now text fs h =
      let inum : ℕ = inum_of id in
      let (out, e, same) =
        read_file-readable stack (content text) (length text) inum now h.inode h.disk small
          (IsLarge-IsReadable stack (content text) (length text) inum h.inode h.disk h.file) h.locks
          h.writers h.idle in
      let d' : Disk = set_inode h.disk inum (touched h.inode now) in
      (
        layer (mounted d') (after_reader h.locks inum h.writers),
        rw h.at (bind-ok _ (get_lem stack id now text out _ _ e same)),
        record {
          disk = d';
          locks = after_reader h.locks inum h.writers;
          writers = decrement h.writers;
          inode = touched h.inode now;
          at = refl;
          idle =
              update_self (update h.locks inum (held_by_reader h.writers)) inum
                (idle (decrement h.writers));
          file = IsLarge-touched (content text) (length text) inum now h.inode h.disk small h.file;
          blocks = h.blocks;
          room = omega (
            arith,
            h.room,
            free_count-same h.disk d'
                (λ i lt. set_inode-elsewhere h.disk inum i (touched h.inode now) small (inl lt))
                32645 first_data (omega arith),
          );
        },
      )
