-- ===== src/Server/Laws.antt =====
-- What a client of the server sees.
use file_system.InodeLayer.Write.{write_file}
use file_system.InodeLayer.Read.{read_file}
use file_system.Base.{
  some, ℕ, ◌+◌, ◌%◌, ◌^◌, ◌≤◌, ◌<◌, ◌≡◌, ap, ◌∙◌, true, none, List, [], arith, ok, inr, bind-ok,
}
use file_system.Base.Int.{ℤ, pos, to_int, to_int-small}
use file_system.Base.Lists.{length, get_or, cells_from, cells_from-get_or}
use file_system.Disk.{Disk, Block, Stack, block_num, direct_buffer}
use file_system.BlockLayer.{mounted}
use file_system.BlockLayer.Alloc.{first_data}
use file_system.BlockLayer.Space.{free_count}
use file_system.RwLock.{RwLock}
use file_system.RwLock.Idle.{idle}
use file_system.Inode.Table.{find_inode, inode_at}
use file_system.InodeLayer.{InodeLayer, Attr, on_bm, getattr}
use file_system.Inode.Table.{get_inode-mounted}
use file_system.InodeLayer.Alloc.{attr_of, getattr-mounted}
use file_system.InodeLayer.Locks.{layer, on_bm-ok, after_reader, after_writer}
use file_system.InodeLayer.Release.{write_refused, read_refused}
use file_system.InodeLayer.RoundTrip.{IsFile, read_file-write_file}
use file_system.InodeLayer.Remove.{remove_file}
use file_system.InodeLayer.Remove.Laws.{IsRemovable, remove_file_lem}
use file_system.InodeLayer.Write.Stored.{IsBuffer}
use file_system.Server.{ok_status, inum_of, assign, put, get, get_attributes, remove}

-- The bytes of a string as put sees them.
abbrev pub content : List ℕ → Block
content buf i = get_or buf i 0

-- put hands the whole string to write_file.
pub put_lem :
    (stack : Stack) (id : ℕ) (buf : List ℕ) (s s' : InodeLayer)
    → length buf ≤ 69632
    → write_file stack (inum_of id) (content buf) (pos (length buf)) s ≡ ok tt s'
    → put stack id buf s ≡ ok ok_status s'
unfolding put
put_lem stack id buf s s' short written =
    let size : to_int (length buf % 2 ^ 32) ≡ pos (length buf) =
      let cut : length buf % 2 ^ 32 ≡ length buf = omega arith in
      rw cut (to_int-small (length buf) (omega arith)) in
    rw (size, written)

-- get makes the string of what read_file gives.
pub get_lem :
    (stack : Stack) (id now : ℕ) (buf : List ℕ) (out : Block) (s s' : InodeLayer)
    → read_file stack (inum_of id) true now s ≡ ok (some (pos (length buf), out)) s'
    → ((i : ℕ) → i < length buf → out i ≡ content buf i)
    → get stack id now s ≡ ok (ok_status, buf) s'
unfolding get assign
get_lem stack id now buf out s s' read same =
    let whole : cells_from out 0 (length buf) ≡ buf =
      cells_from-get_or 0 buf out 0
        (λ j lt. let start : 0 + j ≡ j = omega arith in rw start (same j lt)) in
    rw (read, whole)

-- For a string of at most 4096 bytes, local buffers that hold bytes, and an id below 1024 that
-- names an inode in use with sound block pointers, on a disk of bytes with at least eight free
-- data blocks among the first w and with that inode's lock idle: put ends normally with OK, and
-- then get ends normally with OK and that string.
pub get-put :
    (stack : Stack)
    → ((k : ℕ) → IsBuffer (stack direct_buffer k))
    → (buf : List ℕ) → IsBuffer (content buf)
    → length buf ≤ 4096
    → (id w now : ℕ) (d : Disk) (locks : ℕ → RwLock) (r : ℤ) → first_data + w ≤ block_num
    → IsFile d (inum_of id)
    → 8 ≤ free_count d w first_data
    → locks (inum_of id) ≡ idle r
    → (s' s'' : InodeLayer) × (put stack id buf (layer (mounted d) locks) ≡ ok ok_status s')
      × (get stack id now s' ≡ ok (ok_status, buf) s'')
get-put stack stack_bytes buf buf_bytes short id w now d locks r fits file room free =
    let (s', written, out, s'', read, same, _) =
      read_file-write_file stack stack_bytes (content buf) buf_bytes (length buf) short (inum_of id)
        w now d locks r fits file room free in
    (
      s',
      s'',
      put_lem stack id buf (layer (mounted d) locks) s' (omega arith) written,
      get_lem stack id now buf out s' s'' read same,
    )

-- The attributes after memset.
abbrev pub no_attributes : Attr
no_attributes = record { type = 0; atime = 0; mtime = 0; ctime = 0; size = 0 }

pub no_inode :
    (stack : Stack) (d : Disk) (locks : ℕ → RwLock) (inum : ℕ)
    → find_inode d inum ≡ none
    → on_bm (getattr stack inum no_attributes) (layer (mounted d) locks)
      ≡ ok no_attributes (layer (mounted d) locks)
no_inode stack d locks inum missing = on_bm-ok (getattr stack inum no_attributes) locks (
    getattr-mounted stack inum no_attributes d
    ∙ ap (λ o. ok (attr_of no_attributes o) (mounted d)) missing)

-- An id below 1024 that names no inode in use, with its lock idle, is reported as OK by put, get,
-- getattr and remove: put changes nothing on the disk, get returns the empty string, getattr the
-- cleared attributes, and remove changes nothing at all.
pub missing_id :
    (stack : Stack) (id now : ℕ) (buf : List ℕ) (d : Disk) (locks : ℕ → RwLock) (r : ℤ)
    → inum_of id < 1024
    → find_inode d (inum_of id) ≡ none
    → locks (inum_of id) ≡ idle r
    → (put stack id buf (layer (mounted d) locks)
        ≡ ok ok_status (layer (mounted d) (after_writer locks (inum_of id) r)))
      × (get stack id now (layer (mounted d) locks)
          ≡ ok (ok_status, []) (layer (mounted d) (after_reader locks (inum_of id) r)))
      × (get_attributes stack id (layer (mounted d) locks)
          ≡ ok (ok_status, no_attributes) (layer (mounted d) locks))
      × (remove stack id (layer (mounted d) locks) ≡ ok ok_status (layer (mounted d) locks))
unfolding put get assign get_attributes remove remove_file
missing_id stack id now buf d locks r small missing free = (
  rw (
      write_refused stack (inum_of id) small locks r free (content buf)
        (to_int (length buf % 2 ^ 32)) d (inr missing)),
  rw (read_refused stack (inum_of id) small locks r free true now d (inr missing)),
  bind-ok _ (no_inode stack d locks (inum_of id) missing),
  bind-ok _ (
      on_bm-ok (remove_file stack (inum_of id)) locks
        (bind-ok _ (get_inode-mounted stack d (inum_of id)) ∙ rw missing)),
)

-- After remove of an id below 1024 that names an inode in use with a sound block map on a disk of
-- bytes, which ends normally with OK, getattr of that id reports OK and the cleared attributes.
pub get_attributes-remove :
    (stack : Stack) (id : ℕ) (d : Disk) (locks : ℕ → RwLock)
    → IsFile d (inum_of id)
    → IsRemovable d (inode_at d (inum_of id))
    → (d' : Disk) × (remove stack id (layer (mounted d) locks)
        ≡ ok ok_status (layer (mounted d') locks))
      × (get_attributes stack id (layer (mounted d') locks)
          ≡ ok (ok_status, no_attributes) (layer (mounted d') locks))
unfolding remove get_attributes
get_attributes-remove stack id d locks file sound =
    let removed = remove_file_lem stack (inum_of id) d file sound in
    (
      removed.0,
      bind-ok _ (on_bm-ok (remove_file stack (inum_of id)) locks removed.1),
      bind-ok _ (no_inode stack removed.0 locks (inum_of id) removed.2),
    )
