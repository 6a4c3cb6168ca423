-- ===== src/Client/Session.antt =====
-- A client that creates a file, writes it and reads it back.
use file_system.Base.{ℕ, ◌+◌, ◌%◌, ◌^◌, ◌≤◌, ◌<◌, ◌≡◌, List, arith, ok, inl, bind-ok}
use file_system.Base.Int.{ℤ}
use file_system.Base.Lists.{length}
use file_system.Disk.{Disk, Stack, block_num, direct_buffer}
use file_system.Disk.Laws.{IsBytes}
use file_system.BlockLayer.{mounted}
use file_system.BlockLayer.Alloc.{first_data}
use file_system.BlockLayer.Space.{free_count, free_count-same}
use file_system.RwLock.{RwLock}
use file_system.RwLock.Idle.{idle}
use file_system.Inode.Table.{inode_at}
use file_system.InodeLayer.{InodeLayer, new_inode, alloc_inode}
use file_system.InodeLayer.Alloc.{alloc_inode_lem, Slot-lt}
use file_system.InodeLayer.Locks.{layer, on_bm-ok}
use file_system.InodeLayer.RoundTrip.{IsFile}
use file_system.InodeLayer.Write.Stored.{IsBuffer}
use file_system.Server
use file_system.Server.{ok_status, inum_of}
use file_system.Server.Laws.{content, get-put}
use file_system.Client.{create, put, get}

pub new-IsFile :
    (d : Disk) (id type : ℕ) (time : ℕ → ℕ)
    → 0 < type
    → type < 2 ^ 15
    → id < 1024
    → IsBytes d
    → inode_at d id ≡ new_inode type time
    → IsFile d (inum_of id)
new-IsFile d id type time lo hi small bytes at =
    let same : id % 2 ^ 31 ≡ id = omega arith in
    rw same (record {
      small = small;
      bytes = bytes;
      in_use = rw at (omega arith);
      pointers = λ k lt. rw at (inl (omega arith));
    })

-- For a type from 1 to 2^15 - 1, a string of at most 4096 bytes and local buffers that hold bytes,
-- on a disk of bytes with at least eight free data blocks among the first w and with the locks of
-- all 1024 inodes idle: create ends normally with OK and an id, put of the string at that id ends
-- normally with OK, and get of the id then ends normally with OK and the string.
pub get-put-create :
    (stack : Stack)
    → ((k : ℕ) → IsBuffer (stack direct_buffer k))
    → (buf : List ℕ) → IsBuffer (content buf)
    → length buf ≤ 4096
    → (type w now : ℕ) (time : ℕ → ℕ) (d : Disk) (locks : ℕ → RwLock) (r : ℤ) → 0 < type
    → type < 2 ^ 15
    → first_data + w ≤ block_num
    → IsBytes d
    → 8 ≤ free_count d w first_data
    → ((i : ℕ) → i < 1024 → locks i ≡ idle r)
    → (id : ℕ) × (s₁ s₂ s₃ : InodeLayer) × (create stack type time (layer (mounted d) locks)
        ≡ ok (ok_status, id) s₁)
      × (put stack id buf s₁ ≡ ok ok_status s₂)
      × (get stack id now s₂ ≡ ok (ok_status, buf) s₃)
unfolding create put get Server.create
get-put-create stack stack_bytes buf buf_bytes short type w now time d locks r lo hi fits bytes room
      free =
    let (id, d', e, s, at, others, kept, still) = alloc_inode_lem stack type time d in
    let small : id < 1024 = Slot-lt d id s in
    let same : inum_of id ≡ id = omega arith in
    let (s₂, s₃, written, read) =
      get-put stack stack_bytes buf buf_bytes short id w now d' locks r fits
        (new-IsFile d' id type time lo hi small (still bytes) at)
        (rw (free_count-same d d' (λ i h. kept i (inl h)) w first_data fits) room)
        (free (inum_of id) (omega arith)) in
    (
      id,
      layer (mounted d') locks,
      s₂,
      s₃,
      bind-ok _ (bind-ok _ (on_bm-ok (alloc_inode stack type time) locks e)),
      bind-ok _ written,
      bind-ok _ read,
    )
