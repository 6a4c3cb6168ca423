-- ===== src/Server.antt =====
-- fs_server of fs_server.cc: the operations on ids and strings over the inode layer. Each returns the
-- status OK; `fault` is undefined behaviour or an exception.
pub mod Laws
use file_system.Base.{
  ℕ, ◌+◌, ◌-◌, ◌%◌, ◌^◌, ◌≡◌, Bool, true, false, Option, none, some, List, [], ltb, ◌==◌,
  if◌then◌else◌, Run, ok, fault, Cmd, pure, ◌>>=◌, ◌>>◌, undefined,
}
use file_system.Base.Int.{ℤ, pos, negsuc, to_int}
use file_system.Base.Lists.{length, get_or, cells_from}
use file_system.Disk.{Block, Stack}
use file_system.InodeLayer.{InodeLayer, Attr, on_bm, init_inode_layer, alloc_inode, getattr}
use file_system.InodeLayer.Read.{read_file}
use file_system.InodeLayer.Write.{write_file}
use file_system.InodeLayer.Remove.{remove_file}

-- fs_protocol::xxstatus
pub data Status : Type 0 where
  ok_status rpcerr noent ioerr : Status

-- fs_protocol::types
abbrev pub t_dir : ℕ
t_dir = 1

abbrev pub t_file : ℕ
t_file = 2

abbrev pub t_sym : ℕ
t_sym = 3

-- id &= 0x7fffffff, and then the conversion to uint32_t
abbrev pub inum_of : ℕ → ℕ
inum_of id = id % 2 ^ 31

-- What fs_server::get makes of what read_file left in cbuf and size.
unfoldable pub assign : Option (ℤ × Block) → Cmd InodeLayer (Status × List ℕ)
assign none = pure (ok_status, [])
assign (some (pos n, cbuf)) = pure (ok_status, cells_from cbuf 0 n)
assign (some (negsuc n, cbuf)) = undefined

module _ (stack : Stack) where
  -- fs_server::create; the type comes as a uint32_t.
  unfoldable pub create : ℕ → (ℕ → ℕ) → Cmd InodeLayer (Status × ℕ)
  create type time = do id ← on_bm (alloc_inode stack type time); pure (ok_status, id)

  -- fs_server::put; `buf` is the string, whose size is cut to an int, and a read behind its end finds
  -- the terminator.
  unfoldable pub put : ℕ → List ℕ → Cmd InodeLayer Status
  put id buf = do
    write_file stack (inum_of id) (λ i. get_or buf i 0) (to_int (length buf % 2 ^ 32))
    pure ok_status

  -- fs_server::get
  unfoldable pub get : ℕ → ℕ → Cmd InodeLayer (Status × List ℕ)
  unfolding assign
  get id now = do out ← read_file stack (inum_of id) true now; assign out

  -- fs_server::getattr, into attributes that memset has cleared
  unfoldable pub get_attributes : ℕ → Cmd InodeLayer (Status × Attr)
  get_attributes id = do
    attr ← on_bm (
        getattr stack (inum_of id) (record { type = 0; atime = 0; mtime = 0; ctime = 0; size = 0 }))
    pure (ok_status, attr)

  -- fs_server::remove
  unfoldable pub remove : ℕ → Cmd InodeLayer Status
  remove id = do on_bm (remove_file stack (inum_of id)); pure ok_status
