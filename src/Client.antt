-- ===== src/Client.antt =====
-- fs_client of fs_client.cc: calls of the server in the same process.
pub mod Session
pub mod LargeText
pub mod NoMutex
use file_system.Base.{ℕ, List, Cmd, pure, ◌>>=◌}
use file_system.Disk.{Stack}
use file_system.InodeLayer.{InodeLayer, Attr}
use file_system.Server
use file_system.Server.{Status}

module _ (stack : Stack) where
  -- fs_client::create, get, getattr, put and remove
  unfoldable pub create : ℕ → (ℕ → ℕ) → Cmd InodeLayer (Status × ℕ)
  create type time = do (ret, id) ← Server.create stack type time; pure (ret, id)

  unfoldable pub get : ℕ → ℕ → Cmd InodeLayer (Status × List ℕ)
  get eid now = do (ret, buf) ← Server.get stack eid now; pure (ret, buf)

  unfoldable pub get_attributes : ℕ → Cmd InodeLayer (Status × Attr)
  get_attributes eid = do (ret, attr) ← Server.get_attributes stack eid; pure (ret, attr)

  unfoldable pub put : ℕ → List ℕ → Cmd InodeLayer Status
  put eid buf = do ret ← Server.put stack eid buf; pure ret

  unfoldable pub remove : ℕ → Cmd InodeLayer Status
  remove eid = do ret ← Server.remove stack eid; pure ret
