-- ===== src/Files/Handling.antt =====
-- A request of a client as a call of fs_client, and what it leaves.
use file_system.Base.{
  ℕ, ◌+◌, ◌*◌, ◌≤◌, ◌<◌, ◌≡◌, ◌∙◌, ok, Cmd, pure, ◌>>=◌, update, [], ◌∷◌, inl, inr, eq_or_ne,
  update_same, update_other,
}
use file_system.Base.Int.{ℤ}
use file_system.Disk.{Disk, Stack}
use file_system.BlockLayer.{mounted}
use file_system.BlockLayer.Alloc.{first_data}
use file_system.BlockLayer.Space.{free_count}
use file_system.RwLock.{RwLock}
use file_system.RwLock.Idle.{idle}
use file_system.InodeLayer.{InodeLayer}
use file_system.InodeLayer.Locks.{layer}
use file_system.Server.{Status}
use file_system.Client
use file_system.Files.{
  Files, Request, create, put, get, get_attributes, remove, Reply, created, done, text, attributes,
  reply, next, puts,
}
use file_system.Files.Represents.{Represents}

-- A request through fs_client. `clock n` is what call number n of time returns.
unfoldable pub handle : Stack → (ℕ → ℕ) → Request → Cmd InodeLayer (Status × Reply)
handle stack clock (create t) = do (ret, id) ← Client.create stack t clock; pure (ret, created id)
handle stack clock (put id s) = do ret ← Client.put stack id s; pure (ret, done)
handle stack clock (get id) = do (ret, s) ← Client.get stack id (clock 0); pure (ret, text s)
handle stack clock (get_attributes id) = do
  (ret, a) ← Client.get_attributes stack id
  pure (ret, attributes a.type a.size)
handle stack clock (remove id) = do ret ← Client.remove stack id; pure (ret, done)

-- Nobody is in a call.
abbrev pub AllIdle : (ℕ → RwLock) → Type 0
AllIdle locks = (i : ℕ) → i < 1024 → (r : ℤ) × (locks i ≡ idle r)

pub AllIdle-update :
    (locks : ℕ → RwLock) (id : ℕ) (l : RwLock) (r : ℤ)
    → AllIdle locks
    → AllIdle (update (update locks id l) id (idle r))
AllIdle-update locks id l r free i lt = elim (eq_or_ne i id) [
  | inl e ↦ (r, rw e (update_same (update locks id l) id (idle r)))
  | inr ne ↦ (
    (free i lt).0,
    update_other (update locks id l) id (idle r) i ne
        ∙ update_other locks id l i ne
        ∙ (free i lt).1,
  )
]

-- What a request leaves: the map's answer, the map's files, idle locks, and at most eight blocks less
-- for a put.
pub record Answers (stack : Stack) (clock : ℕ → ℕ) (w : ℕ) (q : Request) (d : Disk)
    (locks : ℕ → RwLock) (f : Files) (d' : Disk) (locks' : ℕ → RwLock) : Type 0 where
  pub run :
      handle stack clock q (layer (mounted d) locks) ≡ ok (reply q f) (layer (mounted d') locks')
  pub files : Represents d' (next q f)
  pub free : AllIdle locks'
  pub room : free_count d w first_data ≤ free_count d' w first_data + 8 * puts (q ∷ [])
