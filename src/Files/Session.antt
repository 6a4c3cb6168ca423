-- ===== src/Files/Session.antt =====
-- A client's session: any sequence of allowed requests is answered as the map answers it.
use file_system.Base.{
  ℕ, ◌+◌, ◌*◌, ◌≤◌, ◌≡◌, ok, Cmd, pure, ◌>>=◌, bind-ok, ◌∙◌, refl, arith, List, [], ◌∷◌,
}
use file_system.Disk.{Disk, Stack, block_num, direct_buffer}
use file_system.BlockLayer.{mounted}
use file_system.BlockLayer.Alloc.{first_data}
use file_system.BlockLayer.Space.{free_count}
use file_system.RwLock.{RwLock}
use file_system.InodeLayer.{InodeLayer}
use file_system.Server.{Status}
use file_system.InodeLayer.Locks.{layer}
use file_system.InodeLayer.Write.Stored.{IsBuffer}
use file_system.Files.{
  create, put, get, get_attributes, remove, Files, Request, Reply, next, replies, after, AllAllowed,
  puts,
}
use file_system.Files.Represents.{Represents}
use file_system.Files.Handling.{handle, AllIdle}
use file_system.Files.Requests.{answers}

-- The requests one after the other. A request calls time at most three times.
unfoldable pub serve : Stack → (ℕ → ℕ) → List Request → Cmd InodeLayer (List (Status × Reply))
unfolding handle
serve stack clock [] = pure []
serve stack clock (q ∷ qs) = do
  a ← handle stack clock q
  rest ← serve stack (λ n. clock (n + 3)) qs
  pure (a ∷ rest)

module _ (stack : Stack) (stack_bytes : (k : ℕ) → IsBuffer (stack direct_buffer k)) (w : ℕ)
    (fits : first_data + w ≤ block_num) where
  -- For local buffers that hold bytes, on a disk that holds the files of a map, with idle locks and at
  -- least eight free data blocks among the first w for each put: every sequence of allowed requests
  -- ends normally, the answers are those of the map, and the disk then holds the files of the map after
  -- them, with the locks idle.
  pub serve_refines :
      (qs : List Request) (clock : ℕ → ℕ) (d : Disk) (locks : ℕ → RwLock) (f : Files)
      → Represents d f
      → AllIdle locks
      → AllAllowed qs f
      → 8 * puts qs ≤ free_count d w first_data
      → (d' : Disk) × (locks' : ℕ → RwLock) × (serve stack clock qs (layer (mounted d) locks)
          ≡ ok (replies qs f) (layer (mounted d') locks'))
        × Represents d' (after qs f)
        × AllIdle locks'
  unfolding serve replies after
  serve_refines [] clock d locks f files free allowed room = (d, locks, refl, files, free)
  serve_refines (q ∷ qs) clock d locks f files free allowed room =
      let split : puts (q ∷ qs) ≡ puts (q ∷ []) + puts qs = puts-cons q qs in
      let (d₁, locks₁, a) =
        answers stack stack_bytes clock w fits d locks f files free q allowed.0 (omega arith) in
      let (d₂, locks₂, e, files₂, free₂) =
        serve_refines qs (λ n. clock (n + 3)) d₁ locks₁ (next q f) a.files a.free allowed.1
          (omega (arith, a.room)) in
      (d₂, locks₂, bind-ok _ a.run ∙ bind-ok _ e, files₂, free₂)
    where
      puts-cons : (q : Request) (qs : List Request) → puts (q ∷ qs) ≡ puts (q ∷ []) + puts qs
      puts-cons (create t) qs = omega arith
      puts-cons (put id s) qs = omega arith
      puts-cons (get id) qs = omega arith
      puts-cons (get_attributes id) qs = omega arith
      puts-cons (remove id) qs = omega arith
