-- ===== src/Examples/Session.antt =====
-- A session at concrete requests: two files, one of them rewritten, one removed.
use file_system.Base.{ℕ, ok, true, arith, [], ◌∷◌, List, ◌≡◌, refl}
use file_system.InodeLayer.{InodeLayer, init_inode_layer}
use file_system.Files.{
  after, Request, create, put, get, get_attributes, remove, created, done, text, attributes,
  AllAllowed, next, first_absent, replies, reply, after,
}
use file_system.Server.{ok_status}
use file_system.Files.Session.{serve, serve_refines}
use file_system.Base.Int.{pos}
use file_system.Disk.{Disk}
use file_system.BlockLayer.{mounted, unlocked}
use file_system.RwLock.{RwLock}
use file_system.InodeLayer.Locks.{layer}
use file_system.Files.Represents.{Represents}
use file_system.Files.Handling.{AllIdle}
use file_system.Files.Start.{init-Represents, fresh, serve-init_refines}
use file_system.Examples.{
  free_locks, sevens, sevens-IsBuffer, clock, hello, hello-IsBuffer, Disk, RwLock, layer, mounted,
  free_locks,
}
use file_system.Disk.{Disk}
use file_system.RwLock.{RwLock}
use file_system.InodeLayer.Locks.{layer}
use file_system.BlockLayer.{mounted, unlocked}
use file_system.Files.Represents.{Represents}
use file_system.Files.Handling.{AllIdle}

abbrev script : List Request
script =
    create 2
    ∷ create 1
    ∷ put 1 hello
    ∷ put 2 hello
    ∷ put 1 hello
    ∷ get 1
    ∷ remove 1
    ∷ get 2
    ∷ get_attributes 1
    ∷ create 2
    ∷ []

script-AllAllowed : AllAllowed script fresh
unfolding next first_absent
script-AllAllowed = (
  (omega arith, omega arith, 9, omega arith, refl),
  (
    (omega arith, omega arith, 9, omega arith, refl),
    (
      (omega arith, omega arith, hello-IsBuffer, omega arith),
      (
        (omega arith, omega arith, hello-IsBuffer, omega arith),
        (
          (omega arith, omega arith, hello-IsBuffer, omega arith),
          (
            omega arith,
            (
              omega arith,
              (omega arith, (omega arith, ((omega arith, omega arith, 9, omega arith, refl), tt))),
            ),
          ),
        ),
      ),
    ),
  ),
)

script-replies :
    replies script fresh
    ≡ (ok_status, created 1)
      ∷ (ok_status, created 2)
      ∷ (ok_status, done)
      ∷ (ok_status, done)
      ∷ (ok_status, done)
      ∷ (ok_status, text hello)
      ∷ (ok_status, done)
      ∷ (ok_status, text hello)
      ∷ (ok_status, attributes 0 0)
      ∷ (ok_status, created 1)
      ∷ []
unfolding replies reply next first_absent
script-replies = refl

serve-init_refines_example :
    (s s' : InodeLayer) × (init_inode_layer sevens unlocked clock ≡ ok true s)
    × (serve sevens clock script s ≡ ok (replies script fresh) s')
serve-init_refines_example =
    serve-init_refines sevens sevens-IsBuffer clock clock script script-AllAllowed (omega arith)
      unlocked refl

-- The disk after the constructor.
abbrev pub first_disk : Disk
first_disk = (init-Represents sevens clock).0

serve_refines_example :
    (d' : Disk) × (locks' : ℕ → RwLock) × (serve sevens clock script
        (layer (mounted first_disk) free_locks)
      ≡ ok (replies script fresh) (layer (mounted d') locks'))
    × Represents d' (after script fresh)
    × AllIdle locks'
serve_refines_example =
    serve_refines sevens sevens-IsBuffer 32645 (omega arith) script clock first_disk free_locks
      fresh (init-Represents sevens clock).2 (λ i lt. (pos 0, refl)) script-AllAllowed
      (omega (arith, (init-Represents sevens clock).3))
