-- ===== src/Client/NoMutex.antt =====
-- A client whose file system has no mutex where bitmap_mutex is: create works, and put does not.
use file_system.Base.{
  ℕ, ◌%◌, ◌^◌, ◌≤◌, ◌<◌, ◌≡◌, refl, ◌∙◌, ap, arith, List, Run, Cmd, ok, fault, and_then, bind-ok,
  update, le→ltb, some,
}
use file_system.Base.Int.{ℤ, to_int-small}
use file_system.Base.Lists.{length}
use file_system.Disk.{Disk, Stack}
use file_system.Disk.Laws.{IsBytes}
use file_system.BlockLayer.{mounted, BlockLayer, uninitialised, free_block}
use file_system.RwLock.{RwLock}
use file_system.RwLock.Idle.{idle, held_by_writer}
use file_system.Inode.{get_inode}
use file_system.Inode.Table.{inode_at, get_inode-mounted}
use file_system.InodeLayer.{alloc_inode}
use file_system.InodeLayer.Alloc.{alloc_inode_lem, Slot-lt}
use file_system.InodeLayer.Locks.{layer, on_bm-ok, enter_writer}
use file_system.InodeLayer.RoundTrip.{IsFile, find_inode-IsFile}
use file_system.InodeLayer.Unlocked.{alloc_inode-Ignores, get_inode-Ignores, with_mutex}
use file_system.InodeLayer.Write.{
  write_file, write_found, write_contents, free_direct, size_refused,
}
use file_system.Server.{ok_status, inum_of}
use file_system.Server
use file_system.Client.{create, put}
use file_system.Client.Session.{new-IsFile}

abbrev pub without_mutex : Disk → BlockLayer
without_mutex d = record (mounted d) { bitmap_mutex = uninitialised }

bind-fault : {S A B : Type 0} {r : Run S A} (k : A → Cmd S B) → r ≡ fault → and_then r k ≡ fault
bind-fault k e = rw e

-- create makes a file all the same.
pub create-without_mutex :
    (stack : Stack) (type : ℕ) (time : ℕ → ℕ) (d : Disk) (locks : ℕ → RwLock)
    → 0 < type
    → type < 2 ^ 15
    → IsBytes d
    → (id : ℕ) × (d' : Disk) × (create stack type time (layer (without_mutex d) locks)
        ≡ ok (ok_status, id) (layer (without_mutex d') locks))
      × IsFile d' (inum_of id)
unfolding create Server.create
create-without_mutex stack type time d locks lo hi bytes =
    let (id, d', e, slot, inode, _, kept, still) = alloc_inode_lem stack type time d in
    let run : alloc_inode stack type time (without_mutex d) ≡ ok id (without_mutex d') =
      alloc_inode-Ignores stack uninitialised type time (mounted d)
      ∙ ap (with_mutex uninitialised) e in
    (
      id,
      d',
      bind-ok _ (bind-ok _ (on_bm-ok (alloc_inode stack type time) locks run)),
      new-IsFile d' id type time lo hi (Slot-lt d id slot) (still bytes) inode,
    )

-- put frees the blocks of the file first, and that locks the mutex.
pub put-without_mutex :
    (stack : Stack) (id : ℕ) (text : List ℕ) (d : Disk) (locks : ℕ → RwLock) (r : ℤ)
    → IsFile d (inum_of id)
    → locks (inum_of id) ≡ idle r
    → length text ≤ 69632
    → put stack id text (layer (without_mutex d) locks) ≡ fault
unfolding put Server.put write_file size_refused write_found write_contents free_direct free_block
put-without_mutex stack id text d locks r f free le =
    let whole : length text % 2 ^ 32 ≡ length text = omega arith in
    let found : get_inode stack (inum_of id) (without_mutex d)
        ≡ ok (some (inode_at d (inum_of id))) (without_mutex d) =
      get_inode-Ignores stack uninitialised (inum_of id) (mounted d)
      ∙ ap (with_mutex uninitialised) (
          get_inode-mounted stack d (inum_of id)
          ∙ ap (λ o. ok o (mounted d)) (find_inode-IsFile d (inum_of id) f)) in
    bind-fault _ (
      bind-fault _ (
        bind-ok _ (enter_writer (inum_of id) f.small locks r (without_mutex d) free)
        ∙ rw (whole, to_int-small (length text) (omega arith), le→ltb 69632 (length text) le)
            (bind-ok _ (
                on_bm-ok (get_inode stack (inum_of id))
                  (update locks (inum_of id) (held_by_writer r)) found)
              ∙ refl)))
