-- ===== src/Inode/Laws.antt =====
-- put_inode and get_inode on every inum.
use file_system.Inode.Table.{
  find_inode, set_inode, get_inode-mounted, put_inode-mounted, inode_at-set_inode,
  set_inode-elsewhere,
}
use file_system.Base.{
  ap, ◌∙◌, refl, ==_of_eq, ==_of_ne, lt→leb, some, none, if◌then◌else◌, ◌==◌, ◌≡◌, ok, ◌≢◌, Option,
  ◌⊎◌, ◌≤◌, ℕ, ◌<◌,
}
use file_system.Inode.{Inode, get_inode, put_inode, inode_num}
use file_system.Inode.Codec.{Fits}
use file_system.BlockLayer.{mounted, inode_num}
use file_system.Disk.{Stack, Disk}
use Prim.Native.Nat.{ℕ}

-- For an inum below 1024 and a struct that fits its types, put_inode ends normally; then get_inode gives
-- that struct, or NULL if its type is 0, and at any other inum what it gave before. No bitmap block and
-- no data block changes.
pub get_inode-put_inode :
    (stack : Stack) (d : Disk) (inum : ℕ) (ino : Inode)
    → inum < inode_num
    → Fits ino
    → (d' : Disk) × (put_inode stack inum (some ino) (mounted d) ≡ ok tt (mounted d'))
      × (get_inode stack inum (mounted d')
          ≡ ok (if ino.type == 0 then none else some ino) (mounted d'))
      × ((j : ℕ)
          → j ≢ inum
          → (o : Option Inode) × (get_inode stack j (mounted d) ≡ ok o (mounted d))
            × (get_inode stack j (mounted d') ≡ ok o (mounted d')))
      × ((i : ℕ) → (i < 9) ⊎ (123 ≤ i) → d' i ≡ d i)
get_inode-put_inode stack d inum ino small fit = (
  set_inode d inum ino,
  put_inode-mounted stack d inum ino small,
  get_inode-mounted stack (set_inode d inum ino) inum
      ∙ ap (λ o. ok o (mounted (set_inode d inum ino))) here,
  λ j ne. (
    find_inode d j,
    get_inode-mounted stack d j,
    get_inode-mounted stack (set_inode d inum ino) j
        ∙ ap (λ o. ok o (mounted (set_inode d inum ino))) (there j ne),
  ),
  λ i out. set_inode-elsewhere d inum i ino small out,
)
  where
    here : find_inode (set_inode d inum ino) inum ≡ (if ino.type == 0 then none else some ino)
    here =
        unfold find_inode in
        rw (lt→leb 1024 inum small, inode_at-set_inode d inum inum ino fit, ==_of_eq inum inum refl)
          refl

    there : (j : ℕ) → j ≢ inum → find_inode (set_inode d inum ino) j ≡ find_inode d j
    there j ne =
        unfold find_inode in rw (inode_at-set_inode d inum j ino fit, ==_of_ne j inum ne) refl
