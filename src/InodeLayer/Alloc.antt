-- ===== src/InodeLayer/Alloc.antt =====
-- alloc_inode, free_inode and getattr against the inode table.
use file_system.Inode.Table.{
  find_inode-some, find_inode-type_zero, set_inode-IsBytes, inode_at-Fits, set_inode-elsewhere,
  inode_at, find_inode, set_inode, get_inode-mounted, put_inode-mounted, inode_at-set_inode,
}
use file_system.Base.{
  ℕ, zero, suc, ◌+◌, ◌%◌, ◌^◌, ◌≤◌, ◌<◌, ◌≡◌, ◌≢◌, refl, ap, ◌∙◌, some, none, Option, arith, ok,
  inl, inr, ◌⊎◌, eq_or_ne, lt→leb, ==_of_ne, ==_of_eq, if◌then◌else◌, ◌==◌, Option-cases, bind-ok,
  fault, Run, lt→ltb,
}
use file_system.Disk.{Disk, Stack}
use file_system.Disk.Laws.{IsBytes}
use file_system.BlockLayer.{mounted, BlockLayer}
use file_system.Inode.{Inode}
use file_system.Inode.Codec.{Fits}
use file_system.InodeLayer.{
  Attr, sign_extend, new_inode, find_slot, alloc_inode, free_inode, getattr,
}

-- `x` is the first inode from `from` on that is not in use, among the next k.
pub record IsFirstUnused (d : Disk) (k from x : ℕ) : Type 0 where
  pub low : from ≤ x
  pub high : x < from + k
  pub unused : find_inode d x ≡ none
  pub first : (j : ℕ) → from ≤ j → j < x → (i : Inode) × (find_inode d j ≡ some i)

abbrev pub AllInUse : Disk → ℕ → ℕ → Type 0
AllInUse d k from = (j : ℕ) → from ≤ j → j < from + k → (i : Inode) × (find_inode d j ≡ some i)

-- The two ways in which the search of alloc_inode ends.
abbrev pub Slot : Disk → ℕ → ℕ → ℕ → Type 0
Slot d k from x = IsFirstUnused d k from x ⊎ ((x ≡ 0) × AllInUse d k from)

module _ (stack : Stack) (d : Disk) where
  find_slot-mounted :
      (k from : ℕ)
      → (x : ℕ) × (find_slot stack k from (mounted d) ≡ ok x (mounted d)) × Slot d k from x
  unfolding find_slot
  find_slot-mounted zero from = (0, refl, inr (refl, λ j p q. absurd (omega arith)))
  find_slot-mounted (suc k) from = elim (Option-cases (find_inode d from)) [
    | inl e ↦ (
      from,
      rw (get_inode-mounted stack d from, e),
      inl (record {
        low = omega arith;
        high = omega arith;
        unused = e;
        first = λ j p q. absurd (omega arith);
      }),
    )
    | inr (i, e) ↦
        let (x, r, s) = find_slot-mounted k (suc from) in
        (x, rw (get_inode-mounted stack d from, e) r, extend i e x s)
  ]
    where
      earlier :
          (i : Inode)
          → find_inode d from ≡ some i
          → (j : ℕ) → (suc from ≤ j → (i' : Inode) × (find_inode d j ≡ some i'))
          → from ≤ j
          → (i' : Inode) × (find_inode d j ≡ some i')
      earlier i e j rest p = elim (eq_or_ne j from) [
        | inl same ↦ (i, rw same e)
        | inr ne ↦ rest (omega arith)
      ]

      extend :
          (i : Inode)
          → find_inode d from ≡ some i
          → (x : ℕ) → Slot d k (suc from) x
          → Slot d (suc k) from x
      extend i e x (inl f) = inl (record {
        low = omega (arith, f.low);
        high = omega (arith, f.high);
        unused = f.unused;
        first = λ j p q. earlier i e j (λ h. f.first j h q) p;
      })
      extend i e x (inr (z, all)) = inr (z, λ j p q. earlier i e j (λ h. all j h (omega arith)) p)

pub new_inode-Fits : (type : ℕ) (time : ℕ → ℕ) → Fits (new_inode type time)
new_inode-Fits type time = record {
  type = omega arith;
  size = omega arith;
  atime = omega arith;
  mtime = omega arith;
  ctime = omega arith;
  blocks = λ k h. omega arith;
  beyond = λ k h. refl;
}

pub Slot-lt : (d : Disk) (x : ℕ) → Slot d 1024 0 x → x < 1024
Slot-lt d x (inl f) = omega (arith, f.high)
Slot-lt d x (inr (z, all)) = omega arith

-- alloc_inode ends normally and returns the first inode that is not in use, or inode 0 when all 1024
-- are in use; in both cases that inode is the new one afterwards, with the type cut to 16 bits, size 0
-- and no blocks, and the struct of every other inode is as it was. The bitmap and the data blocks are
-- not touched, and cells that held bytes hold bytes.
pub alloc_inode_lem :
    (stack : Stack) (type : ℕ) (time : ℕ → ℕ) (d : Disk)
    → (x : ℕ) × (d' : Disk) × (alloc_inode stack type time (mounted d) ≡ ok x (mounted d'))
      × Slot d 1024 0 x
      × (inode_at d' x ≡ new_inode type time)
      × ((j : ℕ) → j ≢ x → inode_at d' j ≡ inode_at d j)
      × ((i : ℕ) → (i < 9) ⊎ (123 ≤ i) → d' i ≡ d i)
      × (IsBytes d → IsBytes d')
unfolding alloc_inode
alloc_inode_lem stack type time d =
    let (x, e, s) = find_slot-mounted stack d 1024 0 in
    (
      x,
      set_inode d x (new_inode type time),
      rw (e, put_inode-mounted stack d x (new_inode type time) (Slot-lt d x s)),
      s,
      inode_at-set_inode d x x _ (new_inode-Fits type time) ∙ rw (==_of_eq x x refl),
      λ j ne. inode_at-set_inode d x j _ (new_inode-Fits type time) ∙ rw (==_of_ne j x ne),
      λ i out. set_inode-elsewhere d x i (new_inode type time) (Slot-lt d x s) out,
      set_inode-IsBytes d x (new_inode type time),
    )

-- What getattr makes of an inode.
abbrev pub attr_of : Attr → Option Inode → Attr
attr_of a none = a
attr_of a (some ino) = record {
  type = sign_extend ino.type;
  atime = ino.atime;
  mtime = ino.mtime;
  ctime = ino.ctime;
  size = ino.size;
}

pub getattr-mounted :
    (stack : Stack) (inum : ℕ) (a : Attr) (d : Disk)
    → getattr stack inum a (mounted d) ≡ ok (attr_of a (find_inode d inum)) (mounted d)
unfolding getattr
getattr-mounted stack inum a d =
    bind-ok _ (get_inode-mounted stack d inum)
    ∙ elim (Option-cases (find_inode d inum)) [ inl e ↦ rw e | inr (i, e) ↦ rw e ]

-- After alloc_inode with one of the types 1 to 2^15 - 1, getattr of the new inode ends normally and
-- gives that type, size 0 and the times of the calls of time, cut to 32 bits.
getattr-alloc_inode :
    (stack : Stack) (type : ℕ) (time : ℕ → ℕ) (d : Disk) (a : Attr)
    → 0 < type
    → type < 2 ^ 15
    → (x : ℕ) × (d' : Disk) × (alloc_inode stack type time (mounted d) ≡ ok x (mounted d'))
      × (getattr stack x a (mounted d')
          ≡ ok
              (record {
                type = type;
                atime = time 0 % 2 ^ 32;
                mtime = time 2 % 2 ^ 32;
                ctime = time 1 % 2 ^ 32;
                size = 0;
              })
              (mounted d'))
getattr-alloc_inode stack type time d a lo hi =
    let (x, d', e, s, at, others, _, _) = alloc_inode_lem stack type time d in
    (x, d', e, getattr-mounted stack x a d' ∙ attributes x d' (Slot-lt d x s) at)
  where
    attributes :
        (x : ℕ) (d' : Disk)
        → x < 1024
        → inode_at d' x ≡ new_inode type time
        → ◌≡◌ {A = Run BlockLayer Attr} (ok (attr_of a (find_inode d' x)) (mounted d')) (
            ok
              (record {
                type = type;
                atime = time 0 % 2 ^ 32;
                mtime = time 2 % 2 ^ 32;
                ctime = time 1 % 2 ^ 32;
                size = 0;
              })
              (mounted d'))
    attributes x d' small at =
        let typed : type % 2 ^ 16 ≡ type = omega arith in
        let found : find_inode d' x ≡ some (new_inode type time) =
          unfold find_inode in
          rw (lt→leb 1024 x small, at, ==_of_ne (type % 65536) 0 (omega arith)) in
        rw (found, typed, lt→ltb type 32768 hi)

freed-Fits : (ino : Inode) → Fits ino → Fits (record ino { type = 0 })
freed-Fits ino f = record {
  type = omega arith;
  size = f.size;
  atime = f.atime;
  mtime = f.mtime;
  ctime = f.ctime;
  blocks = f.blocks;
  beyond = f.beyond;
}

-- On a disk of bytes, free_inode at an inode in use ends normally; the inode is not in use
-- afterwards, and the struct of every other inode is as it was. At any other inum it dereferences
-- NULL.
pub free_inode_lem :
    (stack : Stack) (inum : ℕ) (d : Disk)
    → IsBytes d
    → ((find_inode d inum ≡ none) × (free_inode stack inum (mounted d) ≡ fault))
      ⊎ ((d' : Disk) × (free_inode stack inum (mounted d) ≡ ok tt (mounted d'))
          × (find_inode d inum ≡ some (inode_at d inum))
          × (inum < 1024)
          × (d' ≡ set_inode d inum (record (inode_at d inum) { type = 0 }))
          × (find_inode d' inum ≡ none)
          × ((j : ℕ) → j ≢ inum → inode_at d' j ≡ inode_at d j))
unfolding free_inode
free_inode_lem stack inum d h = elim (Option-cases (find_inode d inum)) [
  | inl e ↦ inl (e, rw (get_inode-mounted stack d inum, e))
  | inr (i, e) ↦
      let (small, here) = find_inode-some d inum i e in
      let e' : find_inode d inum ≡ some (inode_at d inum) = e ∙ ap some here in
      inr (
        set_inode d inum (record (inode_at d inum) { type = 0 }),
        bind-ok _ (get_inode-mounted stack d inum) ∙ rw e' (put_inode-mounted stack d inum _ small),
        e',
        small,
        refl,
        find_inode-type_zero _ inum (rw (at inum, ==_of_eq inum inum refl)),
        λ j ne. at j ∙ rw (==_of_ne j inum ne),
      )
]
  where
    at :
        (j : ℕ)
        → inode_at (set_inode d inum (record (inode_at d inum) { type = 0 })) j
          ≡ (if j == inum then record (inode_at d inum) { type = 0 } else inode_at d j)
    at j = inode_at-set_inode d inum j _ (freed-Fits _ (inode_at-Fits d inum h))
