-- ===== src/Files/Creation.antt =====
-- create: the first inode that is not in use becomes an empty file.
use file_system.Base.{
  ℕ, zero, suc, ◌+◌, ◌^◌, ◌≤◌, ◌<◌, ◌≡◌, inl, inr, refl, ◌∙◌, Option, none, some, arith, update,
  eq_or_ne, ok, lt→leb, ==_of_ne, Option-cases, [], subst,
}
use file_system.Disk.{Disk, Stack}
use file_system.BlockLayer.{mounted}
use file_system.BlockLayer.Space.{used-same}
use file_system.Inode.{Inode}
use file_system.Inode.Table.{inode_at, find_inode, find_inode-type_zero}
use file_system.InodeLayer.{alloc_inode, new_inode}
use file_system.InodeLayer.Alloc.{alloc_inode_lem, IsFirstUnused, Slot}
use file_system.Files.{File, Files, first_absent}
use file_system.Files.Represents.{
  IsEntry, Entry, IsLive, Represents, Entry-IsTaken, Represents-update,
}

-- What get_inode finds, by the files.
pub find_inode-absent :
    (d : Disk) (i : ℕ) (o : Option File)
    → Entry d (inode_at d i) o
    → o ≡ none
    → find_inode d i ≡ none
find_inode-absent d i none e p = find_inode-type_zero d i e
find_inode-absent d i (some x) e p = cc

pub find_inode-present :
    (d : Disk) (i : ℕ) (x : File)
    → i < 1024
    → Entry d (inode_at d i) (some x)
    → find_inode d i ≡ some (inode_at d i)
unfolding find_inode
find_inode-present d i x lt e =
    rw (lt→leb 1024 i lt, ==_of_ne (inode_at d i).type 0 (omega (arith, e.type, e.positive))) refl

module _ (d : Disk) (f : Files) (r : Represents d f) where
  entry_of : (i : ℕ) (o : Option File) → i < 1024 → f i ≡ o → Entry d (inode_at d i) o
  entry_of i o lt e = subst (λ (p : Option File). Entry d (inode_at d i) p) e (r.entry i lt)

  first_absent-eq :
      (k from x : ℕ) → from + k ≤ 1024 → IsFirstUnused d k from x → first_absent f k from ≡ x
  unfolding first_absent
  first_absent-eq zero from x fits u = absurd (omega (arith, u.low, u.high))
  first_absent-eq (suc k) from x fits u = elim (Option-cases (f from)) [
    | inl e ↦
        rw (e, first_absent)
          (elim (eq_or_ne from x) [
            | inl same ↦ same
            | inr ne ↦
                let (i, found) = u.first from (omega arith) (omega (arith, u.low)) in
                let gone =
                  find_inode-absent d from none (entry_of from none (omega arith) e) refl in
                cc
          ])
    | inr (y, e) ↦
        rw (e, first_absent)
          (first_absent-eq k (suc from) x (omega arith) (elim (eq_or_ne from x) [
            | inl same ↦
                let found =
                  find_inode-present d from y (omega arith)
                    (entry_of from (some y) (omega arith) e) in
                let gone = u.unused in absurd (clash from x same found gone)
            | inr ne ↦ record {
              low = omega (arith, u.low);
              high = omega (arith, u.high);
              unused = u.unused;
              first = λ j lo hi. u.first j (omega arith) hi;
            }
          ]))
  ]
    where
      clash : (a b : ℕ) → a ≡ b → find_inode d a ≡ some (inode_at d a) → find_inode d b ≡ none → ⊥
      clash a b same found gone = let gone' : find_inode d a ≡ none = rw same gone in cc

  Slot-first_absent :
      (id x : ℕ) → id < 1024 → f id ≡ none → Slot d 1024 0 x → first_absent f 1024 0 ≡ x
  Slot-first_absent id x lt gone (inl u) = first_absent-eq 1024 0 x (omega arith) u
  Slot-first_absent id x lt gone (inr (z, all)) =
      let (i, found) = all id (omega arith) (omega arith) in
      let missing = find_inode-absent d id none (entry_of id none lt gone) refl in cc

  new-IsEntry :
      (d' : Disk) (t : ℕ) (time : ℕ → ℕ)
      → 0 < t
      → t < 2 ^ 15
      → IsEntry d' (new_inode t time) (record { type = t; content = [] })
  new-IsEntry d' t time lo hi = record {
    type = omega arith;
    positive = lo;
    fits = hi;
    size = refl;
    short = omega arith;
    bytes = λ i. omega arith;
    held = λ j lt. absurd (omega arith);
    clear = λ j le. refl;
  }

  -- alloc_inode gives the first id without a file, which then has an empty one.
  pub alloc_inode-Represents :
      (stack : Stack) (t : ℕ) (time : ℕ → ℕ) (id : ℕ)
      → 0 < t
      → t < 2 ^ 15
      → id < 1024
      → f id ≡ none
      → (d' : Disk) × (alloc_inode stack t time (mounted d)
          ≡ ok (first_absent f 1024 0) (mounted d'))
        × Represents d'
            (update f (first_absent f 1024 0) (some (record { type = t; content = [] })))
        × ((i : ℕ) → i < 9 → d' i ≡ d i)
  alloc_inode-Represents stack t time id lo hi lt gone =
      let (x, d', e, slot, at, others, kept, bytes) = alloc_inode_lem stack t time d in
      let first = Slot-first_absent id x lt gone slot in
      let empty = λ (k : ℕ) (live : IsLive (inode_at d' x) k). none_live d' x k at live in
      (
        d',
        rw first e,
        rw first (
            Represents-update d d' f r x (some (record { type = t; content = [] })) (bytes r.bytes)
              (rw at (new-IsEntry d' t time lo hi)) (λ i _ ne. others i ne)
              (λ i k small ne live.
                let y = Entry-IsTaken d (inode_at d i) (f i) k (r.entry i small) live in
                (
                  used-same d d' (λ j h. kept j (inl h)) ((inode_at d i).blocks k) y.high
                      ∙ y.marked,
                  kept ((inode_at d i).blocks k) (inr y.low),
                ))
              (λ k l live _ _. absurd (empty k live)) (λ j k l _ _ live _. absurd (empty k live))),
        λ i h. kept i (inl h),
      )
    where
      none_live :
          (d' : Disk) (x k : ℕ) → inode_at d' x ≡ new_inode t time → IsLive (inode_at d' x) k → ⊥
      none_live d' x k at live =
          let live' = subst (λ (y : Inode). IsLive y k) at live in omega (arith, live'.1)
