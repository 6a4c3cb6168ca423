-- ===== src/Files/Represents.antt =====
-- When a disk holds the files of a map.
use file_system.Base.{
  ℕ, ◌*◌, ◌^◌, ◌≤◌, ◌<◌, ◌≡◌, ◌≢◌, ◌⊎◌, inl, inr, sym, ◌∙◌, true, Option, none, some, arith, update,
  eq_or_ne, update_same, update_other, subst,
}
use file_system.Base.Lists.{length}
use file_system.Disk.{Disk, block_num}
use file_system.Disk.Laws.{IsBytes}
use file_system.BlockLayer.Bitmap.{used}
use file_system.BlockLayer.Alloc.{first_data}
use file_system.Inode.{Inode}
use file_system.Inode.Table.{inode_at}
use file_system.InodeLayer.Write.Stored.{Holds, IsBuffer}
use file_system.Server.Laws.{content}
use file_system.Files.{File, Files}

-- The struct of inode i and the blocks that it names hold the file.
pub record IsEntry (d : Disk) (ino : Inode) (x : File) : Type 0 where
  pub type : ino.type ≡ x.type
  pub positive : 0 < x.type
  pub fits : x.type < 2 ^ 15
  pub size : ino.size ≡ length x.content
  pub short : length x.content ≤ 4096
  pub bytes : IsBuffer (content x.content)
  pub held :
      (j : ℕ)
      → 512 * j < length x.content
      → Holds (content x.content) (length x.content) d j (ino.blocks j)
  pub clear : (j : ℕ) → length x.content ≤ 512 * j → ino.blocks j ≡ 0

abbrev pub Entry : Disk → Inode → Option File → Type 0
Entry d ino none = ino.type ≡ 0
Entry d ino (some x) = IsEntry d ino x

-- Cell k of the struct names a block of the file.
abbrev pub IsLive : Inode → ℕ → Type 0
IsLive ino k = (ino.type ≢ 0) × (512 * k < ino.size)

-- Each inode holds its file, and no block belongs to two cells.
pub record Represents (d : Disk) (f : Files) : Type 0 where
  pub bytes : IsBytes d
  pub entry : (i : ℕ) → i < 1024 → Entry d (inode_at d i) (f i)
  pub apart :
      (i j k l : ℕ)
      → i < 1024
      → j < 1024
      → IsLive (inode_at d i) k
      → IsLive (inode_at d j) l
      → (i ≢ j) ⊎ (k ≢ l)
      → (inode_at d i).blocks k ≢ (inode_at d j).blocks l

-- A live cell names a data block that is allocated.
pub record IsTaken (d : Disk) (y : ℕ) : Type 0 where
  pub low : first_data ≤ y
  pub high : y < block_num
  pub marked : used d y ≡ true

pub Entry-IsTaken :
    (d : Disk) (ino : Inode) (o : Option File) (k : ℕ)
    → Entry d ino o
    → IsLive ino k
    → IsTaken d (ino.blocks k)
Entry-IsTaken d ino none k e live = absurd (live.0 e)
Entry-IsTaken d ino (some x) k e live =
    let h = e.held k (omega (arith, e.size, live.1)) in
    record { low = h.low; high = h.high; marked = h.marked }

-- A file whose struct and blocks are as before.
pub Entry-same :
    (d d' : Disk) (ino : Inode) (o : Option File)
    → Entry d ino o
    → ((k : ℕ)
        → IsLive ino k
        → (used d' (ino.blocks k) ≡ true) × (d' (ino.blocks k) ≡ d (ino.blocks k)))
    → Entry d' ino o
Entry-same d d' ino none e same = e
Entry-same d d' ino (some x) e same = record {
  type = e.type;
  positive = e.positive;
  fits = e.fits;
  size = e.size;
  short = e.short;
  bytes = e.bytes;
  held = λ j lt.
      let h = e.held j lt in
      let (marked, kept) = same j (λ z. omega (arith, e.type, e.positive), omega (arith, e.size)) in
      record {
        low = h.low;
        high = h.high;
        marked = marked;
        bytes = λ i within. rw kept (h.bytes i within);
      };
  clear = e.clear;
}

-- A change of one inode that leaves what the others hold alone.
module _ (d d' : Disk) (f : Files) (r : Represents d f) (id : ℕ) (o : Option File)
    (bytes : IsBytes d') (entry : Entry d' (inode_at d' id) o)
    (others : (i : ℕ) → i < 1024 → i ≢ id → inode_at d' i ≡ inode_at d i)
    (survives : (i k : ℕ)
      → i < 1024
      → i ≢ id
      → IsLive (inode_at d i) k
      → (used d' ((inode_at d i).blocks k) ≡ true)
        × (d' ((inode_at d i).blocks k) ≡ d ((inode_at d i).blocks k)))
    (own : (k l : ℕ)
      → IsLive (inode_at d' id) k
      → IsLive (inode_at d' id) l
      → k ≢ l
      → (inode_at d' id).blocks k ≢ (inode_at d' id).blocks l)
    (cross : (j k l : ℕ)
      → j < 1024
      → j ≢ id
      → IsLive (inode_at d' id) k
      → IsLive (inode_at d j) l
      → (inode_at d' id).blocks k ≢ (inode_at d j).blocks l) where
  entry-update : (i : ℕ) → i < 1024 → Entry d' (inode_at d' i) (update f id o i)
  entry-update i lt = elim (eq_or_ne i id) [
    | inl e ↦ rw (e, update_same f id o) entry
    | inr ne ↦
        rw (others i lt ne, update_other f id o i ne)
          (Entry-same d d' (inode_at d i) (f i) (r.entry i lt) (λ k live. survives i k lt ne live))
  ]

  apart-update :
      (i j k l : ℕ)
      → i < 1024
      → j < 1024
      → IsLive (inode_at d' i) k
      → IsLive (inode_at d' j) l
      → (i ≢ j) ⊎ (k ≢ l)
      → (inode_at d' i).blocks k ≢ (inode_at d' j).blocks l
  apart-update i j k l hi hj li lj ne =
      let here = λ (x m : ℕ) (e : x ≡ id) (live : IsLive (inode_at d' x) m).
        subst (λ (y : ℕ). IsLive (inode_at d' y) m) e live in
      let there = λ (x m : ℕ) (h : x < 1024) (n : x ≢ id) (live : IsLive (inode_at d' x) m).
        subst (λ (y : Inode). IsLive y m) (others x h n) live in
      elim (eq_or_ne i id) [
        | inl ei ↦ elim (eq_or_ne j id) [
          | inl ej ↦ rw (ei, ej) (own k l (here i k ei li) (here j l ej lj) (differ ei ej ne))
          | inr nj ↦
              rw (ei, others j hj nj) (cross j k l hj nj (here i k ei li) (there j l hj nj lj))
        ]
        | inr ni ↦ elim (eq_or_ne j id) [
          | inl ej ↦
              rw (ej, others i hi ni)
                (λ e. cross i l k hi ni (here j l ej lj) (there i k hi ni li) (sym e))
          | inr nj ↦
              rw (others i hi ni, others j hj nj)
                (r.apart i j k l hi hj (there i k hi ni li) (there j l hj nj lj) ne)
        ]
      ]
    where
      differ : {i j k l : ℕ} → i ≡ id → j ≡ id → (i ≢ j) ⊎ (k ≢ l) → k ≢ l
      differ ei ej (inl n) = absurd (n (ei ∙ sym ej))
      differ ei ej (inr n) = n

  pub Represents-update : Represents d' (update f id o)
  Represents-update = record { bytes = bytes; entry = entry-update; apart = apart-update }
