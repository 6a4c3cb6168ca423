-- ===== src/Files/Reading.antt =====
-- get: read_file gives the contents, and changes the access time alone.
use file_system.Base.{
  fun_ext, ap, lt_or_ge, ℕ, ◌*◌, ◌<◌, ◌≡◌, inl, inr, refl, sym, ◌∙◌, true, Option, none, some,
  arith, update, eq_or_ne, subst, ==_of_eq, ==_of_ne, lt_or_ge,
}
use file_system.Base.Lists.{length}
use file_system.Disk.{Disk}
use file_system.Disk.Laws.{IsBytes}
use file_system.BlockLayer.Pointers.{IsPointer}
use file_system.Inode.{Inode}
use file_system.Inode.Codec.{Fits}
use file_system.Inode.Table.{
  inode_at, set_inode, inode_at-set_inode, inode_at-Fits, set_inode-elsewhere, used-set_inode,
  set_inode-IsBytes,
}
use file_system.InodeLayer.Write.Contents.{IsStored}
use file_system.InodeLayer.RoundTrip.{IsFile}
use file_system.InodeLayer.Read.Whole.{touched}
use file_system.Server.Laws.{content}
use file_system.Files.{File, Files}
use file_system.Files.Represents.{
  IsEntry, Entry, IsLive, Represents, IsTaken, Entry-IsTaken, Entry-same, Represents-update,
}
use file_system.BlockLayer.Bitmap.{used}

module _ (d : Disk) (i : ℕ) (x : File) (lt : i < 1024) (bytes : IsBytes d)
    (e : IsEntry d (inode_at d i) x) where
  blocks-IsPointer : (k : ℕ) → k < 9 → IsPointer ((inode_at d i).blocks k)
  blocks-IsPointer k h = elim (lt_or_ge (512 * k) (length x.content)) [
    | inl live ↦ inl (e.held k live).high
    | inr old ↦ inl (rw (e.clear k old) (omega arith))
  ]

  pub IsEntry-IsFile : IsFile d i
  IsEntry-IsFile = record {
    small = lt;
    bytes = bytes;
    in_use = λ z. omega (arith, e.type, e.positive);
    pointers = blocks-IsPointer;
  }

  pub IsEntry-IsStored :
      IsStored (content x.content) (length x.content) i (inode_at d i) (inode_at d i).blocks d
  IsEntry-IsStored =
      let same : record (inode_at d i) { size = length x.content } ≡ inode_at d i =
        ap (λ (n : ℕ). record (inode_at d i) { size = n }) (sym e.size) in
      record {
        at = sym same;
        fits = rw same (inode_at-Fits d i bytes);
        pointers = blocks-IsPointer;
        held = λ j h. let b = e.held j h in (b.low, record { high = b.high; bytes = b.bytes });
        bytes = bytes;
      }

-- A file does not depend on the access time.
touched-Entry :
    (now : ℕ) (d : Disk) (ino : Inode) (o : Option File)
    → Entry d ino o
    → Entry d (touched ino now) o
touched-Entry now d ino none e = e
touched-Entry now d ino (some x) e = record {
  type = e.type;
  positive = e.positive;
  fits = e.fits;
  size = e.size;
  short = e.short;
  bytes = e.bytes;
  held = e.held;
  clear = e.clear;
}

pub update_idle : (f : Files) (id : ℕ) → update f id (f id) ≡ f
update_idle f id = fun_ext λ j. elim (eq_or_ne j id) [
  | inl e ↦ rw (e, ==_of_eq id id refl) refl
  | inr ne ↦ rw (==_of_ne j id ne) refl
]

-- A new access time.
module _ (d : Disk) (f : Files) (r : Represents d f) (id now : ℕ) (lt : id < 1024) where
  abbrev later : Disk
  later = set_inode d id (touched (inode_at d id) now)

  touched-Fits : Fits (touched (inode_at d id) now)
  touched-Fits =
      let f = inode_at-Fits d id r.bytes in
      record {
        type = f.type;
        size = f.size;
        atime = omega arith;
        mtime = f.mtime;
        ctime = f.ctime;
        blocks = f.blocks;
        beyond = f.beyond;
      }

  here : inode_at later id ≡ touched (inode_at d id) now
  here = inode_at-set_inode d id id _ touched-Fits ∙ rw (==_of_eq id id refl)

  kept : (y : ℕ) → IsTaken d y → (used later y ≡ true) × (later y ≡ d y)
  kept y t =
      (used-set_inode d id y _ lt t.high ∙ t.marked, set_inode-elsewhere d id y _ lt (inr t.low))

  here_blocks : (inode_at later id).blocks ≡ (inode_at d id).blocks
  here_blocks = ap (λ (ino : Inode). ino.blocks) here

  here-IsLive : (k : ℕ) → IsLive (inode_at later id) k → IsLive (inode_at d id) k
  here-IsLive k live = subst (λ (ino : Inode). IsLive ino k) here live

  pub touched-Represents : Represents later f
  touched-Represents = subst (Represents later) (update_idle f id) (
      Represents-update d later f r id (f id) (set_inode-IsBytes d id _ r.bytes)
        (rw here (
          touched-Entry now later (inode_at d id) (f id) (
            Entry-same d later (inode_at d id) (f id) (r.entry id lt)
              (λ k live. kept _ (Entry-IsTaken d (inode_at d id) (f id) k (r.entry id lt) live)))))
        (λ i _ ne. inode_at-set_inode d id i _ touched-Fits ∙ rw (==_of_ne i id ne) refl)
        (λ i k small _ live. kept _ (Entry-IsTaken d (inode_at d i) (f i) k (r.entry i small) live))
        (λ k l lk ll ne.
          rw here_blocks (r.apart id id k l lt lt (here-IsLive k lk) (here-IsLive l ll) (inr ne)))
        (λ j k l small ne lk ll.
          rw here_blocks (r.apart id j k l lt small (here-IsLive k lk) ll (inl (λ e. ne (sym e))))))
