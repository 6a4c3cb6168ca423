-- ===== src/Files/Writing.antt =====
-- put: write_file gives the file its new contents, and no other file another.
use file_system.Base.{
  ℕ, List, ◌*◌, ◌≤◌, ◌<◌, ◌≡◌, ◌≢◌, inl, inr, refl, ◌∙◌, ap, some, arith, update, lt_or_ge, subst,
}
use file_system.Base.Lists.{length}
use file_system.Disk.{Disk}
use file_system.Inode.{Inode}
use file_system.Inode.Table.{inode_at}
use file_system.InodeLayer.Write.Stored.{IsBuffer}
use file_system.InodeLayer.Write.Contents.{IsStored, Replaced}
use file_system.Server.Laws.{content}
use file_system.Files.{File, Files, block_count}
use file_system.Files.Represents.{
  IsEntry, IsLive, Represents, IsTaken, Entry-IsTaken, Represents-update,
}

-- What an inode names is a live block or block 0.
pub named_other :
    (d : Disk) (f : Files) (id i k : ℕ) (x : File)
    → Represents d f
    → IsEntry d (inode_at d id) x
    → id < 1024
    → i < 1024
    → i ≢ id
    → IsLive (inode_at d i) k
    → (c : ℕ) → (inode_at d i).blocks k ≢ (inode_at d id).blocks c
named_other d f id i k x r e lt small ne live c = elim (lt_or_ge (512 * c) (length x.content)) [
  | inl short ↦
      r.apart i id k c small lt live (λ z. omega (arith, e.type, e.positive), omega (arith, e.size))
        (inl ne)
  | inr long ↦
      let y = Entry-IsTaken d (inode_at d i) (f i) k (r.entry i small) live in
      λ q. omega (arith, y.low, e.clear c long)
]

module _ (d d' : Disk) (f : Files) (r : Represents d f) (id : ℕ) (lt : id < 1024) (x : File)
    (e : IsEntry d (inode_at d id) x) (s : List ℕ) (s_bytes : IsBuffer (content s))
    (short : length s ≤ 4096) (grows : block_count (length x.content) ≤ block_count (length s))
    (w : ℕ) (blocks : ℕ → ℕ) (stored : IsStored (content s) (length s) id (inode_at d id) blocks d')
    (change : Replaced w (length s) id (inode_at d id) blocks d d') where
  abbrev new_inode : Inode
  new_inode = record (inode_at d id) { size = length s; blocks = blocks }

  written-IsEntry : IsEntry d' new_inode (record x { content = s })
  written-IsEntry = record {
    type = e.type;
    positive = e.positive;
    fits = e.fits;
    size = refl;
    short = short;
    bytes = s_bytes;
    held = λ j h.
        let b = stored.held j h in
        record {
          low = b.0;
          high = b.1.high;
          marked = change.marked j h (λ q. omega (arith, b.0, e.clear 8 (omega (arith, e.short))));
          bytes = b.1.bytes;
        };
    clear = λ j h. change.later j h ∙ e.clear j (omega arith);
  }

  -- A live block of another file.
  other_occupied :
      (i k : ℕ) → i < 1024 → i ≢ id → IsLive (inode_at d i) k → IsTaken d ((inode_at d i).blocks k)
  other_occupied i k small ne live = Entry-IsTaken d (inode_at d i) (f i) k (r.entry i small) live

  written_blocks : (inode_at d' id).blocks ≡ blocks
  written_blocks = ap (λ (ino : Inode). ino.blocks) stored.at

  written_live : (k : ℕ) → IsLive (inode_at d' id) k → 512 * k < length s
  written_live k live = (subst (λ (ino : Inode). IsLive ino k) stored.at live).1

  pub written-Represents : Represents d' (update f id (some (record x { content = s })))
  written-Represents =
      Represents-update d d' f r id (some (record x { content = s })) stored.bytes
        (rw stored.at written-IsEntry) (λ i small ne. change.inodes i small ne)
        (λ i k small ne live.
          let y = other_occupied i k small ne live in
          change.survives _ y.low y.high y.marked
            (λ c _. named_other d f id i k x r e lt small ne live c))
        (λ k l lk ll ne.
          rw written_blocks (change.apart k l (written_live k lk) (written_live l ll) ne))
        (λ j k l small ne lk ll. rw written_blocks (
          change.fresh k _ (written_live k lk) (other_occupied j l small ne ll).marked
            (λ c _. named_other d f id j l x r e lt small ne ll c)))
