-- ===== src/Files/Removing.antt =====
-- remove: remove_file takes the file away, and nothing from the others.
use file_system.Base.{
  ==_of_eq, ==_of_ne, ℕ, ◌+◌, ◌-◌, ◌≤◌, ◌<◌, ◌≡◌, ◌≢◌, inl, inr, refl, ◌∙◌, ap, none, some, arith,
  update, ok, bind-ok, subst, le→ltb, lt→leb, ◌^◌,
}
use file_system.Base.Int.{to_int-small}
use file_system.Disk.{Disk, Stack, block_num}
use file_system.BlockLayer.{mounted}
use file_system.BlockLayer.Bitmap.{used}
use file_system.BlockLayer.Alloc.{first_data}
use file_system.BlockLayer.Space.{free_count, free_count-same}
use file_system.Inode.{Inode}
use file_system.Inode.Codec.{Fits}
use file_system.Inode.Table.{
  inode_at, inode_at-same, set_inode, set_inode-elsewhere, used-set_inode, set_inode-IsBytes,
  get_inode-mounted, inode_at-set_inode, inode_at-Fits, find_inode, find_inode-same,
}
use file_system.InodeLayer.{free_inode}
use file_system.InodeLayer.Alloc.{free_inode_lem}
use file_system.InodeLayer.RoundTrip.{find_inode-IsFile}
use file_system.InodeLayer.Remove.{remove_file, free_blocks, free_blocks_rest}
use file_system.InodeLayer.Write.Freeing.{free_direct-Freed}
use file_system.BlockLayer.Pointers.{Freed}
use file_system.Files.{File, Files}
use file_system.Files.Represents.{IsEntry, IsLive, Represents, Entry-IsTaken, Represents-update}
use file_system.Files.Reading.{IsEntry-IsFile}
use file_system.Files.Writing.{named_other}

module _ (stack : Stack) (w : ℕ) (fits : first_data + w ≤ block_num) (d : Disk) (f : Files)
    (r : Represents d f) (id : ℕ) (lt : id < 1024) (x : File)
    (e : IsEntry d (inode_at d id) x) where
  -- A file in the direct section has nothing behind its direct blocks.
  free_blocks-short :
      (d₁ : Disk) → free_blocks_rest stack (inode_at d id) (mounted d₁) ≡ ok tt (mounted d₁)
  unfolding free_blocks_rest
  free_blocks-short d₁ =
      let small : (inode_at d id).size < 2 ^ 31 = omega (arith, e.size, e.short) in
      rw
        (
          lt→leb (2 ^ 31) (inode_at d id).size small,
          to_int-small (inode_at d id).size small,
          le→ltb 0 ((inode_at d id).size - 4096) (omega (arith, e.size, e.short)),
        )
        refl

  -- The struct with type 0 stored behind the frees.
  module _ (d₁ : Disk) (f₁ : Freed w d d₁)
      (keep : (y : ℕ)
        → ((k : ℕ) → 0 ≤ k → k < 0 + 8 → y ≢ (inode_at d id).blocks k)
        → used d₁ y ≡ used d y) where
    abbrev gone_inode : Inode
    gone_inode = record (inode_at d₁ id) { type = 0 }

    abbrev d₂ : Disk
    d₂ = set_inode d₁ id gone_inode

    gone-Fits : Fits gone_inode
    gone-Fits =
        let f = inode_at-Fits d₁ id f₁.bytes in
        record {
          type = omega arith;
          size = f.size;
          atime = f.atime;
          mtime = f.mtime;
          ctime = f.ctime;
          blocks = f.blocks;
          beyond = f.beyond;
        }

    here : inode_at d₂ id ≡ gone_inode
    here = inode_at-set_inode d₁ id id gone_inode gone-Fits ∙ rw (==_of_eq id id refl) refl

    dead : (k : ℕ) → IsLive (inode_at d₂ id) k → ⊥
    dead k live = (subst (λ (ino : Inode). IsLive ino k) here live).0 refl

    removed-Represents : Represents d₂ (update f id none)
    removed-Represents =
        Represents-update d d₂ f r id none (set_inode-IsBytes d₁ id gone_inode f₁.bytes)
          (ap (λ (ino : Inode). ino.type) here)
          (λ i small ne.
            inode_at-set_inode d₁ id i gone_inode gone-Fits
            ∙ (rw (==_of_ne i id ne) (inode_at-same d d₁ (λ j lo hi. f₁.behind j lo) i small)))
          (λ i k small ne live.
            let y = Entry-IsTaken d (inode_at d i) (f i) k (r.entry i small) live in
            (
              used-set_inode d₁ id _ gone_inode lt y.high
                  ∙ keep _ (λ c _ _. named_other d f id i k x r e lt small ne live c)
                  ∙ y.marked,
              set_inode-elsewhere d₁ id _ gone_inode lt (inr y.low)
                  ∙ f₁.behind _ (omega (arith, y.low)),
            ))
          (λ k l live _ _. absurd (dead k live)) (λ j k l _ _ live _. absurd (dead k live))

    removed-room : free_count d w first_data ≤ free_count d₂ w first_data
    removed-room = omega (
      arith,
      f₁.room,
      free_count-same d₁ d₂ (λ i h. set_inode-elsewhere d₁ id i gone_inode lt (inl h)) w first_data
          fits,
    )

    free_inode-removed : free_inode stack id (mounted d₁) ≡ ok tt (mounted d₂)
    free_inode-removed = elim (free_inode_lem stack id d₁ f₁.bytes) [
      | inl (missing, _) ↦
          let found : find_inode d₁ id ≡ some (inode_at d id) =
            find_inode-same d d₁ id (inode_at-same d d₁ (λ j lo hi. f₁.behind j lo) id lt)
            ∙ find_inode-IsFile d id (IsEntry-IsFile d id x lt r.bytes e) in
          cc
      | inr (d', run, _, _, set, _, _) ↦ run ∙ ap (λ (d : Disk). ok tt (mounted d)) set
    ]

  -- Afterwards the map has no file there.
  pub remove_file-Represents :
      (d' : Disk) × (remove_file stack id (mounted d) ≡ ok tt (mounted d'))
      × Represents d' (update f id none)
      × (free_count d w first_data ≤ free_count d' w first_data)
  unfolding remove_file free_blocks
  remove_file-Represents =
      let file = IsEntry-IsFile d id x lt r.bytes e in
      let (d₁, e₁, f₁, _, keep) =
        free_direct-Freed stack w (inode_at d id) 8 0 d r.bytes (omega arith) file.pointers in
      (
        set_inode d₁ id (record (inode_at d₁ id) { type = 0 }),
        bind-ok _ (get_inode-mounted stack d id)
            ∙ rw (find_inode-IsFile d id file, e₁, free_blocks-short d₁)
                (free_inode-removed d₁ f₁ keep),
        removed-Represents d₁ f₁ keep,
        removed-room d₁ f₁ keep,
      )
