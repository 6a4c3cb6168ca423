-- ===== src/Files/Requests.antt =====
-- One request of a client: its answer and the files after it are those of the map.
use file_system.Files.Handling.{handle, AllIdle, AllIdle-update, Answers}
use file_system.Base.{
  Run, lt→ltb, ℕ, ◌+◌, ◌*◌, ◌≤◌, ◌<◌, ◌≡◌, refl, ◌∙◌, sym, ok, some, none, Option, Option-cases,
  arith, update, bind-ok, List, [], ◌∷◌, inl, inr, subst, ap,
}
use file_system.Base.Int.{ℤ, pos, decrement}
use file_system.Disk.{Disk, Stack, Block, block_num, direct_buffer}
use file_system.BlockLayer.{mounted}
use file_system.BlockLayer.Alloc.{first_data}
use file_system.BlockLayer.Space.{free_count, free_count-same}
use file_system.RwLock.{RwLock}
use file_system.RwLock.Idle.{idle, held_by_reader, held_by_writer}
use file_system.InodeLayer.{InodeLayer}
use file_system.InodeLayer.Locks.{layer, after_reader, after_writer, on_bm-ok}
use file_system.InodeLayer.Write.Stored.{IsBuffer}
use file_system.Server.{inum_of, Status, ok_status}
use file_system.Client
use file_system.Server
use file_system.Server.Laws.{missing_id, put_lem, get_lem, no_attributes, content}
use file_system.Inode.{Inode}
use file_system.Inode.Table.{find_inode, inode_at, set_inode, set_inode-elsewhere}
use file_system.InodeLayer.{alloc_inode, getattr}
use file_system.InodeLayer.Alloc.{getattr-mounted, attr_of}
use file_system.InodeLayer.Remove.{remove_file}
use file_system.InodeLayer.RoundTrip.{write_file-IsStored, read_file-stored}
use file_system.InodeLayer.Read.Whole.{touched}
use file_system.Files.Creation.{alloc_inode-Represents, find_inode-absent, find_inode-present}
use file_system.Files.Reading.{IsEntry-IsFile, IsEntry-IsStored, touched-Represents, update_idle}
use file_system.Files.Writing.{written-Represents}
use file_system.Files.Removing.{remove_file-Represents}
use file_system.Base.Lists.{length}
use file_system.Files.{
  rewritten, attributes_of, File, Files, Request, create, put, get, get_attributes, remove, Reply,
  attributes, reply, next, Allowed, puts,
}
use file_system.Files.Represents.{Represents, IsEntry, Entry}
use file_system.Inode.Table.{find_inode, inode_at}
use file_system.Files.Creation.{find_inode-absent}

module _ (stack : Stack) (stack_bytes : (k : ℕ) → IsBuffer (stack direct_buffer k)) (clock : ℕ → ℕ)
    (w : ℕ) (fits : first_data + w ≤ block_num) (d : Disk) (locks : ℕ → RwLock) (f : Files)
    (r : Represents d f) (free : AllIdle locks) where
  create_lem :
      (t : ℕ)
      → Allowed (create t) f
      → (d' : Disk) × Answers stack clock w (create t) d locks f d' locks
  unfolding handle reply next Client.create Server.create
  create_lem t (lo, hi, id, lt, gone) =
      let (d', e, files, low) = alloc_inode-Represents d f r stack t clock id lo hi lt gone in
      (
        d',
        record {
          run = bind-ok _ (bind-ok _ (bind-ok _ (on_bm-ok (alloc_inode stack t clock) locks e)));
          files = files;
          free = free;
          room = omega (arith, free_count-same d d' low w first_data fits);
        },
      )

  -- The operations at one id, which is its own inode number.
  module _ (id : ℕ) (lt : id < 1024) where
    own_inum : inum_of id ≡ id
    own_inum = omega arith

    present : (x : File) → f id ≡ some x → IsEntry d (inode_at d id) x
    present x e = subst (λ (o : Option File). Entry d (inode_at d id) o) e (r.entry id lt)

    absent : f id ≡ none → find_inode d id ≡ none
    absent e = find_inode-absent d id (f id) (r.entry id lt) e

    idle_lock : locks (inum_of id) ≡ idle (free id lt).0
    idle_lock = rw own_inum (free id lt).1

    -- A change of the map to what it has already.
    unchanged : (o : Option File) → o ≡ f id → Represents d (update f id o)
    unchanged o e = subst (Represents d) (sym (ap (update f id) e ∙ update_idle f id)) r

    after_put : AllIdle (after_writer locks id (free id lt).0)
    after_put = AllIdle-update locks id (held_by_writer (free id lt).0) (free id lt).0 free

    after_get : AllIdle (after_reader locks id (free id lt).0)
    after_get =
        AllIdle-update locks id (held_by_reader (free id lt).0) (decrement (free id lt).0) free

    missing : f id ≡ none → find_inode d (inum_of id) ≡ none
    missing gone = rw own_inum (absent gone)

    put_absent :
        (s : List ℕ)
        → f id ≡ none
        → Answers stack clock w (put id s) d locks f d (after_writer locks id (free id lt).0)
    unfolding handle reply next Client.put
    put_absent s gone = record {
      run = bind-ok _ (
          bind-ok _ (
            rw own_inum at
              (missing_id stack id (clock 0) s d locks (free id lt).0 (rw own_inum lt)
                (missing gone) idle_lock).0));
      files = unchanged (rewritten s (f id)) (rw gone refl);
      free = after_put;
      room = omega arith;
    }

    put_present :
        (s : List ℕ) (x : File)
        → f id ≡ some x
        → Allowed (put id s) f
        → 8 ≤ free_count d w first_data
        → (d' : Disk) × Answers stack clock w
            (put id s)
            d
            locks
            f
            d'
            (after_writer locks id (free id lt).0)
    unfolding handle reply next Client.put
    put_present s x there (_, short, bytes, grows) room =
        let e = present x there in
        let file = IsEntry-IsFile d id x lt r.bytes e in
        let (d', run, blocks, stored, change) =
          write_file-IsStored stack stack_bytes (content s) bytes (length s) short id w d locks
            (free id lt).0 fits file room (free id lt).1 in
        (
          d',
          record {
            run = bind-ok _ (
                bind-ok _ (
                  put_lem stack id s (layer (mounted d) locks)
                    (layer (mounted d') (after_writer locks id (free id lt).0)) (omega arith)
                    (rw own_inum run)));
            files = rw there (
                written-Represents d d' f r id lt x e s bytes short (rw there at grows) w blocks
                  stored change);
            free = after_put;
            room = omega (arith, change.spent);
          },
        )

    get_absent :
        f id ≡ none
        → Answers stack clock w (get id) d locks f d (after_reader locks id (free id lt).0)
    unfolding handle reply next Client.get
    get_absent gone = record {
      run = rw gone (
          bind-ok _ (
            bind-ok _ (
              rw own_inum at
                (missing_id stack id (clock 0) [] d locks (free id lt).0 (rw own_inum lt)
                  (missing gone) idle_lock).1)));
      files = r;
      free = after_get;
      room = omega arith;
    }

    get_present :
        (x : File)
        → f id ≡ some x
        → (d' : Disk) × Answers stack clock w
            (get id)
            d
            locks
            f
            d'
            (after_reader locks id (free id lt).0)
    unfolding handle reply next Client.get
    get_present x there =
        let e = present x there in
        let (out, run, same) =
          read_file-stored stack stack_bytes (content x.content) e.bytes (length x.content) e.short
            id (clock 0) (inode_at d id) (inode_at d id).blocks d locks (free id lt).0 lt
            (λ z. omega (arith, e.type, e.positive)) (free id lt).1
            (IsEntry-IsStored d id x lt r.bytes e) in
        let d' : Disk = set_inode d id (touched (inode_at d id) (clock 0)) in
        let sized : record (inode_at d id) { size = length x.content } ≡ inode_at d id =
          ap (λ (n : ℕ). record (inode_at d id) { size = n }) (sym e.size) in
        let after_touch : Inode → Run InodeLayer (Option (ℤ × Block)) = λ ino.
          ok (some (pos (length x.content), out)) (
            layer (mounted (set_inode d id (touched ino (clock 0))))
              (after_reader locks id (free id lt).0)) in
        (
          d',
          record {
            run = rw there (
                bind-ok _ (
                  bind-ok _ (
                    get_lem stack id (clock 0) x.content out (layer (mounted d) locks)
                      (layer (mounted d') (after_reader locks id (free id lt).0))
                      (rw own_inum (run ∙ ap after_touch sized)) same)));
            files = touched-Represents d f r id (clock 0) lt;
            free = after_get;
            room = omega (
              arith,
              free_count-same d d' (λ i h. set_inode-elsewhere d id i _ lt (inl h)) w first_data
                  fits,
            );
          },
        )

    shown :
        (o : Option File)
        → Entry d (inode_at d id) o
        → (found : Option Inode) → found ≡ find_inode d id
        → attributes (attr_of no_attributes found).type (attr_of no_attributes found).size
          ≡ attributes_of o
    shown none e none q = refl
    shown none e (some i) q = let gone = find_inode-absent d id none e refl in cc
    shown (some x) e none q = let found = find_inode-present d id x lt e in cc
    shown (some x) e (some i) q =
        let found : some i ≡ some (inode_at d id) = q ∙ find_inode-present d id x lt e in
        let same : i ≡ inode_at d id = cc in
        rw (same, e.type, e.size, lt→ltb x.type 32768 e.fits) refl

    get_attributes_lem : Answers stack clock w (get_attributes id) d locks f d locks
    unfolding handle reply next Client.get_attributes Server.get_attributes
    get_attributes_lem = record {
      run =
          bind-ok _ (
            bind-ok _ (
              bind-ok _ (
                on_bm-ok (getattr stack (inum_of id) no_attributes) locks
                  (getattr-mounted stack (inum_of id) no_attributes d))))
          ∙ rw own_inum (
              ap (λ (a : Reply). ok (ok_status, a) (layer (mounted d) locks))
                (shown (f id) (r.entry id lt) (find_inode d id) refl));
      files = r;
      free = free;
      room = omega arith;
    }

    remove_absent : f id ≡ none → Answers stack clock w (remove id) d locks f d locks
    unfolding handle reply next Client.remove
    remove_absent gone = record {
      run = bind-ok _ (
          bind-ok _
            (missing_id stack id (clock 0) [] d locks (free id lt).0 (rw own_inum lt) (missing gone)
              idle_lock).3);
      files = unchanged none (sym gone);
      free = free;
      room = omega arith;
    }

    remove_present :
        (x : File)
        → f id ≡ some x
        → (d' : Disk) × Answers stack clock w (remove id) d locks f d' locks
    unfolding handle reply next Client.remove Server.remove
    remove_present x there =
        let (d', run, files, room) =
          remove_file-Represents stack w fits d f r id lt x (present x there) in
        (
          d',
          record {
            run = bind-ok _ (
                bind-ok _
                  (bind-ok _ (on_bm-ok (remove_file stack (inum_of id)) locks (rw own_inum run))));
            files = files;
            free = free;
            room = omega (arith, room);
          },
        )

  -- On a disk that holds the files of a map, with idle locks and room for eight blocks before a put,
  -- every allowed request ends normally with the answer of the map, on a disk that holds the files of
  -- the map after it.
  pub answers :
      (q : Request)
      → Allowed q f
      → 8 * puts (q ∷ []) ≤ free_count d w first_data
      → (d' : Disk) × (locks' : ℕ → RwLock) × Answers stack clock w q d locks f d' locks'
  answers (create t) allowed room = let (d', a) = create_lem t allowed in (d', locks, a)
  answers (put id s) allowed room = elim (Option-cases (f id)) [
    | inl e ↦ (d, _, put_absent id allowed.0 s e)
    | inr (x, e) ↦ let (d', a) = put_present id allowed.0 s x e allowed (omega arith) in (d', _, a)
  ]
  answers (get id) allowed room = elim (Option-cases (f id)) [
    | inl e ↦ (d, _, get_absent id allowed e)
    | inr (x, e) ↦ let (d', a) = get_present id allowed x e in (d', _, a)
  ]
  answers (get_attributes id) allowed room = (d, locks, get_attributes_lem id allowed)
  answers (remove id) allowed room = elim (Option-cases (f id)) [
    | inl e ↦ (d, locks, remove_absent id allowed e)
    | inr (x, e) ↦ let (d', a) = remove_present id allowed x e in (d', locks, a)
  ]
