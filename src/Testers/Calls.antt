-- ===== src/Testers/Calls.antt =====
-- The calls of fs_client by the test programs, on a file system that holds the files of a map.
use mathlib.Core.Path.{ap₂}
use file_system.Client
use file_system.Base.{
  ◌∙◌, ap, ℕ, ◌+◌, ◌*◌, ◌≤◌, ◌≡◌, refl, Run, ok, fault, blocked, out_of_fuel, pure, and_then, [],
  ◌∷◌, arith, List, Cmd, suc,
}
use file_system.Disk.{Disk, Stack, direct_buffer}
use file_system.BlockLayer.{mounted}
use file_system.BlockLayer.Alloc.{first_data}
use file_system.BlockLayer.Space.{free_count}
use file_system.RwLock.{RwLock}
use file_system.InodeLayer.{InodeLayer, Attr}
use file_system.InodeLayer.Locks.{layer}
use file_system.InodeLayer.Write.Stored.{IsBuffer}
use file_system.Server.{Status, ok_status}
use file_system.Files.{
  Files, Request, create, put, get, get_attributes, created, done, text, attributes, reply, next,
  Allowed, puts, first_absent, content_of, attributes_of,
}
use file_system.Files.Represents.{Represents}
use file_system.Files.Handling.{handle, AllIdle}
use file_system.Files.Requests.{answers}
use file_system.Testers.{Tester, call}

-- The file system holds the files of a map, nobody is in a call, and there is room for n puts.
pub record Serves (f : Files) (n : ℕ) (fs : InodeLayer) : Type 0 where
  pub disk : Disk
  pub locks : ℕ → RwLock
  pub at : fs ≡ layer (mounted disk) locks
  pub files : Represents disk f
  pub idle : AllIdle locks
  pub room : 8 * n ≤ free_count disk 32645 first_data

-- A run that ends well with a value of which P holds, together with the state.
abbrev pub Returns : {S A : Type 0} → (A → S → Type 0) → Run S A → Type 0
Returns {S} {A} P r = (a : A) × (s : S) × (r ≡ ok a s) × P a s

-- A result that was computed from another one.
and_then-pure :
    {S A B : Type 0} (r : Run S A) (g : A → B) (b : B) (s : S)
    → and_then r (λ a. pure (g a)) ≡ ok b s
    → (a : A) × (r ≡ ok a s) × (g a ≡ b)
and_then-pure (ok a t) g b s e = (a, cc, cc)
and_then-pure fault g b s e = cc
and_then-pure blocked g b s e = cc
and_then-pure out_of_fuel g b s e = cc

module _ (stack : Stack) (stack_bytes : (k : ℕ) → IsBuffer (stack direct_buffer k))
    (clock : ℕ → ℕ → ℕ) (random : ℕ → ℕ) where
  -- A request as a command of the test program.
  handled :
      (q : Request) (f : Files) (m n : ℕ) (s : Tester)
      → Serves f m s.fs
      → puts (q ∷ []) + n ≤ m
      → Allowed q f
      → (fs : InodeLayer) × (handle stack (clock s.requests) q s.fs ≡ ok (reply q f) fs)
        × Serves (next q f) n fs
  handled q f m n s h few allowed =
      let (d', locks', a) =
        answers stack stack_bytes (clock s.requests) 32645 (omega arith) h.disk h.locks f h.files
          h.idle q allowed (omega (arith, h.room, few)) in
      (
        layer (mounted d') locks',
        rw h.at a.run,
        record {
          disk = d';
          locks = locks';
          at = refl;
          files = a.files;
          idle = a.free;
          room = omega (arith, a.room, h.room, few);
        },
      )

  -- The state after a request.
  abbrev pub called : Tester → InodeLayer → Tester
  called s fs = record s { fs = fs; requests = s.requests + 1 }

  call-run :
      {A : Type 0} (request : (ℕ → ℕ) → Cmd InodeLayer A) (s : Tester) (a : A) (fs : InodeLayer)
      → request (clock s.requests) s.fs ≡ ok a fs
      → call clock random request s ≡ ok a (called s fs)
  unfolding call
  call-run request s a fs e = rw (e, call) refl

  module _ (f : Files) (n : ℕ) (s : Tester) where
    pub call-create :
        (t : ℕ)
        → Serves f n s.fs
        → Allowed (create t) f
        → (fs : InodeLayer) × (call clock random (λ time. Client.create stack t time) s
            ≡ ok (ok_status, first_absent f 1024 0) (called s fs))
          × Serves (next (create t) f) n fs
    unfolding handle reply
    call-create t h allowed =
        let (fs, e, served) = handled (create t) f n n s h (omega arith) allowed in
        let ((ret, id), e', q) =
          and_then-pure (Client.create stack t (clock s.requests) s.fs) (λ p. (p.0, created p.1)) _
            fs e in
        let same_id : id ≡ first_absent f 1024 0 = cc in
        let same_ret : ret ≡ ok_status = cc in
        (
          fs,
          call-run _ s _ fs (e' ∙ ap₂ (λ (r : Status) (i : ℕ). ok (r, i) fs) same_ret same_id),
          served,
        )

    pub call-put :
        (id : ℕ) (str : List ℕ)
        → Serves f (suc n) s.fs
        → Allowed (put id str) f
        → (fs : InodeLayer) × (call clock random (λ time. Client.put stack id str) s
            ≡ ok ok_status (called s fs))
          × Serves (next (put id str) f) n fs
    unfolding handle reply
    call-put id str h allowed =
        let (fs, e, served) = handled (put id str) f (suc n) n s h (omega arith) allowed in
        let (ret, e', q) = and_then-pure (Client.put stack id str s.fs) (λ p. (p, done)) _ fs e in
        (fs, call-run _ s _ fs (e' ∙ ap (λ (r : Status). ok r fs) (ap (λ p. p.0) q)), served)

    pub call-get :
        (id : ℕ)
        → Serves f n s.fs
        → Allowed (get id) f
        → (fs : InodeLayer) × (call clock random (λ time. Client.get stack id (time 0)) s
            ≡ ok (ok_status, content_of (f id)) (called s fs))
          × Serves f n fs
    unfolding handle reply next
    call-get id h allowed =
        let (fs, e, served) = handled (get id) f n n s h (omega arith) allowed in
        let ((ret, buf), e', q) =
          and_then-pure (Client.get stack id (clock s.requests 0) s.fs) (λ p. (p.0, text p.1)) _ fs
            e in
        let same_buf : buf ≡ content_of (f id) = cc in
        let same_ret : ret ≡ ok_status = cc in
        (
          fs,
          call-run _ s _ fs
              (e' ∙ ap₂ (λ (r : Status) (t : List ℕ). ok (r, t) fs) same_ret same_buf),
          served,
        )

    pub call-get_attributes :
        (id : ℕ)
        → Serves f n s.fs
        → Allowed (get_attributes id) f
        → (fs : InodeLayer) × (a : Attr) × (call clock random
              (λ time. Client.get_attributes stack id)
              s
            ≡ ok (ok_status, a) (called s fs))
          × (attributes a.type a.size ≡ attributes_of (f id))
          × Serves f n fs
    unfolding handle reply next
    call-get_attributes id h allowed =
        let (fs, e, served) = handled (get_attributes id) f n n s h (omega arith) allowed in
        let ((ret, a), e', q) =
          and_then-pure (Client.get_attributes stack id s.fs)
            (λ p. (p.0, attributes p.1.type p.1.size)) _ fs e in
        let same_a : attributes a.type a.size ≡ attributes_of (f id) = cc in
        let same_ret : ret ≡ ok_status = cc in
        (fs, a, call-run _ s _ fs (e' ∙ ap (λ (r : Status). ok (r, a) fs) same_ret), same_a, served)

-- Room for fewer puts.
pub Serves-fewer : {f : Files} {m n : ℕ} {fs : InodeLayer} → n ≤ m → Serves f m fs → Serves f n fs
Serves-fewer le h = record {
  disk = h.disk;
  locks = h.locks;
  at = h.at;
  files = h.files;
  idle = h.idle;
  room = omega (arith, h.room, le);
}
