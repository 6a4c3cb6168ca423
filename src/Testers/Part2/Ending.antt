-- ===== src/Testers/Part2/Ending.antt =====
-- test_concurrent and main of part2_tester.cc run into the end of single_repeated_reader.
use file_system.Base.{
  ◌≢◌, ℕ, ◌+◌, ◌≤◌, ◌<◌, ◌≡◌, inl, refl, ◌∙◌, ap, Bool, true, false, List, Run, Cmd, ok, fault,
  and_then, bind-ok, arith,
}
use file_system.Base.Int.{ℤ, pos}
use file_system.Disk.{Block, Disk, Stack}
use file_system.Disk.Laws.{IsBytes}
use file_system.BlockLayer.{mounted, Mutex, unlocked, locked, uninitialised}
use file_system.Client.NoMutex.{without_mutex, create-without_mutex, put-without_mutex}
use file_system.InodeLayer.Init.{init_inode_layer_lem}
use file_system.BlockLayer.Alloc.{first_data}
use file_system.BlockLayer.Space.{free_count}
use file_system.RwLock.{RwLock, init_rwlock}
use file_system.RwLock.Idle.{idle}
use file_system.Client
use file_system.Client.LargeText.{
  create-IsFile, IsBlocks, HoldsText, put-HoldsText_first, get-HoldsText,
}
use file_system.InodeLayer.{InodeLayer}
use file_system.InodeLayer.Locks.{layer}
use file_system.InodeLayer.Write.Indirect.Whole.{HasBytes}
use file_system.Server.{Status, ok_status, inum_of, t_file}
use file_system.Files.Start.{init-Represents}
use file_system.Testers.{large_file_size, call}
use file_system.Testers.Text.{same_text_refl}
use file_system.Testers.Part2.{Shared, on_tester}
use file_system.Testers.Part2.Program.{test_fixed, test_concurrent, with_client, main}
use file_system.Testers.Part2.Scheduled.{call-ok, four_threads-fault}
use file_system.Testers.Scheduling.{picks}
use file_system.Testers.Part2.Arrays.{rolled, filled, string_lem, letters_lem}

bind-fault : {S A B : Type 0} {r : Run S A} (k : A → Cmd S B) → r ≡ fault → and_then r k ≡ fault
bind-fault k e = rw e

module _ (stack : Stack) (stack_bytes : HasBytes stack) (clock : ℕ → ℕ → ℕ) (random : ℕ → ℕ)
    (creates : ℕ → Bool) (all_created : (n : ℕ) → n < 4 → creates n ≡ true) (schedule : ℕ → ℕ → ℕ)
    (fuel strays : ℕ) (reader : ℕ) (lo : 2 ≤ reader) (hi : reader < 4)
    (enough : 20001 ≤ picks (schedule 0) fuel 0 reader) where
  test_fixed-fault :
      (id : ℕ) (buf heap2 : Block) (strbuf : List ℕ) (s : Shared)
      → inum_of id < 1024
      → IsBlocks strbuf
      → buf large_file_size ≡ 0
      → HoldsText id strbuf s.tester.fs
      → s.err_in_writer ≡ false
      → s.err_in_reader ≡ false
      → test_fixed stack clock random creates schedule fuel strays buf heap2 id strbuf s ≡ fault
  unfolding test_fixed
  test_fixed-fault id buf heap2 strbuf s small blocks end h writer_fine reader_fine =
      let (buf', r, e₁, kept, letters) = filled stack clock random large_file_size buf s in
      let (str2, e₂, blocks2) =
        string_lem stack clock random large_file_size buf' (rolled s r) refl (omega arith)
          (omega arith) letters (kept large_file_size (omega arith) ∙ end) in
      bind-ok _ e₁
      ∙ (bind-ok _ e₂
          ∙ rw
              (
                all_created 0 (omega arith),
                all_created 1 (omega arith),
                all_created 2 (omega arith),
                all_created 3 (omega arith),
              )
              (bind-fault _ (
                four_threads-fault stack stack_bytes clock random id small strbuf str2 blocks
                  blocks2 reader (schedule 0) fuel (rolled s r) lo hi enough
                  (record {
                    text = strbuf;
                    which = inl refl;
                    holds = h;
                    writer_fine = writer_fine;
                    reader_fine = reader_fine;
                  }))))

  -- On a disk of bytes with at least 129 free data blocks, with idle locks and with no error noted.
  test_concurrent-fault :
      (heap heap2 : Block) (s : Shared) (d : Disk) (locks : ℕ → RwLock) (r : ℤ)
      → s.tester.fs ≡ layer (mounted d) locks
      → ((i : ℕ) → i < 1024 → locks i ≡ idle r)
      → IsBytes d
      → 129 ≤ free_count d 32645 first_data
      → s.err_in_writer ≡ false
      → s.err_in_reader ≡ false
      → test_concurrent stack clock random creates schedule fuel strays heap heap2 s ≡ fault
  unfolding test_concurrent
  test_concurrent-fault heap heap2 s d locks r at free bytes room w rd =
      let time : ℕ → ℕ = clock s.tester.requests in
      let (id, d', e, small, file, empty, space) =
        create-IsFile stack t_file time d locks (omega arith) (omega arith) bytes in
      let fs₁ : InodeLayer = layer (mounted d') locks in
      let e₁ : Client.create stack t_file time s.tester.fs ≡ ok (ok_status, id) fs₁ = rw at e in
      let s₁ : Shared = record s {
        tester = record s.tester { fs = fs₁; requests = s.tester.requests + 1 };
      } in
      let (buf, rands, e₂, letters, end) = letters_lem stack clock random large_file_size heap s₁ in
      let s₂ : Shared = rolled s₁ rands in
      let (strbuf, e₃, blocks) =
        string_lem stack clock random large_file_size buf s₂ refl (omega arith) (omega arith)
          letters end in
      let (fs₃, e₄, holds) =
        put-HoldsText_first stack stack_bytes id small strbuf d' locks r blocks file empty
          (free (inum_of id) small) (omega (arith, room, space)) in
      let s₃ : Shared = record s₂ {
        tester = record s₂.tester { fs = fs₃; requests = s₂.tester.requests + 1 };
      } in
      let (fs₄, e₅, holds₄) =
        get-HoldsText stack stack_bytes id small (clock s₃.tester.requests 0) strbuf fs₃ holds in
      let s₄ : Shared = record s₃ {
        tester = record s₃.tester { fs = fs₄; requests = s₃.tester.requests + 1 };
      } in
      let e₆ = test_fixed-fault id buf heap2 strbuf s₄ small blocks end holds₄ w rd in
      bind-ok _ (call-ok clock random (λ time. Client.create stack t_file time) s _ fs₁ e₁)
      ∙ (bind-ok _ e₂
          ∙ (bind-ok _ e₃
              ∙ (bind-ok _
                    (call-ok clock random (λ time. Client.put stack id strbuf) s₂ ok_status fs₃ e₄)
                  ∙ (bind-ok _
                        (call-ok clock random (λ time. Client.get stack id (time 0)) s₃ _ fs₄ e₅)
                      ∙ rw (same_text_refl strbuf) e₆))))

  call-fault :
      (request : (ℕ → ℕ) → Cmd InodeLayer Status) (s : Shared)
      → request (clock s.tester.requests) s.tester.fs ≡ fault
      → on_tester (call clock random request) s ≡ fault
  unfolding on_tester call
  call-fault request s e = rw (e, on_tester, call) refl

  -- Without a mutex of the bitmap, the first put is undefined behaviour.
  test_concurrent-without_mutex :
      (heap heap2 : Block) (s : Shared) (d : Disk) (locks : ℕ → RwLock) (r : ℤ)
      → s.tester.fs ≡ layer (without_mutex d) locks
      → ((i : ℕ) → i < 1024 → locks i ≡ idle r)
      → IsBytes d
      → test_concurrent stack clock random creates schedule fuel strays heap heap2 s ≡ fault
  unfolding test_concurrent
  test_concurrent-without_mutex heap heap2 s d locks r at free bytes =
      let time : ℕ → ℕ = clock s.tester.requests in
      let (id, d', e, file) =
        create-without_mutex stack t_file time d locks (omega arith) (omega arith) bytes in
      let fs₁ : InodeLayer = layer (without_mutex d') locks in
      let e₁ : Client.create stack t_file time s.tester.fs ≡ ok (ok_status, id) fs₁ = rw at e in
      let s₁ : Shared = record s {
        tester = record s.tester { fs = fs₁; requests = s.tester.requests + 1 };
      } in
      let (buf, rands, e₂, letters, end) = letters_lem stack clock random large_file_size heap s₁ in
      let s₂ : Shared = rolled s₁ rands in
      let (strbuf, e₃, blocks) =
        string_lem stack clock random large_file_size buf s₂ refl (omega arith) (omega arith)
          letters end in
      bind-ok _ (call-ok clock random (λ time. Client.create stack t_file time) s _ fs₁ e₁)
      ∙ (bind-ok _ e₂
          ∙ (bind-ok _ e₃
              ∙ bind-fault _ (
                  call-fault (λ time. Client.put stack id strbuf) s₂
                    (put-without_mutex stack id strbuf d' locks r file
                      (free (inum_of id) file.small) (omega (arith, blocks.large))))))

  with_client-fault :
      (fs : InodeLayer) (heap heap2 : Block)
      → test_concurrent stack clock random creates schedule fuel strays heap heap2 (record {
        tester = record { fs = fs; requests = 0; rands = 0; total_score = 0 };
        err_in_writer = false;
        err_in_reader = false;
      })
        ≡ fault
      → with_client stack clock random creates schedule fuel strays (ok true fs) heap heap2 ≡ fault
  unfolding with_client
  with_client-fault fs heap heap2 e = rw (e, with_client) refl

  main-unlocked :
      (time : ℕ → ℕ) (heap heap2 : Block)
      → main stack clock random creates schedule fuel strays 1 unlocked time heap heap2 ≡ fault
  unfolding main
  main-unlocked time heap heap2 =
      let (d, run, files, room) = init-Represents stack time in
      let fs : InodeLayer = layer (mounted d) (λ i. init_rwlock) in
      (ap
          (λ (x : Run InodeLayer Bool).
            with_client stack clock random creates schedule fuel strays x heap heap2)
          run
        ∙ with_client-fault fs heap heap2 (
            test_concurrent-fault heap heap2
              (record {
                tester = record { fs = fs; requests = 0; rands = 0; total_score = 0 };
                err_in_writer = false;
                err_in_reader = false;
              })
              d (λ i. init_rwlock) (pos 0) refl (λ i lt. refl) files.bytes (omega arith) refl refl))

  main-uninitialised :
      (time : ℕ → ℕ) (heap heap2 : Block)
      → main stack clock random creates schedule fuel strays 1 uninitialised time heap heap2 ≡ fault
  unfolding main
  main-uninitialised time heap heap2 =
      let (d, run, _, _, _, bytes, _) = init_inode_layer_lem stack uninitialised time in
      let fs : InodeLayer = layer (without_mutex d) (λ i. init_rwlock) in
      ap
        (λ (x : Run InodeLayer Bool).
          with_client stack clock random creates schedule fuel strays x heap heap2)
        run
      ∙ with_client-fault fs heap heap2 (
          test_concurrent-without_mutex heap heap2
            (record {
              tester = record { fs = fs; requests = 0; rands = 0; total_score = 0 };
              err_in_writer = false;
              err_in_reader = false;
            })
            d (λ i. init_rwlock) (pos 0) refl (λ i lt. refl) bytes)

  -- For local buffers that hold bytes, four calls of pthread_create that succeed, and a schedule that takes
  -- the 20001 steps of one of the two readers of the first test, whatever it does with the other threads:
  -- main without arguments ends in undefined behaviour, whatever rand and the clock return, whatever malloc
  -- hands out, and whatever the memory for the mutex of the bitmap holds but a locked one. If it happens to
  -- be an unlocked mutex, that reader or another flows off the end of its function, and if it is none, the
  -- first put locks it. The test returns no code and adds no score.
  pub main-flows_off :
      (mutex : Mutex) (time : ℕ → ℕ) (heap heap2 : Block)
      → mutex ≢ locked
      → main stack clock random creates schedule fuel strays 1 mutex time heap heap2 ≡ fault
  main-flows_off unlocked time heap heap2 ne = main-unlocked time heap heap2
  main-flows_off locked time heap heap2 ne = absurd (ne refl)
  main-flows_off uninitialised time heap heap2 ne = main-uninitialised time heap heap2
