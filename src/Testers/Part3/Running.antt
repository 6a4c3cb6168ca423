-- ===== src/Testers/Part3/Running.antt =====
-- test_concurrent and main of part3_tester.cc run into the end of single_reader.
use file_system.Base.{
  ◌≢◌, ℕ, ◌*◌, ◌≤◌, ◌<◌, ◌≡◌, inl, inr, fault, refl, ◌∙◌, ap, Bool, true, false, List, Run, Cmd, ok,
  bind-ok, arith,
}
use file_system.Base.Int.{ℤ, pos}
use file_system.Disk.{Block, Disk, Stack}
use file_system.Disk.Laws.{IsBytes}
use file_system.BlockLayer.{mounted, Mutex, unlocked, locked, uninitialised}
use file_system.Client.NoMutex.{without_mutex, create-without_mutex, put-without_mutex}
use file_system.InodeLayer.Init.{init_inode_layer_lem}
use file_system.BlockLayer.Alloc.{first_data}
use file_system.BlockLayer.Space.{free_count}
use file_system.RwLock.{RwLock, init_rwlock}
use file_system.RwLock.Idle.{idle}
use file_system.Client
use file_system.Client.LargeText.{put-HoldsText_first, create-IsFile}
use file_system.InodeLayer.{InodeLayer}
use file_system.InodeLayer.Locks.{layer}
use file_system.InodeLayer.Write.Indirect.Whole.{HasBytes}
use file_system.Server.{Status, ok_status, inum_of, t_file}
use file_system.Files.Start.{init-Represents}
use file_system.Testers.{large_file_size, call}
use file_system.Testers.Scheduling.{picks, run_threads-fault}
use file_system.Testers.Part3.{Measure, on_tester}
use file_system.Testers.Part3.Program.{
  nreader, begun, is_returned, reader_step, first_failed, started, joined, test_concurrent,
  with_client, main,
}
use file_system.Testers.Part3.Steps.{
  on_tester-ok, bind-fault, left, some_left, first_failed-above, call_lem, random_string_lem, Good,
  reader_step-Next, rolled, answered,
}

module _ (stack : Stack) (stack_bytes : HasBytes stack) (clock : ℕ → ℕ → ℕ) (random : ℕ → ℕ)
    (monotonic : ℕ → ℕ × ℕ) where
  module _ (creates : ℕ → Bool) (schedule : ℕ → ℕ) (fuel : ℕ) (r : ℕ) (below : r < 400)
      (created : (n : ℕ) → n ≤ r → creates n ≡ true) (enough : 3 ≤ picks schedule fuel 0 r) where
    joined-fault :
        (id : ℕ) (str1 str2 : List ℕ) (s : Measure)
        → inum_of id < 1024
        → Good id str1 s
        → joined stack clock random monotonic creates schedule fuel id str1 str2 s ≡ fault
    unfolding joined left is_returned
    joined-fault id str1 str2 s small g =
        let here : started creates r ≡ begun = rw (created r (omega arith)) refl in
        bind-fault _ (
          run_threads-fault (λ j. reader_step stack clock random monotonic id str1 str2) is_returned
            (first_failed creates nreader 0) left some_left (Good id str1) r
            (first_failed-above creates r created nreader 0 (omega arith) (omega arith))
            (λ j p s g.
              elim (reader_step-Next stack stack_bytes clock random monotonic id small str1 str2 p s
                g) [ inl bad ↦ inl bad | inr (p', s', e, g', _) ↦ inr (p', s', e, g') ])
            (λ p s g going.
              elim (reader_step-Next stack stack_bytes clock random monotonic id small str1 str2 p s
                g) [
                  | inl bad ↦ inl bad
                  | inr (p', s', e, g', on) ↦ inr (p', s', e, g', (on going).0, (on going).1)
                ])
            schedule fuel 0 (started creates) s (rw here refl) (rw here enough) g)

    test_concurrent-fault :
        (heap1 heap2 : Block) (s : Measure) (d : Disk) (locks : ℕ → RwLock) (r : ℤ)
        → s.tester.fs ≡ layer (mounted d) locks
        → ((i : ℕ) → i < 1024 → locks i ≡ idle r)
        → IsBytes d
        → 129 ≤ free_count d 32645 first_data
        → s.err_in_writer ≡ false
        → s.err_in_reader ≡ false
        → test_concurrent stack clock random monotonic creates schedule fuel heap1 heap2 s ≡ fault
    unfolding test_concurrent
    test_concurrent-fault heap1 heap2 s d locks r at free bytes room w rd =
        let time : ℕ → ℕ = clock s.tester.requests in
        let (id, d', e, small, file, empty, space) =
          create-IsFile stack t_file time d locks (omega arith) (omega arith) bytes in
        let fs₁ : InodeLayer = layer (mounted d') locks in
        let e₁ : Client.create stack t_file time s.tester.fs ≡ ok (ok_status, id) fs₁ = rw at e in
        let s₁ : Measure = answered s fs₁ in
        let (str1, r₁, e₂, blocks1) =
          random_string_lem stack stack_bytes clock random monotonic large_file_size heap1 s₁ refl
            (omega arith) (omega arith) in
        let (str2, r₂, e₃, blocks2) =
          random_string_lem stack stack_bytes clock random monotonic (large_file_size * 2) heap2
            (rolled s₁ r₁) refl (omega arith) (omega arith) in
        let s₂ : Measure = rolled s₁ r₂ in
        let (fs₃, e₄, holds) =
          put-HoldsText_first stack stack_bytes id small str1 d' locks r blocks1 file empty
            (free (inum_of id) small) (omega (arith, room, space)) in
        let e₅ =
          joined-fault id str1 str2 (answered s₂ fs₃) small
            (record { holds = holds; writer_fine = w; reader_fine = rd }) in
        bind-ok _ (
          on_tester-ok _ s _ _
            (call_lem clock random (λ time. Client.create stack t_file time) s _ fs₁ e₁))
        ∙ (bind-ok _ e₂
            ∙ (bind-ok _ e₃
                ∙ (bind-ok _ (
                      on_tester-ok _ s₂ _ _ (
                        call_lem clock random (λ time. Client.put stack id str1) s₂ ok_status fs₃
                          e₄))
                    ∙ bind-fault _ e₅)))

    call-fault :
        (request : (ℕ → ℕ) → Cmd InodeLayer Status) (s : Measure)
        → request (clock s.tester.requests) s.tester.fs ≡ fault
        → on_tester (call clock random request) s ≡ fault
    unfolding on_tester call
    call-fault request s e = rw (e, on_tester, call) refl

    -- Without a mutex of the bitmap, the first put is undefined behaviour.
    test_concurrent-without_mutex :
        (heap1 heap2 : Block) (s : Measure) (d : Disk) (locks : ℕ → RwLock) (r : ℤ)
        → s.tester.fs ≡ layer (without_mutex d) locks
        → ((i : ℕ) → i < 1024 → locks i ≡ idle r)
        → IsBytes d
        → test_concurrent stack clock random monotonic creates schedule fuel heap1 heap2 s ≡ fault
    unfolding test_concurrent
    test_concurrent-without_mutex heap1 heap2 s d locks r at free bytes =
        let time : ℕ → ℕ = clock s.tester.requests in
        let (id, d', e, file) =
          create-without_mutex stack t_file time d locks (omega arith) (omega arith) bytes in
        let fs₁ : InodeLayer = layer (without_mutex d') locks in
        let e₁ : Client.create stack t_file time s.tester.fs ≡ ok (ok_status, id) fs₁ = rw at e in
        let s₁ : Measure = answered s fs₁ in
        let (str1, r₁, e₂, blocks1) =
          random_string_lem stack stack_bytes clock random monotonic large_file_size heap1 s₁ refl
            (omega arith) (omega arith) in
        let (str2, r₂, e₃, blocks2) =
          random_string_lem stack stack_bytes clock random monotonic (large_file_size * 2) heap2
            (rolled s₁ r₁) refl (omega arith) (omega arith) in
        bind-ok _ (
          on_tester-ok _ s _ _
            (call_lem clock random (λ time. Client.create stack t_file time) s _ fs₁ e₁))
        ∙ (bind-ok _ e₂
            ∙ (bind-ok _ e₃
                ∙ bind-fault _ (
                    call-fault (λ time. Client.put stack id str1) (rolled s₁ r₂)
                      (put-without_mutex stack id str1 d' locks r file
                        (free (inum_of id) file.small) (omega (arith, blocks1.large))))))

    with_client-fault :
        (fs : InodeLayer) (heap1 heap2 : Block)
        → test_concurrent stack clock random monotonic creates schedule fuel heap1 heap2 (record {
          tester = record { fs = fs; requests = 0; rands = 0; total_score = 0 };
          looks = 1;
          err_in_writer = false;
          err_in_reader = false;
        })
          ≡ fault
        → with_client stack clock random monotonic creates schedule fuel (ok true fs) heap1 heap2
          ≡ fault
    unfolding with_client
    with_client-fault fs heap1 heap2 e = rw (e, with_client) refl

    main-unlocked :
        (time : ℕ → ℕ) (heap1 heap2 : Block)
        → main stack clock random monotonic creates schedule fuel 1 unlocked time heap1 heap2
          ≡ fault
    unfolding main
    main-unlocked time heap1 heap2 =
        let (d, run, files, room) = init-Represents stack time in
        let fs : InodeLayer = layer (mounted d) (λ i. init_rwlock) in
        (ap
            (λ (x : Run InodeLayer Bool).
              with_client stack clock random monotonic creates schedule fuel x heap1 heap2)
            run
          ∙ with_client-fault fs heap1 heap2 (
              test_concurrent-fault heap1 heap2
                (record {
                  tester = record { fs = fs; requests = 0; rands = 0; total_score = 0 };
                  looks = 1;
                  err_in_writer = false;
                  err_in_reader = false;
                })
                d (λ i. init_rwlock) (pos 0) refl (λ i lt. refl) files.bytes (omega arith) refl
                refl))

    main-uninitialised :
        (time : ℕ → ℕ) (heap1 heap2 : Block)
        → main stack clock random monotonic creates schedule fuel 1 uninitialised time heap1 heap2
          ≡ fault
    unfolding main
    main-uninitialised time heap1 heap2 =
        let (d, run, _, _, _, bytes, _) = init_inode_layer_lem stack uninitialised time in
        let fs : InodeLayer = layer (without_mutex d) (λ i. init_rwlock) in
        ap
          (λ (x : Run InodeLayer Bool).
            with_client stack clock random monotonic creates schedule fuel x heap1 heap2)
          run
        ∙ with_client-fault fs heap1 heap2 (
            test_concurrent-without_mutex heap1 heap2
              (record {
                tester = record { fs = fs; requests = 0; rands = 0; total_score = 0 };
                looks = 1;
                err_in_writer = false;
                err_in_reader = false;
              })
              d (λ i. init_rwlock) (pos 0) refl (λ i lt. refl) bytes)

    -- For local buffers that hold bytes, calls of pthread_create that succeed up to the one for some reader
    -- of the 400, and a schedule that takes the three steps of that reader, whatever it does with the
    -- others: main without arguments ends in undefined behaviour, whatever rand and the clocks return,
    -- whatever malloc hands out, and whatever the memory for the mutex of the bitmap holds but a locked
    -- one. If it happens to be an unlocked mutex, that reader or another flows off the end of its function,
    -- and if it is none, the first put locks it. No latency is printed.
    pub main-reader_fault :
        (mutex : Mutex) (time : ℕ → ℕ) (heap1 heap2 : Block)
        → mutex ≢ locked
        → main stack clock random monotonic creates schedule fuel 1 mutex time heap1 heap2 ≡ fault
    main-reader_fault unlocked time heap1 heap2 ne = main-unlocked time heap1 heap2
    main-reader_fault locked time heap1 heap2 ne = absurd (ne refl)
    main-reader_fault uninitialised time heap1 heap2 ne = main-uninitialised time heap1 heap2
