-- ===== src/Testers/Part1/Putting.antt =====
-- The first loop of test_put_and_get of part1_tester.cc.
use file_system.Base.{
  ℕ, zero, suc, ◌+◌, ◌%◌, ◌≤◌, ◌<◌, ◌≡◌, ◌≢◌, refl, ◌∙◌, sym, ok, bind-ok, arith, ap, Option, some,
  none, Option-cases, update, ==_of_eq, ==_of_ne, eq_or_ne, inl, inr, subst, Run,
}
use file_system.Base.Lists.{length}
use file_system.Disk.{Stack, direct_buffer}
use file_system.InodeLayer.{InodeLayer, Attr}
use file_system.InodeLayer.Write.Stored.{IsBuffer}
use file_system.Server.{t_file}
use file_system.Files.{File, Files, put, next, attributes, attributes_of, rewritten, Allowed}
use file_system.Client
use file_system.Server.{ok_status}
use file_system.Testers.{Tester, call, decimal}
use file_system.Testers.Calls.{Serves, Serves-fewer, call-put, call-get_attributes, called}
use file_system.Testers.Few.{Few}
use file_system.Testers.Text.{IsShort, decimal-IsShort}
use file_system.Testers.Part1.{put_loop}
use file_system.Testers.Part1.Numbers.{Written, put-Few, skip-Written, put-Written}

-- What the first loop leaves.
pub record Filled (i m n : ℕ) (run : Run Tester (ℕ × (ℕ → ℕ))) (s : Tester) : Type 0 where
  pub end : Tester
  pub contents : ℕ → ℕ
  pub ends : run ≡ ok (0, contents) end
  pub files : Files
  pub few : Few m files
  pub serves : Serves files n end.fs
  pub written : Written i contents files
  pub score : end.total_score ≡ s.total_score

-- The type that getattr shows.
pub shown_type :
    (a : Attr) (o : Option File) (x : File)
    → attributes a.type a.size ≡ attributes_of o
    → o ≡ some x
    → a.type ≡ x.type
shown_type a o x q e =
    let shown : attributes a.type a.size ≡ attributes x.type (length x.content) =
      q ∙ ap attributes_of e in
    cc

pub no_type :
    (a : Attr) (o : Option File)
    → attributes a.type a.size ≡ attributes_of o
    → o ≡ none
    → a.type ≡ 0
no_type a o q e =
    let shown : attributes a.type a.size ≡ attributes 0 0 = q ∙ ap attributes_of e in cc

module _ (stack : Stack) (stack_bytes : (k : ℕ) → IsBuffer (stack direct_buffer k))
    (clock : ℕ → ℕ → ℕ) (random : ℕ → ℕ) where
  -- One round of the first loop: what is left to run, and from where.
  record Stepped (rounds i m n : ℕ) (contents : ℕ → ℕ) (s : Tester) : Type 0 where
    tester : Tester
    array : ℕ → ℕ
    files : Files
    goes_on :
        put_loop stack clock random (suc rounds) i contents s
        ≡ put_loop stack clock random rounds (suc i) array tester
    few : Few m files
    serves : Serves files (rounds + n) tester.fs
    written : Written (suc i) array files
    score : tester.total_score ≡ s.total_score

  module _ (rounds i m n : ℕ) (contents : ℕ → ℕ) (f : Files) (s : Tester) (fits : i + 2 < 1024)
      (few : Few m f) (w : Written i contents f) (fs₁ : InodeLayer) (a : Attr)
      (e₁ : call clock random (λ time. Client.get_attributes stack (i + 2)) s
        ≡ ok (ok_status, a) (called stack stack_bytes clock random s fs₁))
      (h₁ : Serves f (suc rounds + n) fs₁) where
    -- No file is at the id.
    skip_lem :
        a.type ≢ t_file
        → ((x : File) → f (i + 2) ≡ some x → x.type ≡ t_file → ⊥)
        → Stepped rounds i m n contents s
    unfolding put_loop
    skip_lem other nothing = record {
      tester = called stack stack_bytes clock random s fs₁;
      array = contents;
      files = f;
      goes_on = bind-ok _ e₁ ∙ rw (==_of_ne a.type t_file other) refl;
      few = few;
      serves = Serves-fewer (omega arith) h₁;
      written = skip-Written i contents f nothing w;
      score = refl;
    }

    write_lem : (x : File) → f (i + 2) ≡ some x → a.type ≡ t_file → Stepped rounds i m n contents s
    unfolding put_loop next
    write_lem x there type =
        let v = random s.rands % 10000 in
        let text = decimal 3 v in
        let short : IsShort 4 text = decimal-IsShort v (omega arith) in
        let s₁ : Tester = called stack stack_bytes clock random s fs₁ in
        let s₂ : Tester = record s₁ { rands = s.rands + 1 } in
        let allowed : Allowed (put (i + 2) text) f = (
          omega arith,
          omega (arith, short.few_bytes),
          short.bytes,
          omega (arith, few.short (i + 2), short.some_byte),
        ) in
        let (fs₃, e₃, h₃) =
          call-put stack stack_bytes clock random f (rounds + n) s₂ (i + 2) text
            (Serves-fewer (omega arith) h₁) allowed in
        record {
          tester = called stack stack_bytes clock random s₂ fs₃;
          array = update contents i v;
          files = update f (i + 2) (some (record x { content = text }));
          goes_on = bind-ok _ e₁ ∙ rw (==_of_eq a.type t_file type) (bind-ok _ e₃);
          few = put-Few m (i + 2) x text f (omega arith) there (omega (arith, short.few_bytes)) few;
          serves =
              subst
                (λ (o : Option File). Serves (update f (i + 2) (rewritten text o)) (rounds + n) fs₃)
                there h₃;
          written = put-Written i v contents x f w;
          score = refl;
        }

  step_lem :
      (rounds i m n : ℕ) (contents : ℕ → ℕ) (f : Files) (s : Tester)
      → i + 2 < 1024
      → Few m f
      → Serves f (suc rounds + n) s.fs
      → Written i contents f
      → Stepped rounds i m n contents s
  step_lem rounds i m n contents f s fits few h w =
      let (fs₁, a, e₁, q, h₁) =
        call-get_attributes stack stack_bytes clock random f (suc rounds + n) s (i + 2) h fits in
      elim (Option-cases (f (i + 2))) [
        | inl gone ↦
            skip_lem rounds i m n contents f s fits few w fs₁ a e₁ h₁
              (λ e. let z = no_type a _ q gone in omega arith)
              (λ x there type. let clash : none ≡ some x = sym gone ∙ there in cc)
        | inr (x, there) ↦ elim (eq_or_ne x.type t_file) [
          | inr ne ↦
              skip_lem rounds i m n contents f s fits few w fs₁ a e₁ h₁
                (λ e. ne (sym (shown_type a _ x q there) ∙ e))
                (λ y there' type.
                  let same : some x ≡ some y = sym there ∙ there' in
                  let same_type : x.type ≡ y.type = cc in ne (same_type ∙ type))
          | inl is_file ↦
              write_lem rounds i m n contents f s fits few w fs₁ a e₁ h₁ x there
                (shown_type a _ x q there ∙ is_file)
        ]
      ]

  pub put_loop_lem :
      (rounds i m n : ℕ) (contents : ℕ → ℕ) (f : Files) (s : Tester)
      → i + 2 + rounds ≤ 1024
      → Few m f
      → Serves f (rounds + n) s.fs
      → Written i contents f
      → Filled (i + rounds) m n (put_loop stack clock random rounds i contents s) s
  unfolding put_loop
  put_loop_lem zero i m n contents f s fits few h w = record {
    end = s;
    contents = contents;
    ends = refl;
    files = f;
    few = few;
    serves = Serves-fewer (omega arith) h;
    written = let e : i + zero ≡ i = omega arith in rw e w;
    score = refl;
  }
  put_loop_lem (suc rounds) i m n contents f s fits few h w =
      let one = step_lem rounds i m n contents f s (omega arith) few h w in
      let rest =
        put_loop_lem rounds (suc i) m n one.array one.files one.tester (omega arith) one.few
          one.serves one.written in
      let count : i + suc rounds ≡ suc i + rounds = omega arith in
      record {
        end = rest.end;
        contents = rest.contents;
        ends = one.goes_on ∙ rest.ends;
        files = rest.files;
        few = rest.few;
        serves = rest.serves;
        written = rw count rest.written;
        score = rest.score ∙ one.score;
      }
