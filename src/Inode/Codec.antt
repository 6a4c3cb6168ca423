-- ===== src/Inode/Codec.antt =====
-- Storing a struct inode and loading it again.
use file_system.Base.{
  sym, lt→ltb, le→ltb, ℕ, suc, ◌+◌, ◌-◌, ◌*◌, ◌/◌, ◌%◌, ◌^◌, ◌≤◌, ◌<◌, ◌≡◌, arith, ltb,
  if◌then◌else◌, fun_ext, ◌⊎◌, inl, inr, lt_or_ge,
}
use file_system.Disk.{Block}
use file_system.Inode.{Inode, byte_of, load_half, load_word, load_inode, word_of, store_inode}

-- The fields fit their types, and the array has nine cells.
pub record Fits (ino : Inode) : Type 0 where
  pub type : ino.type < 2 ^ 16
  pub size : ino.size < 2 ^ 32
  pub atime : ino.atime < 2 ^ 32
  pub mtime : ino.mtime < 2 ^ 32
  pub ctime : ino.ctime < 2 ^ 32
  pub blocks : (k : ℕ) → k < 9 → ino.blocks k < 2 ^ 32
  pub beyond : (k : ℕ) → 9 ≤ k → ino.blocks k ≡ 0

module _ (buf : Block) (at : ℕ) (ino : Inode) where
  store_inode-word :
      (w r : ℕ)
      → 1 ≤ w
      → w < 14
      → r < 4
      → store_inode buf at ino (at + 4 * w + r) ≡ byte_of (word_of ino w) r
  unfolding store_inode
  store_inode-word w r lo hi hr =
      let q : (at + 4 * w + r - at) / 4 ≡ w = omega arith in
      let m : (at + 4 * w + r - at) % 4 ≡ r = omega arith in rw (q, m) (ground arith)

  load_word-store_inode :
      (w : ℕ) → 1 ≤ w → w < 14 → load_word (store_inode buf at ino) at w ≡ word_of ino w % 2 ^ 32
  unfolding load_word
  load_word-store_inode w lo hi =
      rw
        (
          store_inode-word w 0 lo hi (omega arith),
          store_inode-word w 1 lo hi (omega arith),
          store_inode-word w 2 lo hi (omega arith),
          store_inode-word w 3 lo hi (omega arith),
        )
        (omega arith)

  load_half-store_inode : load_half (store_inode buf at ino) at ≡ ino.type % 2 ^ 16
  unfolding load_half store_inode word_of
  load_half-store_inode =
      let q : (at - at) / 4 ≡ 0 = omega arith in
      let m : (at - at) % 4 ≡ 0 = omega arith in
      let q1 : (at + 1 - at) / 4 ≡ 0 = omega arith in
      let m1 : (at + 1 - at) % 4 ≡ 1 = omega arith in rw (q, m, q1, m1) (ground arith)

  -- What lies outside the struct stays.
  pub store_inode-outside : (i : ℕ) → (i < at) ⊎ (at + 56 ≤ i) → store_inode buf at ino i ≡ buf i
  unfolding store_inode
  store_inode-outside i h = ground arith

  -- A struct that fits its types comes back as it was.
  pub load_inode-store_inode : Fits ino → load_inode (store_inode buf at ino) at ≡ ino
  unfolding load_inode word_of
  load_inode-store_inode fit = λ i. record {
    type = half i;
    size = word 1 (omega arith) (omega arith) fit.size i;
    atime = word 2 (omega arith) (omega arith) fit.atime i;
    mtime = word 3 (omega arith) (omega arith) fit.mtime i;
    ctime = word 4 (omega arith) (omega arith) fit.ctime i;
    blocks = array i;
  }
    where
      half : load_half (store_inode buf at ino) at ≡ ino.type
      half = omega (arith, load_half-store_inode, fit.type)

      word :
          (w : ℕ)
          → 1 ≤ w
          → w < 14
          → word_of ino w < 2 ^ 32
          → load_word (store_inode buf at ino) at w ≡ word_of ino w
      word w lo hi h = omega (arith, load_word-store_inode w lo hi)

      cell : (k : ℕ) → k < 9 → load_word (store_inode buf at ino) at (5 + k) ≡ ino.blocks k
      cell k h =
          let e : 5 + k ≡ suc (suc (suc (suc (suc k)))) = omega arith in
          rw e (word (suc (suc (suc (suc (suc k))))) (omega arith) (omega arith) (fit.blocks k h))

      array :
          ◌≡◌ {A = ℕ → ℕ}
            (λ k. if ltb k 9 then load_word (store_inode buf at ino) at (5 + k) else 0)
            ino.blocks
      array = fun_ext λ k. elim (lt_or_ge k 9) [
        | inl lt ↦ rw (lt→ltb k 9 lt) (cell k lt)
        | inr ge ↦ rw (le→ltb k 9 ge) (sym (fit.beyond k ge))
      ]

-- A load reads only the bytes of its struct.
pub load_inode-outside :
    (a b : Block) (at : ℕ)
    → ((i : ℕ) → at ≤ i → i < at + 56 → a i ≡ b i)
    → load_inode a at ≡ load_inode b at
unfolding load_inode
load_inode-outside a b at same = λ i. record {
  type = half i;
  size = word 1 (omega arith) i;
  atime = word 2 (omega arith) i;
  mtime = word 3 (omega arith) i;
  ctime = word 4 (omega arith) i;
  blocks = array i;
}
  where
    half : load_half a at ≡ load_half b at
    half =
        unfold load_half in
        rw (same at (omega arith) (omega arith), same (at + 1) (omega arith) (omega arith))

    word : (w : ℕ) → w < 14 → load_word a at w ≡ load_word b at w
    word w h =
        unfold load_word in
        rw (
          same (at + 4 * w + 0) (omega arith) (omega arith),
          same (at + 4 * w + 1) (omega arith) (omega arith),
          same (at + 4 * w + 2) (omega arith) (omega arith),
          same (at + 4 * w + 3) (omega arith) (omega arith),
        )

    array :
        ◌≡◌ {A = ℕ → ℕ}
          (λ k. if ltb k 9 then load_word a at (5 + k) else 0)
          (λ k. if ltb k 9 then load_word b at (5 + k) else 0)
    array = fun_ext λ k. elim (lt_or_ge k 9) [
      | inl lt ↦ rw (word (5 + k) (omega arith))
      | inr ge ↦ rw (le→ltb k 9 ge)
    ]

-- A struct that lies in a buffer of bytes fits its types.
pub load_inode-Fits : (buf : Block) (at : ℕ) → ((i : ℕ) → buf i < 256) → Fits (load_inode buf at)
unfolding load_inode load_half
load_inode-Fits buf at bytes = record {
  type = omega (arith, bytes at, bytes (at + 1));
  size = word 1;
  atime = word 2;
  mtime = word 3;
  ctime = word 4;
  blocks = λ k h. rw (lt→ltb k 9 h) (word (5 + k));
  beyond = λ k h. rw (le→ltb k 9 h);
}
  where
    word : (w : ℕ) → load_word buf at w < 2 ^ 32
    word w =
        unfold load_word in
        omega (
          arith,
          bytes (at + 4 * w + 0),
          bytes (at + 4 * w + 1),
          bytes (at + 4 * w + 2),
          bytes (at + 4 * w + 3),
        )
