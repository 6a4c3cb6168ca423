-- ===== src/Protocol.antt =====
-- The wire format of fs_protocol.h: the stream operators of fs_protocol::attr, over the marshall and
-- unmarshall classes of the RPC library, which are a parameter.
use file_system.Base.{ℕ, ◌%◌, ◌^◌, ◌<◌, ◌≡◌, ◌∙◌, ap, arith, List, [], ◌∷◌, ◌++◌}
use file_system.InodeLayer.{Attr}

-- The classes with their operators for 32-bit words.
pub record Wire : Type 1 where
  pub Marshall : Type 0
  pub Unmarshall : Type 0
  pub write : Marshall → ℕ → Marshall
  pub read : Unmarshall → ℕ × Unmarshall

-- What is documented of them: a message is the words written to it, in order, cut to 32 bits, and
-- reading takes the first word off what is left.
pub record IsFaithful (wire : Wire) : Type 0 where
  pub sent : wire.Marshall → List ℕ
  pub left : wire.Unmarshall → List ℕ
  pub sent_write : (m : wire.Marshall) (x : ℕ) → sent (wire.write m x) ≡ sent m ++ (x % 2 ^ 32 ∷ [])
  pub read_left :
      (u : wire.Unmarshall) (x : ℕ) (rest : List ℕ)
      → left u ≡ x ∷ rest
      → ((wire.read u).0 ≡ x) × (left (wire.read u).1 ≡ rest)

module _ (wire : Wire) where
  -- operator>>(unmarshall &, fs_protocol::attr &)
  unfoldable pub read_attr : wire.Unmarshall → Attr × wire.Unmarshall
  read_attr u₀ =
      let (type, u₁) = wire.read u₀ in
      let (atime, u₂) = wire.read u₁ in
      let (mtime, u₃) = wire.read u₂ in
      let (ctime, u₄) = wire.read u₃ in
      let (size, u₅) = wire.read u₄ in
      (record { type = type; atime = atime; mtime = mtime; ctime = ctime; size = size }, u₅)

  -- operator<<(marshall &, fs_protocol::attr)
  unfoldable pub write_attr : wire.Marshall → Attr → wire.Marshall
  write_attr m a =
      wire.write
        (wire.write (wire.write (wire.write (wire.write m a.type) a.atime) a.mtime) a.ctime) a.size

-- The fields fit their types.
pub record IsWord (a : Attr) : Type 0 where
  pub type : a.type < 2 ^ 32
  pub atime : a.atime < 2 ^ 32
  pub mtime : a.mtime < 2 ^ 32
  pub ctime : a.ctime < 2 ^ 32
  pub size : a.size < 2 ^ 32

module _ (wire : Wire) (h : IsFaithful wire) where
  sent_then :
      (m : wire.Marshall) (x : ℕ) (words : List ℕ)
      → x < 2 ^ 32
      → h.sent m ≡ words
      → h.sent (wire.write m x) ≡ words ++ (x ∷ [])
  sent_then m x words lt e =
      let fits : x % 2 ^ 32 ≡ x = omega arith in
      h.sent_write m x ∙ ap (λ ws. ws ++ (x % 2 ^ 32 ∷ [])) e ∙ ap (λ y. words ++ (y ∷ [])) fits

  sent_attr :
      (m : wire.Marshall) (a : Attr)
      → IsWord a
      → h.sent m ≡ []
      → h.sent (write_attr wire m a) ≡ a.type ∷ a.atime ∷ a.mtime ∷ a.ctime ∷ a.size ∷ []
  unfolding write_attr
  sent_attr m a w e = sent_then _ a.size _ w.size (
      sent_then _ a.ctime _ w.ctime (
        sent_then _ a.mtime _ w.mtime
          (sent_then _ a.atime _ w.atime (sent_then m a.type [] w.type e))))

  -- Over a faithful wire: attributes whose fields fit 32 bits, written to an empty message, are read back
  -- from what was sent, and what follows them in the message is left to be read.
  pub read_attr-write_attr :
      (m : wire.Marshall) (u : wire.Unmarshall) (a : Attr) (rest : List ℕ)
      → IsWord a
      → h.sent m ≡ []
      → h.left u ≡ h.sent (write_attr wire m a) ++ rest
      → ((read_attr wire u).0 ≡ a) × (h.left (read_attr wire u).1 ≡ rest)
  unfolding read_attr
  read_attr-write_attr m u a rest w empty e =
      let (type, left₁) =
        h.read_left u a.type _ (e ∙ ap (λ ws. ws ++ rest) (sent_attr m a w empty)) in
      let (atime, left₂) = h.read_left (wire.read u).1 a.atime _ left₁ in
      let (mtime, left₃) = h.read_left _ a.mtime _ left₂ in
      let (ctime, left₄) = h.read_left _ a.ctime _ left₃ in
      let (size, left₅) = h.read_left _ a.size _ left₄ in
      (
        (λ i. record {
          type = type i;
          atime = atime i;
          mtime = mtime i;
          ctime = ctime i;
          size = size i;
        }),
        left₅,
      )
