-- ===== src/Examples/Message.antt =====
-- The wire format over messages that are lists of words.
use file_system.Base.{ℕ, ◌%◌, ◌^◌, ◌≡◌, refl, arith, List, [], ◌∷◌, ◌++◌, ap}
use file_system.InodeLayer.{Attr}
use file_system.Protocol.{Wire, IsFaithful, IsWord, read_attr, write_attr, read_attr-write_attr}

abbrev take_word : List ℕ → ℕ × List ℕ
take_word [] = (0, [])
take_word (x ∷ rest) = (x, rest)

abbrev words : Wire
words = record {
  Marshall = List ℕ;
  Unmarshall = List ℕ;
  write = λ m x. m ++ (x % 2 ^ 32 ∷ []);
  read = take_word;
}

abbrev faithful : IsFaithful words
faithful = record {
  sent = λ m. m;
  left = λ u. u;
  sent_write = λ m x. refl;
  read_left = λ u x rest e. (ap (λ ws. (take_word ws).0) e, ap (λ ws. (take_word ws).1) e);
}

abbrev attr : Attr
attr = record { type = 2; atime = 11; mtime = 12; ctime = 13; size = 512 }

attr-IsWord : IsWord attr
attr-IsWord = record {
  type = omega arith;
  atime = omega arith;
  mtime = omega arith;
  ctime = omega arith;
  size = omega arith;
}

read_attr-write_attr_example :
    ((read_attr words (2 ∷ 11 ∷ 12 ∷ 13 ∷ 512 ∷ 99 ∷ [])).0 ≡ attr)
    × ((read_attr words (2 ∷ 11 ∷ 12 ∷ 13 ∷ 512 ∷ 99 ∷ [])).1 ≡ 99 ∷ [])
unfolding write_attr
read_attr-write_attr_example =
    read_attr-write_attr words faithful [] (2 ∷ 11 ∷ 12 ∷ 13 ∷ 512 ∷ 99 ∷ []) attr (99 ∷ [])
      attr-IsWord refl refl
