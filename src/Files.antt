-- ===== src/Files.antt =====
-- What the file system promises its clients: a map from ids to files, and how each request answers from
-- it and changes it. Requests are those of fs_client.
pub mod Represents
pub mod Creation
pub mod Reading
pub mod Writing
pub mod Removing
pub mod Handling
pub mod Requests
pub mod Session
pub mod Start
use file_system.Base.{
  ℕ, zero, suc, ◌+◌, ◌*◌, ◌/◌, ◌^◌, ◌≤◌, ◌<◌, ◌≡◌, Option, none, some, List, [], ◌∷◌, update,
}
use file_system.Server.{Status, ok_status}
use file_system.Base.Lists.{length, get_or}

pub record File : Type 0 where
  pub type : ℕ
  pub content : List ℕ

abbrev pub Files : Type 0
Files = ℕ → Option File

pub data Request : Type 0 where
  create : ℕ → Request
  put : ℕ → List ℕ → Request
  get : ℕ → Request
  get_attributes : ℕ → Request
  remove : ℕ → Request

-- What a client learns besides the status. Of the attributes, the type and the size.
pub data Reply : Type 0 where
  created : ℕ → Reply
  done : Reply
  text : List ℕ → Reply
  attributes : ℕ → ℕ → Reply

-- The first id without a file among the next k; 0 if there is none.
unfoldable pub first_absent : Files → ℕ → ℕ → ℕ
first_absent f zero from = 0
first_absent f (suc k) from = elim (f from) [ none ↦ from | some _ ↦ first_absent f k (suc from) ]

abbrev pub rewritten : List ℕ → Option File → Option File
rewritten s none = none
rewritten s (some x) = some (record x { content = s })

abbrev pub content_of : Option File → List ℕ
content_of none = []
content_of (some x) = x.content

abbrev pub attributes_of : Option File → Reply
attributes_of none = attributes 0 0
attributes_of (some x) = attributes x.type (length x.content)

-- The answer to a request, with its status, and the files after it.
unfoldable pub reply : Request → Files → Status × Reply
unfolding first_absent
reply (create t) f = (ok_status, created (first_absent f 1024 0))
reply (put id s) f = (ok_status, done)
reply (get id) f = (ok_status, text (content_of (f id)))
reply (get_attributes id) f = (ok_status, attributes_of (f id))
reply (remove id) f = (ok_status, done)

unfoldable pub next : Request → Files → Files
unfolding first_absent
next (create t) f = update f (first_absent f 1024 0) (some (record { type = t; content = [] }))
next (put id s) f = update f id (rewritten s (f id))
next (get id) f = f
next (get_attributes id) f = f
next (remove id) f = update f id none

-- The answers to a session, and the files after it.
unfoldable pub replies : List Request → Files → List (Status × Reply)
unfolding reply next
replies [] f = []
replies (r ∷ rs) f = reply r f ∷ replies rs (next r f)

unfoldable pub after : List Request → Files → Files
unfolding next
after [] f = f
after (r ∷ rs) f = after rs (next r f)

-- A file of n bytes takes that many blocks.
abbrev pub block_count : ℕ → ℕ
block_count n = (n + 511) / 512

-- What a client has to keep to: types that a short holds, ids below 1024, strings of at most 4096
-- bytes, no create when all inodes are in use, and no put of a string that takes fewer blocks than the
-- one it replaces.
abbrev pub Allowed : Request → Files → Type 0
Allowed (create t) f = (0 < t) × (t < 2 ^ 15) × (id : ℕ) × (id < 1024) × (f id ≡ none)
Allowed (put id s) f =
    (id < 1024)
    × (length s ≤ 4096)
    × ((i : ℕ) → get_or s i 0 < 256)
    × (block_count (length (content_of (f id))) ≤ block_count (length s))
Allowed (get id) f = id < 1024
Allowed (get_attributes id) f = id < 1024
Allowed (remove id) f = id < 1024

abbrev pub AllAllowed : List Request → Files → Type 0
AllAllowed [] f = Unit
AllAllowed (r ∷ rs) f = Allowed r f × AllAllowed rs (next r f)

-- How many of the requests write.
abbrev pub puts : List Request → ℕ
puts [] = 0
puts (put id s ∷ rs) = suc (puts rs)
puts (create t ∷ rs) = puts rs
puts (get id ∷ rs) = puts rs
puts (get_attributes id ∷ rs) = puts rs
puts (remove id ∷ rs) = puts rs
