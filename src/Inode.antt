-- ===== src/Inode.antt =====
-- Inodes on the disk: struct inode of inode_layer.h, and get_inode and put_inode of inode_layer.cc.
pub mod Codec
pub mod Table
pub mod Laws
use file_system.Base.{
  ℕ, zero, suc, ◌+◌, ◌-◌, ◌*◌, ◌/◌, ◌%◌, ◌^◌, Bool, true, false, Option, none, some, ltb, leb, ◌==◌,
  if◌then◌else◌, update, Run, ok, Cmd, pure, and_then, ◌>>=◌, ◌>>◌, ◌||◌, ◌&&◌,
}
use file_system.Disk.{Block, Disk, Stack, get_inode_buf, put_inode_buf}
use file_system.BlockLayer.{
  BlockLayer, inode_num, inode_size, inodes_per_block, iblock, read_block, write_block,
}

-- NDIRECT, NINDIRECT and MAXFILE
abbrev pub ndirect : ℕ
ndirect = 8

abbrev pub nindirect : ℕ
nindirect = 128

abbrev pub maxfile : ℕ
maxfile = ndirect + nindirect

-- struct inode. `type` is the bit pattern of a short; `blocks` has NDIRECT + 1 cells, from 0 on.
pub record Inode : Type 0 where
  pub type : ℕ
  pub size : ℕ
  pub atime : ℕ
  pub mtime : ℕ
  pub ctime : ℕ
  pub blocks : ℕ → ℕ

-- The little-endian words of a buffer: `type` takes half of word 0, the words 1 to 13 follow.
abbrev pub byte_of : ℕ → ℕ → ℕ
byte_of v r = v / 256 ^ r % 256

unfoldable pub load_half : Block → ℕ → ℕ
load_half buf at = buf at + 256 * buf (at + 1)

unfoldable pub load_word : Block → ℕ → ℕ → ℕ
load_word buf at w =
    buf (at + 4 * w + 0)
    + 256 * buf (at + 4 * w + 1)
    + 65536 * buf (at + 4 * w + 2)
    + 16777216 * buf (at + 4 * w + 3)

-- The struct that lies in a buffer at an offset.
unfoldable pub load_inode : Block → ℕ → Inode
load_inode buf at = record {
  type = load_half buf at;
  size = load_word buf at 1;
  atime = load_word buf at 2;
  mtime = load_word buf at 3;
  ctime = load_word buf at 4;
  blocks = λ k. if ltb k 9 then load_word buf at (5 + k) else 0;
}

word_of : Inode → ℕ → ℕ
word_of ino zero = ino.type
word_of ino (suc zero) = ino.size
word_of ino (suc (suc zero)) = ino.atime
word_of ino (suc (suc (suc zero))) = ino.mtime
word_of ino (suc (suc (suc (suc zero)))) = ino.ctime
word_of ino (suc (suc (suc (suc (suc k))))) = ino.blocks k

-- The buffer with the struct stored; the two bytes of padding behind `type` are left alone.
unfoldable pub store_inode : Block → ℕ → Inode → Block
unfolding word_of
store_inode buf at ino = λ i.
    if ltb i at || leb (at + inode_size) i || (ltb (at + 1) i && ltb i (at + 4))
    then buf i
    else byte_of (word_of ino ((i - at) / 4)) ((i - at) % 4)

module _ (stack : Stack) where
  -- inode_layer::get_inode; `none` is NULL
  unfoldable pub get_inode : ℕ → Cmd BlockLayer (Option Inode)
  get_inode inum = if leb inode_num inum then pure none else λ s.
      and_then (read_block (iblock inum s.sb.nblocks) (stack get_inode_buf 0) s) λ buf.
        let ino_disk = load_inode buf (inum % inodes_per_block * inode_size) in
        if ino_disk.type == 0 then pure none else pure (some ino_disk)

  -- inode_layer::put_inode
  unfoldable pub put_inode : ℕ → Option Inode → Cmd BlockLayer (Unit {0})
  put_inode inum none = pure tt
  put_inode inum (some ino) = if leb inode_num inum then pure tt else λ s.
      and_then (read_block (iblock inum s.sb.nblocks) (stack put_inode_buf 0) s) λ buf s'.
        write_block (iblock inum s'.sb.nblocks)
          (store_inode buf (inum % inodes_per_block * inode_size) ino) s'
