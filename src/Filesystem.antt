-- ===== src/Filesystem.antt =====
-- The read-only file system of mp3_group_59/student-distrib/filesystem.c: the image that the boot
-- loader leaves in memory, the directory, and the data of files. `none` is an access past an array's
-- end. The operations of open files are in Process/Files, since they go through the PCB.
pub mod Directory
pub mod Contents
mod Tests
use Prim.Native.Nat.{compare, Ordering}
use mathlib.Core.Option
use ece391_sp.Prelude.{
  ℕ, zero, suc, ◌+◌, ◌-◌, ◌*◌, ◌/◌, ◌%◌, Bool, true, false, ◌||◌, Option, none, some, List, [], ◌∷◌,
  ◌==◌, ltb, leb, if◌then◌else◌, get_elem?, ℤ, pos, negsuc, fail, to_u32, to_s32, ltb_ℤ, eqb_ℤ,
  u32_mod,
}
use ece391_sp.Strings.{strncmp}
pub use ece391_sp.Strings.{◌>>=◌}

-- `dentry_t`; its reserved bytes are never read.
pub record Dentry : Type 0 where
  pub file_name : List ℕ
  pub file_type : ℤ
  pub inode_num : ℤ

-- `bootblock_t`, `inode_t` and `datablock_t`
pub record Bootblock : Type 0 where
  pub dir_count : ℤ
  pub inode_count : ℤ
  pub data_count : ℤ
  pub direntries : List Dentry

pub record Inode : Type 0 where
  pub length : ℤ
  pub data_block_num : List ℤ

abbrev pub Datablock : Type 0
Datablock = List ℕ

-- The three regions that `filesystem_initialize` points `boot_block`, `inodes` and `data_blocks` at.
pub record Filesystem : Type 0 where
  pub boot_block : Bootblock
  pub inodes : List Inode
  pub data_blocks : List Datablock

abbrev pub num_max_files : ℕ
num_max_files = 63

abbrev pub bytes_32b : ℕ
bytes_32b = 32

abbrev pub bytes_4kb : ℕ
bytes_4kb = 4096

-- `filesystem_initialize`: the addresses of the three regions, each a sequence of 4 KB blocks.
pub record Regions : Type 0 where
  pub boot_addr : ℕ
  pub inodes_addr : ℕ
  pub data_addr : ℕ

unfoldable pub filesystem_initialize : ℕ → ℤ → Regions
filesystem_initialize start inode_count = record {
  boot_addr = start;
  inodes_addr = (start + bytes_4kb) % u32_mod;
  data_addr = (start + bytes_4kb + to_u32 inode_count * bytes_4kb) % u32_mod;
}

-- `read_dentry_by_index`, with what `*dentry` held before; the reserved bytes are not copied.
unfoldable pub read_dentry_by_index : Bootblock → ℕ → Dentry → Option (ℤ × Dentry)
read_dentry_by_index boot_block index dentry =
    if ltb_ℤ boot_block.dir_count index || ltb num_max_files index then some (fail, dentry) else do
      entry ← get_elem? boot_block.direntries index
      some (
        pos 0,
        record {
          file_name = entry.file_name;
          file_type = entry.file_type;
          inode_num = entry.inode_num;
        },
      )

-- `i < num_indices` for a loop counter and an `int32_t`
unfoldable pub below : ℕ → ℤ → Bool
below i (pos n) = ltb i n
below i (negsuc n) = false

-- The loop of `read_dentry_by_name` from index i on; the list is `direntries` from there.
unfoldable pub find_dentry : Bootblock → List ℕ → Dentry → ℕ → List Dentry → Option (ℤ × Dentry)
find_dentry boot_block fname dentry i [] =
    if below i boot_block.dir_count then none else some (fail, dentry)
find_dentry boot_block fname dentry i (entry ∷ rest) =
    let later = find_dentry boot_block fname dentry (i + 1) rest in
    let matched =
      Option.map (λ (r : ℤ × Dentry). (pos 0, r.1)) (read_dentry_by_index boot_block i dentry) in
    let compared = do
      r ← strncmp fname entry.file_name bytes_32b
      if eqb_ℤ r (pos 0) then matched else later
    in if below i boot_block.dir_count then compared else some (fail, dentry)

unfoldable pub read_dentry_by_name : Bootblock → List ℕ → Dentry → Option (ℤ × Dentry)
unfolding find_dentry below
read_dentry_by_name boot_block fname dentry =
    find_dentry boot_block fname dentry 0 boot_block.direntries

-- One byte of a file, through the block numbers of its inode.
unfoldable pub file_byte : Filesystem → List ℤ → ℕ → Option ℕ
file_byte fs data_block_num current_byte_index = do
  num ← get_elem? data_block_num (current_byte_index / bytes_4kb)
  block ← get_elem? fs.data_blocks (to_u32 num)
  get_elem? block (current_byte_index % bytes_4kb)

-- The loop of `read_data`, by the rounds left: what it returns, and the bytes it writes to `buf`.
unfoldable pub copy_bytes : Filesystem → Inode → ℕ → ℕ → ℕ → ℕ → Option (ℕ × List ℕ)
unfolding file_byte
copy_bytes fs curr_inode offset zero current_byte_index copied = some (copied, [])
copy_bytes fs curr_inode offset (suc rounds) current_byte_index copied =
    let later = copy_bytes fs curr_inode offset rounds (current_byte_index + 1) (copied + 1) in
    if current_byte_index == to_u32 curr_inode.length
    then some (current_byte_index - offset, [])
    else do
      current_byte ← file_byte fs curr_inode.data_block_num current_byte_index
      (ret, bytes) ← later
      some (ret, current_byte ∷ bytes)

-- `read_data`: what it returns, and the bytes it writes from `buf` on. `offset + length` is a
-- `uint32_t` sum. The copy `inodes[inode]` is read by no statement before the range check.
unfoldable pub read_data : Filesystem → ℕ → ℕ → ℕ → Option (ℤ × List ℕ)
unfolding copy_bytes
read_data fs inode offset length =
    if ltb ((to_u32 fs.boot_block.inode_count + u32_mod - 1) % u32_mod) inode
    then some (fail, [])
    else do
      curr_inode ← get_elem? fs.inodes inode
      if leb (to_u32 curr_inode.length) offset then some (pos 0, []) else do
        (ret, bytes) ←
            copy_bytes fs curr_inode offset ((offset + length) % u32_mod - offset) offset 0
        some (to_s32 ret, bytes)
