-- ===== src/Process/Files.antt =====
-- The file descriptors of a process: `system_open` and `system_close` of
-- mp3_group_59/student-distrib/syscall.c, the reads of files and directories of filesystem.c, and the
-- operations there that do nothing. A local `dentry_t` that is not initialised is `blank`.
pub mod Open
pub mod Read
use mathlib.Core.Option
use ece391_sp.Prelude.{
  ℕ, zero, suc, ◌+◌, ◌-◌, ◌*◌, ◌/◌, ◌%◌, ◌==◌, ltb, leb, if◌then◌else◌, Bool, true, false, ◌||◌,
  Option, none, some, List, [], ◌∷◌, ◌++◌, get_elem?, set, ℤ, pos, negsuc, fail, to_u32, u32_mod,
  eqb_ℤ,
}
use ece391_sp.Strings.{strlen, strncpy}
use ece391_sp.Filesystem.{
  Dentry, Bootblock, read_dentry_by_index, read_dentry_by_name, read_data, bytes_32b, ◌>>=◌,
}
use ece391_sp.Process.{
  Table, null, rtc, files, directories, FileDescriptor, Pcb, Kernel, current, put_pcb,
  max_open_files, file_desc_start_idx,
}

-- What `system_open` writes to a free descriptor.
abbrev pub opened : Table → ℕ → Dentry → FileDescriptor
opened table file_type dentry = record {
  fop = some table;
  inode_idx = to_u32 dentry.inode_num;
  file_position = 0;
  flags = 1;
  file_type = file_type;
}

-- One of the three loops of `system_open`, from fd on by the rounds left.
unfoldable pub open_from :
    FileDescriptor → List FileDescriptor → ℕ → ℕ → Option (ℤ × List FileDescriptor)
open_from entry fda zero fd = some (fail, fda)
open_from entry fda (suc rounds) fd = do
  d ← get_elem? fda fd
  if d.flags == 0 then some (pos fd, set fda fd entry) else open_from entry fda rounds (fd + 1)

abbrev pub open_first : FileDescriptor → List FileDescriptor → Option (ℤ × List FileDescriptor)
open_first entry fda =
    open_from entry fda (max_open_files - file_desc_start_idx) file_desc_start_idx

-- The choice of the loop by the entry's type.
unfoldable pub open_dentry : Dentry → List FileDescriptor → Option (ℤ × List FileDescriptor)
open_dentry dentry fda =
    if eqb_ℤ dentry.file_type (pos 0)
    then open_first (opened rtc 0 dentry) fda
    else if eqb_ℤ dentry.file_type (pos 1)
    then open_first (opened directories 1 dentry) fda
    else if eqb_ℤ dentry.file_type (pos 2)
    then open_first (opened files 2 dentry) fda
    else some (fail, fda)

abbrev pub put_fda : Kernel → List FileDescriptor → Kernel
put_fda k fda = let p = current k in put_pcb k (record p { fda = fda })

-- `system_open`
unfoldable pub system_open : Dentry → List ℕ → Kernel → Option (ℤ × Kernel)
system_open blank filename k = do
  (ret, dentry) ← read_dentry_by_name k.fs.boot_block filename blank
  if eqb_ℤ ret (pos 0)
      then Option.map (λ (r : ℤ × List FileDescriptor). (r.0, put_fda k r.1))
          (open_dentry dentry (current k).fda)
      else some (fail, k)

-- The operations of the null table.
unfoldable pub no_operation : ℤ
no_operation = fail

-- `system_close`. It calls the null table's `close`, whose result it drops.
unfoldable pub close_fd : List FileDescriptor → ℕ → Option (ℤ × List FileDescriptor)
close_fd fda fd = do
  d ← get_elem? fda fd
  if d.flags == 0
      then some (fail, fda)
      else some (
        pos 0,
        set fda fd (record d { inode_idx = 0; flags = 0; file_position = 0; fop = some null }),
      )

unfoldable pub system_close : ℤ → Kernel → Option (ℤ × Kernel)
unfolding close_fd
system_close (negsuc n) k = some (fail, k)
system_close (pos fd) k =
    let closed =
      Option.map (λ (r : ℤ × List FileDescriptor). (r.0, put_fda k r.1))
        (close_fd (current k).fda fd) in
    if ltb fd file_desc_start_idx || ltb (max_open_files - 1) fd then some (fail, k) else closed

-- The bytes of an `int32_t` in memory, low byte first.
abbrev pub le_bytes : ℤ → List ℕ
le_bytes v =
    to_u32 v % 256 ∷ to_u32 v / 256 % 256 ∷ to_u32 v / 65536 % 256 ∷ to_u32 v / 16777216 ∷ []

-- A `dentry_t` as the bytes from its name on, up to the reserved ones.
abbrev pub dentry_bytes : Dentry → List ℕ
dentry_bytes d = d.file_name ++ le_bytes d.file_type ++ le_bytes d.inode_num

-- `directory_read` on the descriptor's position, which is passed as a `uint8_t`: what it returns, the
-- buffer and the position after it.
unfoldable pub read_name : Bootblock → Dentry → ℕ → List ℕ → Option (ℤ × List ℕ × ℕ)
read_name boot_block blank file_position buff = do
  (ret, dentry) ← read_dentry_by_index boot_block (file_position % 256) blank
  if eqb_ℤ ret fail then some (fail, buff, file_position) else do
    dest ← strncpy buff (dentry_bytes dentry) bytes_32b
    strlen_ret ← strlen dest
    some (
      pos (if ltb bytes_32b strlen_ret then bytes_32b else strlen_ret),
      dest,
      (file_position + 1) % u32_mod,
    )

abbrev pub put_position : Kernel → ℕ → FileDescriptor → ℕ → Kernel
put_position k fd d position =
    put_fda k (set (current k).fda fd (record d { file_position = position }))

unfoldable pub directory_read : Dentry → ℕ → List ℕ → Kernel → Option (ℤ × List ℕ × Kernel)
unfolding read_name
directory_read blank fd buff k = do
  d ← get_elem? (current k).fda fd
  (ret, dest, position) ← read_name k.fs.boot_block blank d.file_position buff
  some (ret, dest, put_position k fd d position)

-- `file_read`: what it returns, the bytes that it writes from `buff` on, and the state after it.
unfoldable pub file_read : ℕ → ℤ → Kernel → Option (ℤ × List ℕ × Kernel)
file_read fd (negsuc n) k = some (fail, [], k)
file_read fd (pos zero) k = some (fail, [], k)
file_read fd (pos (suc n)) k = do
  d ← get_elem? (current k).fda fd
  (ret, bytes) ← read_data k.fs d.inode_idx d.file_position (suc n)
  if eqb_ℤ ret fail
      then some (fail, bytes, k)
      else some (ret, bytes, put_position k fd d ((d.file_position + to_u32 ret) % u32_mod))
