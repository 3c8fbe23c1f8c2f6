-- ===== src/Syscall.antt =====
-- The system calls that go through a descriptor's operations, and the two that a program has for its
-- arguments and for the screen: `file_operations_initialize`, `system_read`, `system_write`,
-- `system_getargs` and `system_vidmap` of mp3_group_59/student-distrib/syscall.c, over the state of the
-- kernel, the console and the clock together.
pub mod Args
pub mod Dispatch
pub mod Vidmap
pub mod Programs
pub mod Exceptions
mod Tests
use mathlib.Core.Option
use ece391_sp.Prelude.{
  ℕ, ◌+◌, ◌-◌, ◌*◌, ◌%◌, ◌==◌, ltb, if◌then◌else◌, Bool, true, false, ◌&&◌, ◌||◌, Option, none,
  some, List, [], ◌∷◌, ◌++◌, length, get_elem?, ℤ, pos, negsuc, fail, to_u32, to_s32,
}
use ece391_sp.Strings.{strncpy}
use ece391_sp.Filesystem.{Dentry, ◌>>=◌}
use ece391_sp.Paging.{map_vidmem}
use ece391_sp.Process.{
  Table, null, stdin, stdout, rtc, files, directories, Kernel, current, max_open_files,
}
use ece391_sp.Process.Files.{no_operation, directory_read, file_read}
use ece391_sp.Process.Execute.{overlay, le_word}
use ece391_sp.Console.{Console}
use ece391_sp.Console.Terminal.{terminal_write, terminal_open, terminal_close}
use ece391_sp.Console.Terminal.Read.{terminal_read}
use ece391_sp.Devices.Rtc.{Rtc, rtc_read, rtc_write, rtc_open, rtc_close}

-- All globals that the operations reach. The clock has the port log of the console.
pub record Machine : Type 0 where
  pub kernel : Kernel
  pub console : Console
  pub in_count : ℕ

-- What happens while a call runs: the key codes and the clock's interrupts that are to come, what
-- register A of the clock holds, and what a `dentry_t` on the stack holds.
pub record Events : Type 0 where
  pub codes : List ℕ
  pub ticks : ℕ
  pub prev : ℕ
  pub dentry : Dentry

abbrev pub clock : Machine → Rtc
clock m = record { in_count = m.in_count; pic = m.console.pic }

abbrev pub set_clock : Machine → Rtc → Machine
set_clock m r = record m { console = record (m.console) { pic = r.pic }; in_count = r.in_count }

-- `file_operations_table_t`. A read is given the descriptor, the bytes of the buffer's object and the
-- count, and yields its result, the bytes of the object afterwards and the state.
pub record FileOperations : Type 0 where
  pub read : Events → ℕ → List ℕ → ℤ → Machine → Option (ℤ × List ℕ × Machine)
  pub write : Events → List ℕ → ℤ → Machine → Option (ℤ × Machine)
  pub open_file : Events → Machine → ℤ × Machine
  pub close_file : ℤ

-- A read that does nothing.
abbrev pub no_read : List ℕ → Machine → Option (ℤ × List ℕ × Machine)
no_read buf m = some (no_operation, buf, m)

abbrev pub no_write : Machine → Option (ℤ × Machine)
no_write m = some (no_operation, m)

abbrev pub read_terminal : Events → List ℕ → ℤ → Machine → Option (ℤ × List ℕ × Machine)
read_terminal ev buf nbytes m = do
  (ret, filled, c) ← terminal_read ev.codes (some buf) nbytes m.console
  some (ret, Option.get_or filled buf, record m { console = c })

abbrev pub write_terminal : List ℕ → ℤ → Machine → Option (ℤ × Machine)
write_terminal buf nbytes m = do
  (ret, c) ← terminal_write (some buf) nbytes m.console
  some (ret, record m { console = c })

abbrev pub read_clock : Events → List ℕ → Machine → Option (ℤ × List ℕ × Machine)
read_clock ev buf m = do
  (ret, left, r) ← rtc_read ev.ticks (clock m)
  some (ret, buf, set_clock m r)

-- The write reads an `int32_t` from the buffer.
abbrev pub write_clock : Events → List ℕ → Machine → Option (ℤ × Machine)
write_clock ev buf m =
    let (ret, r) = rtc_write ev.prev (some (to_s32 (le_word buf))) (clock m) in
    if ltb (length buf) 4 then none else some (ret, set_clock m r)

-- What a read stores lies in the buffer's object.
abbrev pub read_file : ℕ → List ℕ → ℤ → Machine → Option (ℤ × List ℕ × Machine)
read_file fd buf nbytes m = do
  (ret, bytes, k) ← file_read fd nbytes m.kernel
  if ltb (length buf) (length bytes)
      then none
      else some (ret, overlay bytes buf, record m { kernel = k })

abbrev pub read_directory : Events → ℕ → List ℕ → Machine → Option (ℤ × List ℕ × Machine)
read_directory ev fd buf m = do
  (ret, dest, k) ← directory_read ev.dentry fd buf m.kernel
  some (ret, dest, record m { kernel = k })

-- `file_operations_initialize`: the operations of each table.
unfoldable pub file_operations : Table → FileOperations
file_operations null = record {
  read = λ ev fd buf nbytes m. no_read buf m;
  write = λ ev buf nbytes m. no_write m;
  open_file = λ ev m. (no_operation, m);
  close_file = no_operation;
}
file_operations stdin = record {
  read = λ ev fd buf nbytes m. read_terminal ev buf nbytes m;
  write = λ ev buf nbytes m. no_write m;
  open_file = λ ev m. (terminal_open, m);
  close_file = terminal_close;
}
file_operations stdout = record {
  read = λ ev fd buf nbytes m. no_read buf m;
  write = λ ev buf nbytes m. write_terminal buf nbytes m;
  open_file = λ ev m. (terminal_open, m);
  close_file = terminal_close;
}
file_operations rtc = record {
  read = λ ev fd buf nbytes m. read_clock ev buf m;
  write = λ ev buf nbytes m. write_clock ev buf m;
  open_file = λ ev m. let (ret, r) = rtc_open ev.prev (clock m) in (ret, set_clock m r);
  close_file = rtc_close;
}
file_operations files = record {
  read = λ ev fd buf nbytes m. read_file fd buf nbytes m;
  write = λ ev buf nbytes m. some (fail, m);
  open_file = λ ev m. (pos 0, m);
  close_file = pos 0;
}
file_operations directories = record {
  read = λ ev fd buf nbytes m. read_directory ev fd buf m;
  write = λ ev buf nbytes m. some (fail, m);
  open_file = λ ev m. (pos 0, m);
  close_file = pos 0;
}

-- A call through `fop`, which fails for a null pointer.
abbrev pub call_read :
    Option Table → Events → ℕ → List ℕ → ℤ → Machine → Option (ℤ × List ℕ × Machine)
call_read none ev fd buf nbytes m = some (fail, buf, m)
call_read (some table) ev fd buf nbytes m = (file_operations table).read ev fd buf nbytes m

abbrev pub call_write : Option Table → Events → List ℕ → ℤ → Machine → Option (ℤ × Machine)
call_write none ev buf nbytes m = some (fail, m)
call_write (some table) ev buf nbytes m = (file_operations table).write ev buf nbytes m

-- `system_read`; `none` is a null buffer.
unfoldable pub system_read :
    Events → ℤ → Option (List ℕ) → ℤ → Machine → Option (ℤ × Option (List ℕ) × Machine)
system_read ev fd none nbytes m = some (fail, none, m)
system_read ev (negsuc n) (some buf) nbytes m = some (fail, some buf, m)
system_read ev (pos fd) (some buf) nbytes m =
    let through = do
      d ← get_elem? (current m.kernel).fda fd
      (ret, filled, m') ←
          if d.flags == 0 then some (fail, buf, m) else call_read d.fop ev fd buf nbytes m
      some (ret, some filled, m')
    in if ltb (max_open_files - 1) fd then some (fail, some buf, m) else through

-- `system_write`. A descriptor that is not in use is not refused.
unfoldable pub system_write : Events → ℤ → Option (List ℕ) → ℤ → Machine → Option (ℤ × Machine)
system_write ev fd none nbytes m = some (fail, m)
system_write ev (negsuc n) (some buf) nbytes m = some (fail, m)
system_write ev (pos fd) (some buf) nbytes m =
    let through = do d ← get_elem? (current m.kernel).fda fd; call_write d.fop ev buf nbytes m
    in if ltb (max_open_files - 1) fd then some (fail, m) else through

-- `system_getargs`, with the bytes of the buffer's object afterwards.
unfoldable pub system_getargs : Option (List ℕ) → ℤ → Kernel → Option (ℤ × Option (List ℕ))
system_getargs none nbytes k = some (fail, none)
system_getargs (some buf) nbytes k = do
  first ← get_elem? (current k).args 0
  let copied = strncpy buf (current k).args (to_u32 nbytes)
  if first == 0 then some (fail, some buf) else Option.map (λ dest. (pos 0, some dest)) copied

abbrev pub img_big_start : ℕ
img_big_start = 0x8000000

abbrev pub pagesize_4mb : ℕ
pagesize_4mb = 0x400000

abbrev pub user_vmem_addr : ℕ
user_vmem_addr = 0xa000000

-- `system_vidmap` for the address of the caller's pointer: the result, the word that is stored at that
-- address, and the state. A store that leaves the program page is a page fault.
unfoldable pub system_vidmap : ℕ → ℕ → Kernel → Option (ℤ × Option ℕ × Kernel)
system_vidmap video_at screen_start k =
    if screen_start == 0
    then some (fail, none, k)
    else if ltb screen_start img_big_start || ltb (img_big_start + pagesize_4mb) screen_start
    then some (fail, none, k)
    else if ltb (img_big_start + pagesize_4mb) (screen_start + 4)
    then none
    else some (pos 0, some user_vmem_addr, record k { paging = map_vidmem video_at k.paging })
