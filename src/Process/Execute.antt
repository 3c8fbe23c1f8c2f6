-- ===== src/Process/Execute.antt =====
-- `system_execute` of mp3_group_59/student-distrib/syscall.c: the command line, the checks of the file,
-- and the new process. A jump to user mode ends the call, so the result says how control goes on. The
-- messages that are printed are left out.
pub mod Command
pub mod Image
pub mod Start
mod Tests
use ece391_sp.Prelude.{
  ℕ, zero, suc, ◌+◌, ◌-◌, ◌*◌, ◌%◌, ◌==◌, ltb, leb, if◌then◌else◌, Bool, true, false, ◌&&◌, Option,
  none, some, List, [], ◌∷◌, ◌++◌, map, length, get_elem?, get_or, set, drop, replicate, ℤ, pos,
  negsuc, fail, to_u32, u32_mod, eqb_ℤ,
}
use ece391_sp.Strings.{strlen, strncpy}
use ece391_sp.Filesystem.{Dentry, read_dentry_by_name, read_data, bytes_32b, ◌>>=◌}
use ece391_sp.Paging.{execute_paging_init, program_img_pde_index, size_4mb}
use ece391_sp.Process.{
  Table, null, stdin, stdout, FileDescriptor, Pcb, Kernel, current, put_pcb, assign_pid, find_pcb,
  inc, dec, assign_pid_error,
}

-- How control goes on: back to the caller, into a user program, or back into the parent's `execute`.
pub data Outcome : Type 0 where
  returned : ℤ → Outcome
  entered : ℕ → ℕ → Outcome
  resumed : ℕ → ℕ → ℕ → Outcome

-- What the call finds in locals that it does not initialise, and in the two stack registers.
pub record Frame : Type 0 where
  pub arg_starting_index : ℤ
  pub first_inst : List ℕ
  pub dentry : Dentry
  pub esp : ℕ
  pub ebp : ℕ

abbrev pub num_chars_kb : ℕ
num_chars_kb = 128

abbrev pub space_char : ℕ
space_char = b' '

-- The loop that separates the name: the command from i on, the rounds left, i, `fname`, and
-- `arg_starting_index`.
unfoldable pub split_command : List ℕ → ℕ → ℕ → List ℕ → ℤ → Option (List ℕ × ℤ)
split_command command zero i fname start = some (fname, start)
split_command [] (suc rounds) i fname start = none
split_command (c ∷ command) (suc rounds) i fname start =
    split_command command rounds (i + 1) (if c == space_char then fname else set fname i c)
      (if c == space_char then pos (i + 1) else start)

-- The loop that copies the arguments, by the rounds left.
unfoldable pub copy_args : List ℕ → ℕ → ℕ → ℕ → ℕ → List ℕ → Option (List ℕ)
copy_args command cmd_strlen zero i argument_iterator args = some args
copy_args command cmd_strlen (suc rounds) i argument_iterator args =
    let next = do
      c ← get_elem? command argument_iterator
      copy_args command cmd_strlen rounds (i + 1) (argument_iterator + 1) (set args i c)
    in if ltb argument_iterator cmd_strlen then next else some args

-- A negative index is below the command's length, so its first round reads before the command.
unfoldable pub extract_args : List ℕ → ℕ → ℤ → Option (List ℕ)
unfolding copy_args
extract_args command cmd_strlen (pos start) =
    copy_args command cmd_strlen (cmd_strlen - start) 0 start (replicate num_chars_kb 0)
extract_args command cmd_strlen (negsuc start) = none

-- The file's name and the arguments in a command of `cmd_strlen` characters.
unfoldable pub parse_command : ℤ → List ℕ → ℕ → Option (List ℕ × List ℕ)
unfolding split_command extract_args
parse_command junk command cmd_strlen = do
  (fname, start) ← split_command command cmd_strlen 0 (replicate num_chars_kb 0) junk
  args ← extract_args command cmd_strlen start
  some (fname, args)

abbrev pub bytes_to_cmpr : ℕ
bytes_to_cmpr = 4

-- The comparison with the four magic bytes.
abbrev pub is_executable : List ℕ → Bool
is_executable (a ∷ b ∷ c ∷ d ∷ rest) = a == 0x7f && b == 0x45 && c == 0x4c && d == 0x46
is_executable _ = false

abbrev pub kernel_ds : ℕ
kernel_ds = 0x18

-- The loop that clears one descriptor, whose `file_type` stays, and the two that every process has.
abbrev pub cleared : FileDescriptor → FileDescriptor
cleared d = record d { fop = some null; inode_idx = 0; file_position = 0; flags = 0 }

abbrev pub standard : Table → FileDescriptor → FileDescriptor
standard table d = record d { fop = some table; file_type = 3; flags = 1 }

abbrev pub init_fda : List FileDescriptor → List FileDescriptor
init_fda [] = []
init_fda (d0 ∷ []) = standard stdin (cleared d0) ∷ []
init_fda (d0 ∷ d1 ∷ rest) =
    standard stdin (cleared d0) ∷ standard stdout (cleared d1) ∷ map cleared rest

-- Bytes written over the start of others.
abbrev pub overlay : List ℕ → List ℕ → List ℕ
overlay bytes old = bytes ++ drop (length bytes) old

abbrev pub le_word : List ℕ → ℕ
le_word (a ∷ b ∷ c ∷ d ∷ rest) = a + b * 256 + c * 65536 + d * 16777216
le_word _ = 0

abbrev pub user_stack : ℕ
user_stack = 0x8000000 + 0x400000 - 4

abbrev pub frame_number : Kernel → ℕ
frame_number k = (k.paging.directory program_img_pde_index).table_addr

abbrev pub program_img_virt_addr : ℕ
program_img_virt_addr = 0x08048000

abbrev pub size_program_img : ℕ
size_program_img = 0x400000 - 0x48000

-- Bytes written from an offset on.
abbrev pub write_at : ℕ → List ℕ → (ℕ → ℕ) → ℕ → ℕ
write_at at bytes old o = if ltb o at then old o else get_or bytes (o - at) (old o)

-- The program's bytes at PROGRAM_IMG_VIRT_ADDR, in the frame that its page selects.
abbrev pub put_image : Kernel → List ℕ → Kernel
put_image k bytes = record k {
  frames = λ a.
      if a == frame_number k
      then write_at (program_img_virt_addr % size_4mb) bytes (k.frames a)
      else k.frames a;
}

-- A copy that goes on behind the page faults: `none`.
unfoldable pub load_frame : Kernel → List ℕ → Option Kernel
load_frame k bytes = if leb (length bytes) size_program_img then some (put_image k bytes) else none

-- The PCB of the new process, up to the copy of its arguments.
unfoldable pub claim_pcb : ℤ → List ℕ → Kernel → Option Kernel
claim_pcb pid args k = do
  let at = find_pcb pid
  pcb_args ← strncpy (k.pcbs at).args args bytes_32b
  let parent = if eqb_ℤ pid (pos 0) then fail else k.pid
  let old = k.pcbs at
  let pcb = record old { pcb_pid = pid; parent_pid = parent; active = 1; args = pcb_args }
  some (put_pcb (record k { pid = pid; pcb_obj = at }) pcb)

-- The descriptors, the TSS and the saved registers.
unfoldable pub set_up : Frame → Kernel → Kernel
set_up frame k =
    let esp0 = (find_pcb (dec k.pid) + u32_mod - 4) % u32_mod in
    let old = current k in
    let fda = init_fda old.fda in
    let pcb = record old { fda = fda; tss_esp0 = esp0; ebp_val = frame.ebp; esp_val = frame.esp } in
    put_pcb (record k { ss0 = kernel_ds; esp0 = esp0; interrupts = true }) pcb

-- The first instruction's address, read over what its buffer held, and the jump.
unfoldable pub enter_user : Frame → ℕ → Kernel → Option (Outcome × Kernel)
enter_user frame file_inode k = do
  (count, first) ← read_data k.fs file_inode 24 4
  some (entered (le_word (overlay first frame.first_inst)) user_stack, set_up frame k)

-- From the choice of a process number on.
unfoldable pub start_process : Frame → ℕ → ℕ → List ℕ → Kernel → Option (Outcome × Kernel)
start_process frame file_inode file_length args k =
    let pid = assign_pid k.pcbs in
    let started = do
      k1 ← claim_pcb pid args k
      let k2 = record k1 { paging = execute_paging_init (to_u32 (inc pid)) k1.paging }
      (ret, bytes) ← read_data k2.fs file_inode 0 file_length
      k3 ← load_frame k2 bytes
      if to_u32 ret == file_length then enter_user frame file_inode k3 else some (returned fail, k3)
    in if eqb_ℤ pid assign_pid_error then some (returned fail, record k { pid = pid }) else started

-- From the directory entry on.
unfoldable pub execute_file : Frame → Dentry → List ℕ → Kernel → Option (Outcome × Kernel)
execute_file frame dentry args k = do
  let file_inode = to_u32 dentry.inode_num
  ino ← get_elem? k.fs.inodes file_inode
  (ret, file_bytes) ← read_data k.fs file_inode 0 bytes_to_cmpr
  if eqb_ℤ ret (pos bytes_to_cmpr) && is_executable file_bytes
      then start_process frame file_inode (to_u32 ino.length) args k
      else some (returned fail, k)

unfoldable pub execute_command : Frame → List ℕ → ℕ → Kernel → Option (Outcome × Kernel)
execute_command frame command cmd_strlen k = do
  (fname, args) ← parse_command frame.arg_starting_index command cmd_strlen
  (ret, dentry) ← read_dentry_by_name k.fs.boot_block fname frame.dentry
  if eqb_ℤ ret (pos 0) then execute_file frame dentry args k else some (returned fail, k)

-- `system_execute`; `none` is a null pointer.
unfoldable pub system_execute : Frame → Option (List ℕ) → Kernel → Option (Outcome × Kernel)
system_execute frame none k = some (returned fail, k)
system_execute frame (some command) k = do
  cmd_strlen ← strlen command
  if ltb num_chars_kb cmd_strlen
      then some (returned fail, k)
      else execute_command frame command cmd_strlen k
