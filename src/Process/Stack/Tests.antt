-- ===== src/Process/Stack/Tests.antt =====
-- The stack of processes after the start of a base shell and of one program.
use ece391_sp.Prelude.{ℕ, ◌≡◌, refl, none, some, List, [], ◌∷◌, ◌++◌, replicate, pos, codes, true}
use ece391_sp.Filesystem.{
  Dentry, Inode, Filesystem, read_dentry_by_name, read_dentry_by_index, read_data,
}
use ece391_sp.Paging.{absent_pde, identity_pte}
use ece391_sp.Process.{FileDescriptor, Pcb, Kernel, assign_pid, find_pcb}
use ece391_sp.Strings.{strlen, strncmp, strncpy}
use ece391_sp.Process.Execute.{
  execute_command, parse_command, execute_file, start_process, claim_pcb, enter_user, load_frame,
  set_up, Frame, entered, user_stack, system_execute,
}
use ece391_sp.Process.Stack.{IsStack, boot, next, execute}
use ece391_sp.Process.Stack.Reachable.{Reached-IsStack}

-- A program of 30 bytes that starts at 0x08048054.
abbrev program : List ℕ
program = (0x7f ∷ 0x45 ∷ 0x4c ∷ 0x46 ∷ replicate 20 0) ++ (0x54 ∷ 0x80 ∷ 0x04 ∷ 0x08 ∷ 1 ∷ 2 ∷ [])

abbrev shell : Dentry
shell = record { file_name = codes "shell" ++ replicate 27 0; file_type = pos 2; inode_num = pos 0 }

abbrev ino : Inode
ino = record { length = pos 30; data_block_num = pos 0 ∷ [] }

abbrev image : Filesystem
image = record {
  boot_block = record {
    dir_count = pos 1;
    inode_count = pos 1;
    data_count = pos 1;
    direntries = shell ∷ [];
  };
  inodes = ino ∷ [];
  data_blocks = (program ++ replicate 4066 0) ∷ [];
}

abbrev closed : FileDescriptor
closed = record { fop = none; inode_idx = 0; file_position = 0; flags = 0; file_type = 0 }

abbrev blank_pcb : Pcb
blank_pcb = record {
  active = 0;
  pcb_pid = pos 0;
  parent_pid = pos 0;
  fda = replicate 8 closed;
  esp_val = 0;
  ebp_val = 0;
  tss_esp0 = 0;
  args = replicate 32 0;
}

-- The state before the kernel starts the shell.
abbrev idle : Kernel
idle = record {
  pid = pos 0;
  parent_pid = pos 0;
  pcb_obj = 0;
  pcbs = λ _. blank_pcb;
  ss0 = 0x18;
  esp0 = 0;
  paging = record {
    directory = absent_pde;
    table = identity_pte 0;
    video = identity_pte 0;
    loads = 0;
  };
  frames = λ _ _. 0;
  fs = image;
  interrupts = true;
}

abbrev locals : Frame
locals = record {
  arg_starting_index = pos 0;
  first_inst = replicate 4 0;
  dentry = shell;
  esp = 0x7ffe00;
  ebp = 0x7ffe40;
}

abbrev command : List ℕ
command = codes "shell" ++ (0 ∷ [])

started :
    (k : Kernel) × (system_execute locals (some command) idle
      ≡ some (entered 0x08048054 user_stack, k))
unfolding system_execute strlen execute_command parse_command read_dentry_by_name strncmp
    read_dentry_by_index execute_file read_data start_process assign_pid claim_pcb strncpy
    enter_user load_frame
started = (_, refl)

nested :
    (k : Kernel) × (system_execute locals (some command) started.0
      ≡ some (entered 0x08048054 user_stack, k))
unfolding system_execute strlen execute_command parse_command read_dentry_by_name strncmp
    read_dentry_by_index execute_file read_data start_process assign_pid claim_pcb strncpy
    enter_user load_frame set_up find_pcb started
nested = (_, refl)

-- A shell that runs in the base shell.
Reached-IsStack_example : (n : ℕ) × (ns : List ℕ) × IsStack nested.0 n ns
Reached-IsStack_example = Reached-IsStack nested.0 (
    next started.0 nested.0
      (boot locals command 0x08048054 user_stack idle started.0 (λ j small. refl) started.1)
      (execute locals command 0x08048054 user_stack nested.1))
