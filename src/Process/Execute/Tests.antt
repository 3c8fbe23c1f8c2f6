-- ===== src/Process/Execute/Tests.antt =====
-- Runs of `system_execute` on small commands and an image with one program.
use ece391_sp.Prelude.{
  ℕ, ◌<◌, ◌≡◌, ◌≢◌, refl, arith, none, some, List, [], ◌∷◌, ◌++◌, replicate, true, if◌then◌else◌,
  ◌==◌, pos, negsuc, fail,
}
use ece391_sp.Filesystem.{Dentry, Inode, Filesystem}
use ece391_sp.Filesystem.Contents.{IsFile, contents, stream}
use ece391_sp.Paging.{Paging, absent_pde, identity_pte}
use ece391_sp.Process.{FileDescriptor, Pcb, Kernel, find_pcb, assign_pid}
use ece391_sp.Process.Pids.{active_at}
use ece391_sp.Process.Execute.{
  Frame, parse_command, execute_file, entered, returned, resumed, user_stack,
}
use ece391_sp.Process.Execute.Start.{IsStarted, execute_file_lem, full_table_loses_pid}
use ece391_sp.Process.Halt.{system_halt}
use ece391_sp.Process.Halt.Resume.{system_halt-execute}

abbrev cat_a : List ℕ
cat_a = b'c' ∷ b'a' ∷ b't' ∷ b' ' ∷ b'a' ∷ 0 ∷ []

parse_cat_a :
    parse_command fail cat_a 5
    ≡ some ((b'c' ∷ b'a' ∷ b't' ∷ 0 ∷ b'a' ∷ []) ++ replicate 123 0, b'a' ∷ replicate 127 0)
unfolding parse_command
parse_cat_a = refl

-- A program of 30 bytes that starts at 0x08048054.
abbrev program : List ℕ
program = (0x7f ∷ 0x45 ∷ 0x4c ∷ 0x46 ∷ replicate 20 0) ++ (0x54 ∷ 0x80 ∷ 0x04 ∷ 0x08 ∷ 1 ∷ 2 ∷ [])

abbrev shell : Dentry
shell = record { file_name = replicate 32 b's'; file_type = pos 2; inode_num = pos 0 }

abbrev ino : Inode
ino = record { length = pos 30; data_block_num = pos 0 ∷ [] }

abbrev image : Filesystem
image = record {
  boot_block = record {
    dir_count = pos 1;
    inode_count = pos 1;
    data_count = pos 1;
    direntries = shell ∷ [];
  };
  inodes = ino ∷ [];
  data_blocks = (program ++ replicate 4066 0) ∷ [];
}

abbrev closed : FileDescriptor
closed = record { fop = none; inode_idx = 0; file_position = 0; flags = 0; file_type = 0 }

abbrev blank_pcb : Pcb
blank_pcb = record {
  active = 0;
  pcb_pid = pos 0;
  parent_pid = pos 0;
  fda = replicate 8 closed;
  esp_val = 0;
  ebp_val = 0;
  tss_esp0 = 0;
  args = replicate 32 0;
}

abbrev tables : Paging
tables = record {
  directory = absent_pde;
  table = identity_pte 0;
  video = identity_pte 0;
  loads = 0;
}

-- The state in which the base shell, process 0, runs alone.
abbrev base : Kernel
base = record {
  pid = pos 0;
  parent_pid = fail;
  pcb_obj = 0x7fe000;
  pcbs =
      λ a. if a == 0x7fe000 then record blank_pcb { active = 1; parent_pid = fail } else blank_pcb;
  ss0 = 0x18;
  esp0 = 0x7ffffc;
  paging = tables;
  frames = λ _ _. 0;
  fs = image;
  interrupts = true;
}

abbrev locals : Frame
locals = record {
  arg_starting_index = pos 0;
  first_inst = replicate 4 0;
  dentry = shell;
  esp = 0x7ffe00;
  ebp = 0x7ffe40;
}

image-IsFile : IsFile image 0 ino 30
unfolding stream
image-IsFile = record {
  listed = refl;
  counted = omega arith;
  sized = refl;
  small = omega arith;
  held = ((λ _. (omega arith, refl)), refl);
}

first_free : assign_pid base.pcbs ≡ pos 1
unfolding assign_pid find_pcb
first_free = refl

-- Process 1 is entered at 0x08048054.
execute_file_lem_example :
    (k' : Kernel) × (execute_file locals shell (b'x' ∷ replicate 127 0) base
      ≡ some (entered 0x08048054 user_stack, k'))
    × IsStarted locals 1 (b'x' ∷ replicate 127 0) (contents image ino 30) base k'
unfolding stream find_pcb
execute_file_lem_example =
    execute_file_lem locals shell 30 1 ino (b'x' ∷ replicate 127 0) base first_free (omega arith)
      image-IsFile (omega arith) (omega arith) refl (omega arith) (omega arith)

-- The base shell starts process 1, which ends with an exception.
system_halt-execute_example :
    let k' = execute_file_lem_example.0 in
    (k'' : Kernel) × (system_halt locals 255 k' ≡ some (resumed 0x7ffe40 0x7ffe00 256, k''))
    × (k''.pid ≡ pos 0)
    × (k''.pcb_obj ≡ 0x7fe000)
    × (k''.parent_pid ≡ fail)
    × ((a : ℕ) → a ≢ find_pcb (pos 1) → k''.pcbs a ≡ base.pcbs a)
    × ((k''.pcbs (find_pcb (pos 1))).active ≡ 0)
system_halt-execute_example =
    system_halt-execute locals locals 255 (b'x' ∷ replicate 127 0) (contents image ino 30) base
      execute_file_lem_example.0 1 0 execute_file_lem_example.2 refl (unfold find_pcb in refl)
      (omega arith) (omega arith) (omega arith) (omega arith)

busy_all : (j : ℕ) → j < 5 → active_at (λ _. record blank_pcb { active = 1 }) j ≢ 0
busy_all j h = omega arith

full_table_loses_pid_example :
    let k = record base { pcbs = λ _. record blank_pcb { active = 1 } } in
    execute_file locals shell (replicate 128 0) k
    ≡ some (returned fail, record k { pid = negsuc 98 })
unfolding stream
full_table_loses_pid_example =
    let k : Kernel = record base { pcbs = λ _. record blank_pcb { active = 1 } } in
    full_table_loses_pid locals shell 30 ino (replicate 128 0) k busy_all image-IsFile (omega arith)
      refl
