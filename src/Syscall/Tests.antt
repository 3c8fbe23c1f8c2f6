-- ===== src/Syscall/Tests.antt =====
-- Runs of the system calls of mp3_group_59/student-distrib/syscall.c, and of cat, on an image with one file.
use Prim.{tt}
use native.Mathlib.Decide.{ℕ_discrete}
use ece391_sp.Prelude.{
  ℕ, ◌+◌, ◌-◌, ◌*◌, ◌<◌, ◌≤◌, ◌≡◌, ◌⊎◌, refl, arith, none, some, [], ◌∷◌, ◌++◌, replicate, pos,
  fail, true, set, codes,
}
use ece391_sp.Filesystem.{Dentry, Inode, Filesystem}
use ece391_sp.Filesystem.Directory.{IsDirectory, first_named, names_discrete}
use ece391_sp.Filesystem.Contents.{IsFile, stream}
use ece391_sp.Paging.{absent_pde, identity_pte}
use ece391_sp.Paging.Walk.{walk, user}
use ece391_sp.Process.{FileDescriptor, Pcb, Kernel, stdin, stdout, files}
use ece391_sp.Process.Files.{system_close, put_fda, opened}
use ece391_sp.Devices.Pic.{Pic}
use ece391_sp.Console.{TerminalStruct, Console, video}
use ece391_sp.Console.Terminal.Write.{put_all, IsNonzero}
use ece391_sp.Syscall.{
  Machine, Events, system_read, system_write, system_vidmap, img_big_start, pagesize_4mb,
  user_vmem_addr,
}
use ece391_sp.Strings.{chars}
use ece391_sp.Devices.Idt.{page_fault}
use ece391_sp.Process.{find_pcb}
use ece391_sp.Process.Execute.{Frame, resumed}
use ece391_sp.Process.Halt.Resume.{IsChild, IsResumed}
use ece391_sp.Syscall.Exceptions.{exception, error_name, error_line, exception_lem}
use ece391_sp.Syscall.Dispatch.{system_read-system_close}
use ece391_sp.Syscall.Vidmap.{system_vidmap_lem}
use ece391_sp.Syscall.Programs.{cat}
use ece391_sp.Syscall.Programs.Whole.{AllBytes-replicate, IsCatInput, cat_lem}

abbrev note : Dentry
note = record { file_name = b'n' ∷ replicate 31 0; file_type = pos 2; inode_num = pos 0 }

abbrev unused : Dentry
unused = record { file_name = replicate 32 0; file_type = pos 0; inode_num = pos 0 }

abbrev ino : Inode
ino = record { length = pos 5; data_block_num = pos 0 ∷ [] }

-- One file, "n", that holds "hello".
abbrev image : Filesystem
image = record {
  boot_block = record {
    dir_count = pos 1;
    inode_count = pos 1;
    data_count = pos 1;
    direntries = note ∷ replicate 62 unused;
  };
  inodes = ino ∷ [];
  data_blocks = (codes "hello" ++ replicate 4091 0) ∷ [];
}

abbrev closed : FileDescriptor
closed = record { fop = none; inode_idx = 0; file_position = 0; flags = 0; file_type = 0 }

abbrev keys : FileDescriptor
keys = record { fop = some stdin; inode_idx = 0; file_position = 0; flags = 1; file_type = 3 }

abbrev screen : FileDescriptor
screen = record { fop = some stdout; inode_idx = 0; file_position = 0; flags = 1; file_type = 3 }

-- A program that was started with the argument "n".
abbrev cat_pcb : Pcb
cat_pcb = record {
  active = 1;
  pcb_pid = pos 1;
  parent_pid = pos 0;
  fda = keys ∷ screen ∷ replicate 6 closed;
  esp_val = 0;
  ebp_val = 0;
  tss_esp0 = 0;
  args = b'n' ∷ replicate 31 0;
}

abbrev kernel : Kernel
kernel = record {
  pid = pos 1;
  parent_pid = pos 0;
  pcb_obj = 0x7fc000;
  pcbs = λ _. cat_pcb;
  ss0 = 0x18;
  esp0 = 0x7fdffc;
  paging = record {
    directory = absent_pde;
    table = identity_pte 0;
    video = identity_pte 0;
    loads = 0;
  };
  frames = λ _ _. 0;
  fs = image;
  interrupts = true;
}

abbrev terminal : ℕ → TerminalStruct
terminal id = record {
  video_mem_addr = video + (id + 1) * 4096;
  active = 1;
  saved_buffer = replicate 128 0;
  screen_X = 0;
  screen_Y = 0;
}

abbrev quiet : Pic
quiet = record { master_mask = 0xFD; slave_mask = 0xFF; log = [] }

abbrev console : Console
console = record {
  screen_x = 0;
  screen_y = 1;
  memory = λ a. 0;
  pic = quiet;
  ctrl_pressed = 0;
  shift_pressed = 0;
  capslock_pressed = 0;
  alt_pressed = 0;
  keyboard_buffer = replicate 128 0;
  num_chars_typed = 0;
  enter_pressed_flag = 0;
  curr_terminal_id = 0;
  terminals = terminal;
}

abbrev machine : Machine
machine = record { kernel = kernel; console = console; in_count = 0 }

abbrev no_events : Events
no_events = record { codes = []; ticks = 0; prev = 0; dentry = unused }

image-IsFile : IsFile image 0 ino 5
image-IsFile = record {
  listed = refl;
  counted = omega arith;
  sized = refl;
  small = omega arith;
  held = ((λ _. (omega arith, refl)), refl);
}

image-IsDirectory : IsDirectory 1 image.boot_block
image-IsDirectory = record { counted = refl; room = refl; fits = omega arith; names = omega arith }

cat_machine-IsCatInput : IsCatInput machine 1 note screen ino 5
unfolding first_named names_discrete ℕ_discrete
cat_machine-IsCatInput = record {
  named = omega arith;
  ended = omega arith;
  short = omega arith;
  bytes = (omega arith, AllBytes-replicate 31);
  directory = image-IsDirectory;
  found = refl;
  typed = refl;
  eight = refl;
  free = (2, omega arith, omega arith, refl);
  output = refl;
  screen = refl;
  file = image-IsFile;
}

hello-IsNonzero : IsNonzero (codes "hello")
hello-IsNonzero = (
  (λ z. omega (arith, z)),
  (
    (λ z. omega (arith, z)),
    ((λ z. omega (arith, z)), ((λ z. omega (arith, z)), ((λ z. omega (arith, z)), tt))),
  ),
)

-- `cat n` shows "hello".
cat_lem_example :
    (m' : Machine) × (cat 2 no_events (replicate 1024 0) machine ≡ some (pos 0, m'))
    × (m'.console ≡ put_all (codes "hello") console)
unfolding stream
cat_lem_example =
    cat_lem 1 no_events (replicate 1024 0) machine 1 note screen ino 5 cat_machine-IsCatInput refl
      (omega arith) (omega arith) hello-IsNonzero

system_vidmap_lem_example :
    ((0x8048000 < img_big_start) ⊎ (img_big_start + pagesize_4mb < 0x8048000)
      → system_vidmap 0x405000 0x8048000 kernel ≡ some (fail, none, kernel))
    × (img_big_start ≤ 0x8048000
        → 0x8048000 + 4 ≤ img_big_start + pagesize_4mb
        → (k' : Kernel) × (system_vidmap 0x405000 0x8048000 kernel
            ≡ some (pos 0, some user_vmem_addr, k'))
          × ((v : ℕ)
              → user_vmem_addr ≤ v
              → v < user_vmem_addr + 4096
              → walk 0x404000 0x405000 user k'.paging v ≡ some (0xB8000 + (v - user_vmem_addr))))
    × (img_big_start + pagesize_4mb < 0x8048000 + 4
        → 0x8048000 ≤ img_big_start + pagesize_4mb
        → system_vidmap 0x405000 0x8048000 kernel ≡ none)
system_vidmap_lem_example = system_vidmap_lem 0x404000 0x405000 0x8048000 kernel (omega arith)

abbrev reading : Machine
reading = record machine { kernel = put_fda kernel (set cat_pcb.fda 2 (opened files 2 note)) }

system_read-system_close_example :
    (k : Kernel) × (system_close (pos 2) reading.kernel ≡ some (pos 0, k))
    × (let m' = record reading { kernel = k } in
        (system_read no_events (pos 2) (some (replicate 4 0)) (pos 4) m'
          ≡ some (fail, some (replicate 4 0), m'))
        × (system_write no_events (pos 2) (some (replicate 4 0)) (pos 4) m' ≡ some (fail, m')))
system_read-system_close_example =
    system_read-system_close no_events 2 (replicate 4 0) (pos 4) reading (opened files 2 note) refl
      (omega arith) (omega arith) (omega arith)

cat_machine-IsChild : IsChild kernel 1 0
unfolding find_pcb
cat_machine-IsChild = record {
  pid = refl;
  at = refl;
  parent = refl;
  not_base = omega arith;
  bound = omega arith;
  parent_bound = omega arith;
  other = omega arith;
}

abbrev locals : Frame
locals = record {
  arg_starting_index = pos 0;
  first_inst = replicate 4 0;
  dentry = unused;
  esp = 0x7ffe00;
  ebp = 0x7ffe40;
}

-- A page fault in cat.
exception_lem_example :
    (m' : Machine) × (exception locals (replicate 64 9) page_fault machine
      ≡ some (resumed 0 0 256, m'))
    × IsResumed 1 0 kernel m'.kernel
    × (m'.console ≡ put_all (chars (error_line "Page_Fault")) (put_all (codes "Error: ") console))
unfolding error_name
exception_lem_example =
    exception_lem locals (replicate 64 9) page_fault "Page_Fault" machine 1 0 refl
      cat_machine-IsChild
