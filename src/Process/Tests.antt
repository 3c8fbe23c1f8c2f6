-- ===== src/Process/Tests.antt =====
-- Runs of the process numbers and file descriptors of mp3_group_59/student-distrib/syscall.c.
use ece391_sp.Prelude.{
  ℕ, ◌<◌, ◌≡◌, ◌≢◌, ◌⊎◌, refl, arith, none, some, List, [], ◌∷◌, ◌++◌, replicate, take, ℤ, pos,
  fail, true, if◌then◌else◌, ◌==◌, set,
}
use ece391_sp.Filesystem.{Dentry, Inode, Filesystem}
use ece391_sp.Filesystem.Directory.{IsDirectory, first_named}
use ece391_sp.Filesystem.Contents.{IsFile, stream}
use ece391_sp.Paging.{absent_pde, identity_pte}
use ece391_sp.Process.{
  FileDescriptor, Pcb, Kernel, find_pcb, assign_pid, assign_pid_error, files, stdin,
}
use ece391_sp.Process.Pids.{assign_pid_lem, active_at}
use ece391_sp.Process.Files.{system_open, file_read, put_fda, opened}
use ece391_sp.Process.Files.Open.{system_open_lem, OpensLeast, finish, table_for}
use ece391_sp.Process.Files.Read.{IsOpenAt, file_read_lem, moved}

abbrev name_of : List ℕ → List ℕ
name_of s = take 32 (s ++ replicate 32 0)

abbrev note : Dentry
note = record { file_name = name_of (b'n' ∷ []); file_type = pos 2; inode_num = pos 0 }

abbrev unused : Dentry
unused = record { file_name = name_of []; file_type = pos 0; inode_num = pos 0 }

abbrev ino : Inode
ino = record { length = pos 5; data_block_num = pos 0 ∷ [] }

-- One file, "n", that holds "hello".
abbrev image : Filesystem
image = record {
  boot_block = record {
    dir_count = pos 1;
    inode_count = pos 1;
    data_count = pos 1;
    direntries = note ∷ replicate 62 unused;
  };
  inodes = ino ∷ [];
  data_blocks = ((b'h' ∷ b'e' ∷ b'l' ∷ b'l' ∷ b'o' ∷ []) ++ replicate 4091 0) ∷ [];
}

abbrev closed : FileDescriptor
closed = record { fop = none; inode_idx = 0; file_position = 0; flags = 0; file_type = 0 }

abbrev console : FileDescriptor
console = record { fop = some stdin; inode_idx = 0; file_position = 0; flags = 1; file_type = 3 }

abbrev shell_pcb : Pcb
shell_pcb = record {
  active = 1;
  pcb_pid = pos 0;
  parent_pid = fail;
  fda = console ∷ console ∷ replicate 6 closed;
  esp_val = 0;
  ebp_val = 0;
  tss_esp0 = 0;
  args = replicate 32 0;
}

abbrev machine : Kernel
machine = record {
  pid = pos 0;
  parent_pid = fail;
  pcb_obj = 0x7fe000;
  pcbs = λ a. if a == 0x7fe000 then shell_pcb else record shell_pcb { active = 0 };
  ss0 = 0x18;
  esp0 = 0x7ffffc;
  paging = record {
    directory = absent_pde;
    table = identity_pte 0;
    video = identity_pte 0;
    loads = 0;
  };
  frames = λ _ _. 0;
  fs = image;
  interrupts = true;
}

assign_pid_lem_example :
    ((n : ℕ) × (assign_pid machine.pcbs ≡ pos n)
      × (n < 5)
      × (active_at machine.pcbs n ≡ 0)
      × ((j : ℕ) → j < n → active_at machine.pcbs j ≢ 0))
    ⊎ ((assign_pid machine.pcbs ≡ assign_pid_error)
        × ((j : ℕ) → j < 5 → active_at machine.pcbs j ≢ 0))
assign_pid_lem_example = assign_pid_lem machine.pcbs

second_number : assign_pid machine.pcbs ≡ pos 1
unfolding assign_pid find_pcb
second_number = refl

machine-IsDirectory : IsDirectory 1 machine.fs.boot_block
machine-IsDirectory = record {
  counted = refl;
  room = refl;
  fits = omega arith;
  names = omega arith;
}

system_open_lem_example :
    let found = first_named (b'n' ∷ []) (note ∷ []) in
    (found ≡ none → system_open unused (name_of (b'n' ∷ [])) machine ≡ some (fail, machine))
    × ((e : Dentry) (t : ℕ)
        → found ≡ some e
        → t < 3
        → e.file_type ≡ pos t
        → (r : ℤ × List FileDescriptor) × (system_open unused (name_of (b'n' ∷ [])) machine
            ≡ some (finish machine r))
          × OpensLeast (opened (table_for t) t e) shell_pcb.fda 2 8 r)
system_open_lem_example =
    system_open_lem unused (name_of (b'n' ∷ [])) machine 1 machine-IsDirectory (omega arith)
      (omega arith) refl

abbrev reader : Kernel
reader = put_fda machine (set shell_pcb.fda 2 (record (opened files 2 note) { file_position = 3 }))

image-IsFile : IsFile image 0 ino 5
image-IsFile = record {
  listed = refl;
  counted = omega arith;
  sized = refl;
  small = omega arith;
  held = ((λ _. (omega arith, refl)), refl);
}

reader-IsOpenAt : IsOpenAt reader 2 (record (opened files 2 note) { file_position = 3 }) ino 5 3
reader-IsOpenAt = record { here = refl; file = image-IsFile; at = refl; within = omega arith }

file_read_lem_example :
    (k' : Kernel) × (file_read 2 (pos 4) reader ≡ some (pos 2, b'l' ∷ b'o' ∷ [], k'))
    × IsOpenAt k' 2 (moved (record (opened files 2 note) { file_position = 3 }) 5) ino 5 5
    × (k'.fs ≡ image)
unfolding stream
file_read_lem_example =
    file_read_lem reader 2 3 (record (opened files 2 note) { file_position = 3 }) ino 5 3
      reader-IsOpenAt (omega arith)
