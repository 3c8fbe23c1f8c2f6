-- ===== src/Process/Stack.antt =====
-- The running processes as a stack: what `system_execute` and `system_halt` of
-- mp3_group_59/student-distrib/syscall.c, and the calls between them, keep true of the PCBs, the two
-- globals, the TSS and the program page.
pub mod Entered
pub mod Calls
pub mod Invariant
pub mod Reachable
mod Tests
use ece391_sp.Prelude.{
  ℕ, ◌+◌, ◌*◌, ◌/◌, ◌<◌, ◌≡◌, ◌≢◌, ◌⊎◌, false, Option, some, List, [], ◌∷◌, ℤ, pos, fail,
}
use ece391_sp.Filesystem.{Dentry}
use ece391_sp.Paging.{program_img_pde_index, size_4kb}
use ece391_sp.Paging.Layout.{frame as frame_address}
use ece391_sp.Process.{Pcb, Kernel, find_pcb, end_of_kernel_page, kernel_stack_size, max_processes}
use ece391_sp.Process.Pids.{active_at}
use ece391_sp.Process.Files.{system_open, system_close, file_read, directory_read}
use ece391_sp.Process.Execute.{entered, resumed, Frame, system_execute}
use ece391_sp.Process.Halt.{system_halt, is_base_shell}
use ece391_sp.Syscall.{system_vidmap}

abbrev pub IsOn : ℕ → List ℕ → Type 0
IsOn j [] = ⊥
IsOn j (n ∷ ns) = (j ≡ n) ⊎ IsOn j ns

abbrev pub IsDistinct : List ℕ → Type 0
IsDistinct [] = Unit
IsDistinct (n ∷ ns) = (IsOn n ns → ⊥) × IsDistinct ns

-- Each PCB names the next process as its parent, and the last is the base shell.
abbrev pub IsLinked : (ℕ → Pcb) → ℕ → List ℕ → Type 0
IsLinked pcbs n [] = (n ≡ 0) × ((pcbs (find_pcb (pos n))).parent_pid ≡ fail)
IsLinked pcbs n (m ∷ ms) = ((pcbs (find_pcb (pos n))).parent_pid ≡ pos m) × IsLinked pcbs m ms

-- Process n runs, above the processes ns that wait for their children, down to the base shell.
pub record IsStack (k : Kernel) (n : ℕ) (ns : List ℕ) : Type 0 where
  pub pid : k.pid ≡ pos n
  pub at : k.pcb_obj ≡ find_pcb (pos n)
  pub linked : IsLinked k.pcbs n ns
  pub distinct : IsDistinct (n ∷ ns)
  pub bound : (j : ℕ) → IsOn j (n ∷ ns) → j < max_processes
  pub running : (j : ℕ) → IsOn j (n ∷ ns) → active_at k.pcbs j ≢ 0
  pub others_free : (j : ℕ) → j < max_processes → active_at k.pcbs j ≢ 0 → IsOn j (n ∷ ns)
  pub stack : k.esp0 + 4 + kernel_stack_size * n ≡ end_of_kernel_page
  pub page : (k.paging.directory program_img_pde_index).table_addr ≡ frame_address n / size_4kb

-- The calls that the running process can make. A call of `system_execute` that enters no program, and the
-- end of a base shell that cannot be started again, are not among them.
pub data Step (k k' : Kernel) : Type 0 where
  execute :
      (frame : Frame) (command : List ℕ) (eip esp : ℕ)
      → system_execute frame (some command) k ≡ some (entered eip esp, k')
      → Step k k'
  halt :
      (frame : Frame) (status ebp esp ret : ℕ)
      → is_base_shell k ≡ false
      → system_halt frame status k ≡ some (resumed ebp esp ret, k')
      → Step k k'
  restart :
      (frame : Frame) (status eip esp : ℕ)
      → system_halt frame status k ≡ some (entered eip esp, k')
      → Step k k'
  open_file :
      (blank : Dentry) (filename : List ℕ) (ret : ℤ)
      → system_open blank filename k ≡ some (ret, k')
      → Step k k'
  close : (fd : ℤ) (ret : ℤ) → system_close fd k ≡ some (ret, k') → Step k k'
  read_file :
      (fd : ℕ) (nbytes ret : ℤ) (bytes : List ℕ)
      → file_read fd nbytes k ≡ some (ret, bytes, k')
      → Step k k'
  read_directory :
      (blank : Dentry) (fd : ℕ) (ret : ℤ) (buff dest : List ℕ)
      → directory_read blank fd buff k ≡ some (ret, dest, k')
      → Step k k'
  vidmap :
      (video_at at : ℕ) (ret : ℤ) (stored : Option ℕ)
      → system_vidmap video_at at k ≡ some (ret, stored, k')
      → Step k k'

-- The states after a first `system_execute`, made while no process runs, and any calls after it.
pub data Reached : Kernel → Type 0 where
  boot :
      (frame : Frame) (command : List ℕ) (eip esp : ℕ) (k k' : Kernel)
      → ((j : ℕ) → j < max_processes → active_at k.pcbs j ≡ 0)
      → system_execute frame (some command) k ≡ some (entered eip esp, k')
      → Reached k'
  next : (k k' : Kernel) → Reached k → Step k k' → Reached k'
