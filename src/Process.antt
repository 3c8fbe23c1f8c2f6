-- ===== src/Process.antt =====
-- Processes and their open files: the PCBs and globals that mp3_group_59/student-distrib/syscall.c and
-- filesystem.c share. The PCBs lie in kernel memory and are read by their address.
pub mod Pids
pub mod Files
pub mod Execute
pub mod Halt
pub mod Stack
mod Tests
use ece391_sp.Prelude.{
  ℕ, zero, suc, ◌+◌, ◌-◌, ◌*◌, ◌%◌, ◌==◌, if◌then◌else◌, Bool, Option, none, some, List, [], ◌∷◌, ℤ,
  pos, negsuc, fail, u32_mod,
}
pub use ece391_sp.Prelude.{inc, dec}
use ece391_sp.Filesystem.{Filesystem}
use ece391_sp.Paging.{Paging}

-- The `file_operations_table_t` globals, which `fop` points at.
pub data Table : Type 0 where
  null stdin stdout rtc files directories : Table

-- `file_descriptor_t`; `none` is a null `fop`.
pub record FileDescriptor : Type 0 where
  pub fop : Option Table
  pub inode_idx : ℕ
  pub file_position : ℕ
  pub flags : ℕ
  pub file_type : ℕ

-- `pcb_t`; its `eip_val` is never used.
pub record Pcb : Type 0 where
  pub active : ℕ
  pub pcb_pid : ℤ
  pub parent_pid : ℤ
  pub fda : List FileDescriptor
  pub esp_val : ℕ
  pub ebp_val : ℕ
  pub tss_esp0 : ℕ
  pub args : List ℕ

-- The globals of syscall.c and filesystem.c, the two fields of the TSS that they set, the page tables,
-- the bytes of each 4 MB program frame, by the `table_addr` that selects it and the offset, and the interrupt flag.
pub record Kernel : Type 0 where
  pub pid : ℤ
  pub parent_pid : ℤ
  pub pcb_obj : ℕ
  pub pcbs : ℕ → Pcb
  pub ss0 : ℕ
  pub esp0 : ℕ
  pub paging : Paging
  pub frames : ℕ → ℕ → ℕ
  pub fs : Filesystem
  pub interrupts : Bool

abbrev pub max_processes : ℕ
max_processes = 5

abbrev pub end_of_kernel_page : ℕ
end_of_kernel_page = 0x800000

abbrev pub kernel_stack_size : ℕ
kernel_stack_size = 0x2000

abbrev pub max_open_files : ℕ
max_open_files = 8

abbrev pub file_desc_start_idx : ℕ
file_desc_start_idx = 2

-- ASSIGN_PID_ERROR, which is -99
abbrev pub assign_pid_error : ℤ
assign_pid_error = negsuc 98

-- `find_pcb`: the bottom of the process's kernel stack, as an address.
unfoldable pub find_pcb : ℤ → ℕ
find_pcb (pos n) = (end_of_kernel_page + u32_mod - kernel_stack_size * (n + 1) % u32_mod) % u32_mod
find_pcb (negsuc n) = (end_of_kernel_page + kernel_stack_size * n) % u32_mod

-- The loop of `assign_pid` from i on, by the rounds left.
unfoldable pub assign_from : (ℕ → Pcb) → ℕ → ℕ → ℤ
assign_from pcbs zero i = assign_pid_error
assign_from pcbs (suc rounds) i =
    if (pcbs (find_pcb (pos i))).active == 0 then pos i else assign_from pcbs rounds (i + 1)

unfoldable pub assign_pid : (ℕ → Pcb) → ℤ
unfolding assign_from
assign_pid pcbs = assign_from pcbs max_processes 0

-- The PCB that `pcb_obj` points at, and a write to it.
abbrev pub current : Kernel → Pcb
current k = k.pcbs k.pcb_obj

abbrev pub put_pcb : Kernel → Pcb → Kernel
put_pcb k p = record k { pcbs = λ a. if a == k.pcb_obj then p else k.pcbs a }
