-- ===== src/Process/Halt.antt =====
-- `system_halt` of mp3_group_59/student-distrib/syscall.c: the way back to the parent, or the restart of
-- the base shell.
pub mod Resume
use mathlib.Core.Option
use ece391_sp.Prelude.{
  ℕ, zero, suc, ◌+◌, ◌-◌, ◌*◌, ◌%◌, ◌==◌, if◌then◌else◌, Bool, true, false, ◌&&◌, Option, none,
  some, List, [], ◌∷◌, map, replicate, ℤ, pos, negsuc, fail, to_u32, u32_mod, eqb_ℤ,
}
use ece391_sp.Filesystem.{bytes_32b, ◌>>=◌}
use ece391_sp.Paging.{execute_paging_init}
use ece391_sp.Process.{
  Table, null, FileDescriptor, Pcb, Kernel, current, put_pcb, find_pcb, inc, end_of_kernel_page,
  kernel_stack_size,
}
use ece391_sp.Process.Execute.{
  Frame, Outcome, returned, entered, resumed, system_execute, kernel_ds, cleared,
}

-- "shell"
abbrev pub shell_command : List ℕ
shell_command = b's' ∷ b'h' ∷ b'e' ∷ b'l' ∷ b'l' ∷ 0 ∷ []

-- `KERNEL_END - KERNEL_STACK_WIDTH * pid - 4`
abbrev pub kernel_stack_top : ℤ → ℕ
kernel_stack_top (pos n) =
    (end_of_kernel_page + u32_mod - kernel_stack_size * n % u32_mod - 4) % u32_mod
kernel_stack_top (negsuc n) = (end_of_kernel_page + kernel_stack_size * suc n - 4) % u32_mod

-- The fields of the PCB that both branches clear.
abbrev pub emptied : Pcb → Pcb
emptied p = record p {
  active = 0;
  ebp_val = 0;
  esp_val = 0;
  tss_esp0 = 0;
  args = replicate bytes_32b 0;
}

abbrev pub flags_cleared : FileDescriptor → FileDescriptor
flags_cleared d = record d { flags = 0 }

-- What the branch for the base shell does before it starts the shell again.
unfoldable pub reset_shell : Kernel → Kernel
reset_shell k =
    let p = emptied (current k) in
    let pcb = record p { fda = map flags_cleared p.fda } in
    put_pcb
      (record k {
        ss0 = kernel_ds;
        esp0 = end_of_kernel_page - 4;
        paging = execute_paging_init 0 k.paging;
        interrupts = false;
      })
      pcb

-- The way back to the parent, with the status that the handler returns.
unfoldable pub resume_parent : ℕ → ℕ → ℕ → Kernel → Outcome × Kernel
resume_parent esp_val ebp_val status k =
    let old = current k in
    let parent_ptr = find_pcb old.parent_pid in
    let e = emptied old in
    let pcb = record e { fda = map cleared e.fda } in
    let k1 =
      put_pcb
        (record k {
          ss0 = kernel_ds;
          esp0 = kernel_stack_top old.parent_pid;
          paging = execute_paging_init (to_u32 (inc old.parent_pid)) k.paging;
        })
        pcb in
    let k2 = record k1 {
      pid = old.parent_pid;
      parent_pid = (k1.pcbs parent_ptr).parent_pid;
      pcb_obj = parent_ptr;
      interrupts = true;
    } in
    (resumed ebp_val esp_val (if status == 255 then status + 1 else status), k2)

abbrev pub is_base_shell : Kernel → Bool
is_base_shell k = eqb_ℤ k.pid (pos 0) && eqb_ℤ (current k).parent_pid fail

-- Only a shell that could not be started lets the base shell's branch fall through.
abbrev pub after_shell : ℕ → ℕ → ℕ → Outcome × Kernel → Outcome × Kernel
after_shell esp_val ebp_val status (returned r, k) = resume_parent esp_val ebp_val status k
after_shell esp_val ebp_val status (entered eip esp, k) = (entered eip esp, k)
after_shell esp_val ebp_val status (resumed ebp esp s, k) = (resumed ebp esp s, k)

-- `system_halt`, on a `uint8_t`. The two saved registers are read before the PCB is cleared.
unfoldable pub system_halt : Frame → ℕ → Kernel → Option (Outcome × Kernel)
system_halt frame status k =
    let esp_val = (current k).esp_val in
    let ebp_val = (current k).ebp_val in
    let restarted = system_execute frame (some shell_command) (reset_shell k) in
    if is_base_shell k
    then Option.map (after_shell esp_val ebp_val status) restarted
    else some (resume_parent esp_val ebp_val status (record k { interrupts = false }))
