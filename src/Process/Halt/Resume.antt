-- ===== src/Process/Halt/Resume.antt =====
-- A program's end: what `system_halt` of mp3_group_59/student-distrib/syscall.c restores.
use ece391_sp.Prelude.{
  ℕ, ◌+◌, ◌*◌, ◌<◌, ◌≡◌, ◌≢◌, refl, ap, sym, ◌∙◌, arith, ◌==◌, if◌then◌else◌, some, List, map,
  replicate, pos, true, false,
}
use ece391_sp.Filesystem.{bytes_32b}
use ece391_sp.Paging.{execute_paging_init}
use ece391_sp.Process.{
  Kernel, current, find_pcb, end_of_kernel_page, kernel_stack_size, max_processes,
}
use ece391_sp.Process.Pids.{find_pcb-injective}
use ece391_sp.Process.Execute.{Frame, resumed, cleared}
use ece391_sp.Process.Execute.Start.{IsStarted}
use ece391_sp.Process.Halt.{resume_parent, system_halt, is_base_shell, kernel_stack_top}

-- Process n, not the base shell, is running, and process m is its parent.
pub record IsChild (k : Kernel) (n m : ℕ) : Type 0 where
  pub pid : k.pid ≡ pos n
  pub at : k.pcb_obj ≡ find_pcb (pos n)
  pub parent : (current k).parent_pid ≡ pos m
  pub not_base : n ≢ 0
  pub bound : n < max_processes
  pub parent_bound : m < max_processes
  pub other : m ≢ n

-- What holds of the state to which a halt from k returns.
pub record IsResumed (n m : ℕ) (k k' : Kernel) : Type 0 where
  pub pid : k'.pid ≡ pos m
  pub at : k'.pcb_obj ≡ find_pcb (pos m)
  pub grandparent : k'.parent_pid ≡ (k.pcbs (find_pcb (pos m))).parent_pid
  pub freed : (k'.pcbs (find_pcb (pos n))).active ≡ 0
  pub args_cleared : (k'.pcbs (find_pcb (pos n))).args ≡ replicate bytes_32b 0
  pub closed : (k'.pcbs (find_pcb (pos n))).fda ≡ map cleared (k.pcbs (find_pcb (pos n))).fda
  pub others : (a : ℕ) → a ≢ find_pcb (pos n) → k'.pcbs a ≡ k.pcbs a
  pub stack : k'.esp0 + 4 + kernel_stack_size * m ≡ end_of_kernel_page
  pub paged : k'.paging ≡ execute_paging_init (m + 1) k.paging
  pub frames : k'.frames ≡ k.frames
  pub interruptible : k'.interrupts ≡ true

not_base_shell : (k : Kernel) (n m : ℕ) → IsChild k n m → is_base_shell k ≡ false
not_base_shell k n m c = ground (arith, c.pid, c.not_base)

parent_elsewhere : (k : Kernel) (n m : ℕ) → IsChild k n m → find_pcb (pos m) ≢ k.pcb_obj
parent_elsewhere k n m c e =
    c.other
      (find_pcb-injective m n (omega (arith, c.parent_bound)) (omega (arith, c.bound)) (e ∙ c.at))

kernel_stack_top_lem :
    (m : ℕ)
    → m < max_processes
    → kernel_stack_top (pos m) + 4 + kernel_stack_size * m ≡ end_of_kernel_page
kernel_stack_top_lem m h = omega arith

extended_status :
    (status : ℕ)
    → (if status == 255 then status + 1 else status) ≡ (if status == 255 then 256 else status)
extended_status status = ground arith

-- `system_halt` in a process with a running parent m returns into the parent's `execute` with the stack
-- registers saved in the child's PCB and the status, 256 for an exception's 255. Process m is current
-- again with its own page and stack; the child's PCB is free, its descriptors and arguments cleared, and
-- no other PCB has changed.
pub system_halt_lem :
    (frame : Frame) (status : ℕ) (k : Kernel) (n m : ℕ)
    → IsChild k n m
    → (k' : Kernel) × (system_halt frame status k
        ≡ some (
          resumed (current k).ebp_val (current k).esp_val (if status == 255 then 256 else status),
          k',
        ))
      × IsResumed n m k k'
unfolding system_halt resume_parent
system_halt_lem frame status k n m c = (
  (resume_parent (current k).esp_val (current k).ebp_val status
      (record k { interrupts = false })).1,
  rw (not_base_shell k n m c, extended_status status),
  record {
    pid = c.parent;
    at = ap find_pcb c.parent;
    grandparent = rw (c.parent) (ground (arith, parent_elsewhere k n m c));
    freed = ground (arith, c.at);
    args_cleared = ground (arith, c.at);
    closed = ground (arith, c.at);
    others = λ a ne. ground (arith, c.at, ne);
    stack = rw (c.parent) (kernel_stack_top_lem m c.parent_bound);
    paged =
        rw (c.parent) (ap (λ i. execute_paging_init i k.paging) (omega (arith, c.parent_bound)));
    frames = refl;
    interruptible = refl;
  },
)

-- A program that ends as it was started, whatever it did to its own memory: `execute` by process m and
-- then `halt` with a status gives control back to the caller with the registers that `execute` saved, on a
-- state in which the caller's number, PCB and parent are what they were, and so is every PCB but the
-- child's, which is free again.
pub system_halt-execute :
    (frame locals : Frame) (status : ℕ) (args bytes : List ℕ) (k k' : Kernel) (n m : ℕ)
    → IsStarted frame n args bytes k k'
    → k.pid ≡ pos m
    → k.pcb_obj ≡ find_pcb (pos m)
    → n ≢ 0
    → n < max_processes
    → m < max_processes
    → m ≢ n
    → (k'' : Kernel) × (system_halt locals status k'
        ≡ some (resumed frame.ebp frame.esp (if status == 255 then 256 else status), k''))
      × (k''.pid ≡ k.pid)
      × (k''.pcb_obj ≡ k.pcb_obj)
      × (k''.parent_pid ≡ (current k).parent_pid)
      × ((a : ℕ) → a ≢ find_pcb (pos n) → k''.pcbs a ≡ k.pcbs a)
      × ((k''.pcbs (find_pcb (pos n))).active ≡ 0)
system_halt-execute frame locals status args bytes k k' n m s at here nz hn hm ne =
    let child : IsChild k' n m = record {
      pid = s.pid;
      at = s.current_pcb;
      parent = s.parent ∙ ground (arith, nz, at);
      not_base = nz;
      bound = hn;
      parent_bound = hm;
      other = ne;
    } in
    let (k'', halted, r) = system_halt_lem locals status k' n m child in
    let elsewhere : find_pcb (pos m) ≢ find_pcb (pos n) =
      λ e. ne (find_pcb-injective m n (omega arith) (omega arith) e) in
    (
      k'',
      halted
          ∙ ap
              (λ b.
                some (resumed b (current k').esp_val (if status == 255 then 256 else status), k''))
              s.saved.1
          ∙ ap (λ e. some (resumed frame.ebp e (if status == 255 then 256 else status), k''))
              s.saved.0,
      r.pid ∙ sym at,
      r.at ∙ sym here,
      r.grandparent
          ∙ ap (λ p. p.parent_pid) (s.others (find_pcb (pos m)) elsewhere)
          ∙ ap (λ a. (k.pcbs a).parent_pid) (sym here),
      λ a other. r.others a other ∙ s.others a other,
      r.freed,
    )
