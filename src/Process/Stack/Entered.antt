-- ===== src/Process/Stack/Entered.antt =====
-- What is known of `system_execute` of mp3_group_59/student-distrib/syscall.c from its result alone: a
-- program that was entered.
use mathlib.Core.Option
use ece391_sp.Prelude.{
  ℕ, ◌+◌, ◌*◌, ◌/◌, ◌<◌, ◌≡◌, ◌≢◌, inl, inr, refl, ap, sym, ◌∙◌, arith, ◌==◌, ltb, if◌then◌else◌,
  Option, some, List, get_elem?, ℤ, pos, fail, to_u32, eqb_ℤ, u32_mod, ◌&&◌, ◌%◌, bind-some,
  if-cases,
}
use ece391_sp.Strings.{strlen, strncpy}
use ece391_sp.Filesystem.{Dentry, ◌>>=◌, read_data, read_dentry_by_name, bytes_32b}
use ece391_sp.Paging.{execute_paging_init, program_img_pde_index, size_4kb}
use ece391_sp.Paging.Layout.{frame as frame_address}
use ece391_sp.Process.{
  Kernel, find_pcb, assign_pid, assign_pid_error, end_of_kernel_page, kernel_stack_size,
  max_processes,
}
use ece391_sp.Process.Pids.{assign_pid_lem, active_at}
use ece391_sp.Process.Execute.{
  Outcome, returned, entered, Frame, parse_command, is_executable, bytes_to_cmpr, num_chars_kb,
  claim_pcb, load_frame, put_image, enter_user, set_up, start_process, execute_file,
  execute_command, system_execute,
}
use ece391_sp.Process.Execute.Image.{load_frame-put_image}
use ece391_sp.Process.Execute.Start.{frame_number_lem, stack_top, running, claimed}

-- A call that returned has not entered a program.
pub returned_not_entered :
    (r : ℤ) (eip esp : ℕ) (k k' : Kernel)
    → ◌≡◌ {A = Option (Outcome × Kernel)} (some (returned r, k)) (some (entered eip esp, k'))
    → ⊥
returned_not_entered r eip esp k k' h = ground (arith, h)

-- Process n, which was free, now runs, as a child of the one that ran before.
pub record IsEntered (n : ℕ) (k k' : Kernel) : Type 0 where
  pub assigned : assign_pid k.pcbs ≡ pos n
  pub bound : n < max_processes
  pub pid : k'.pid ≡ pos n
  pub at : k'.pcb_obj ≡ find_pcb (pos n)
  pub active : active_at k'.pcbs n ≡ 1
  pub parent : (k'.pcbs (find_pcb (pos n))).parent_pid ≡ (if n == 0 then fail else k.pid)
  pub others : (a : ℕ) → a ≢ find_pcb (pos n) → k'.pcbs a ≡ k.pcbs a
  pub stack : k'.esp0 + 4 + kernel_stack_size * n ≡ end_of_kernel_page
  pub page : (k'.paging.directory program_img_pde_index).table_addr ≡ frame_address n / size_4kb

running-IsEntered :
    (frame : Frame) (n : ℕ) (pcb_args bytes : List ℕ) (k : Kernel)
    → assign_pid k.pcbs ≡ pos n
    → n < max_processes
    → IsEntered n k (running frame n pcb_args bytes k)
unfolding set_up
running-IsEntered frame n pcb_args bytes k assigned small = record {
  assigned = assigned;
  bound = small;
  pid = refl;
  at = refl;
  active = ground arith;
  parent = ground arith;
  others = λ a ne. ground (arith, ne);
  stack = stack_top n small;
  page = frame_number_lem n k.paging small;
}

some-injective {ℓ} : {A : Type ℓ} (a b : A) → some a ≡ some b → a ≡ b
some-injective a b h = ap (λ r. Option.get_or r a) h

pub same_state :
    (o o' : Outcome) (k k' : Kernel)
    → ◌≡◌ {A = Option (Outcome × Kernel)} (some (o, k)) (some (o', k'))
    → k ≡ k'
same_state o o' k k' h = ap (λ (r : Option (Outcome × Kernel)). (Option.get_or r (o, k)).1) h

claim_pcb-claimed :
    (n : ℕ) (args : List ℕ) (k k1 : Kernel)
    → claim_pcb (pos n) args k ≡ some k1
    → (pcb_args : List ℕ) × (claimed n pcb_args k ≡ k1)
unfolding claim_pcb
claim_pcb-claimed n args k k1 h =
    let (pcb_args, copied, same) =
      bind-some (strncpy (k.pcbs (find_pcb (pos n))).args args bytes_32b) _ k1 h in
    (pcb_args, some-injective (claimed n pcb_args k) k1 same)

enter_user-IsEntered :
    (frame : Frame) (inode n : ℕ) (args bytes : List ℕ) (k k1 k' : Kernel) (o : Outcome)
    → assign_pid k.pcbs ≡ pos n
    → n < max_processes
    → claim_pcb (pos n) args k ≡ some k1
    → enter_user frame inode
        (put_image (record k1 { paging = execute_paging_init (n + 1) k1.paging }) bytes)
      ≡ some (o, k')
    → IsEntered n k k'
unfolding enter_user
enter_user-IsEntered frame inode n args bytes k k1 k' o assigned small claim h =
    let (pcb_args, same) = claim_pcb-claimed n args k k1 claim in
    let k3 = put_image (record k1 { paging = execute_paging_init (n + 1) k1.paging }) bytes in
    let (read, found, entry) = bind-some (read_data k3.fs inode 24 4) _ (o, k') h in
    rw (sym (same_state _ o (set_up frame k3) k' entry), sym same)
      (running-IsEntered frame n pcb_args bytes k assigned small)

-- What `start_process` does for process n once its PCB is claimed.
abbrev load_and_enter : Frame → ℕ → ℕ → ℕ → Kernel → Option (Outcome × Kernel)
load_and_enter frame inode size n k1 = do
  let k2 = record k1 { paging = execute_paging_init (n + 1) k1.paging }
  (ret, bytes) ← read_data k2.fs inode 0 size
  k3 ← load_frame k2 bytes
  if to_u32 ret == size then enter_user frame inode k3 else some (returned fail, k3)

start_process-claim :
    (frame : Frame) (inode size n : ℕ) (args : List ℕ) (k : Kernel)
    → assign_pid k.pcbs ≡ pos n
    → n < max_processes
    → start_process frame inode size args k
      ≡ (claim_pcb (pos n) args k >>= load_and_enter frame inode size n)
unfolding start_process
start_process-claim frame inode size n args k e small =
    let next : (n + 1) % u32_mod ≡ n + 1 = omega arith in rw (e, next)

start_process-full :
    (frame : Frame) (inode size : ℕ) (args : List ℕ) (k : Kernel)
    → assign_pid k.pcbs ≡ assign_pid_error
    → start_process frame inode size args k
      ≡ some (returned fail, record k { pid = assign_pid_error })
unfolding start_process
start_process-full frame inode size args k e = rw e

start_process-IsEntered :
    (frame : Frame) (inode size eip esp : ℕ) (args : List ℕ) (k k' : Kernel)
    → start_process frame inode size args k ≡ some (entered eip esp, k')
    → (n : ℕ) × IsEntered n k k'
start_process-IsEntered frame inode size eip esp args k k' h = elim (assign_pid_lem k.pcbs) [
  | inr (e, busy) ↦ absurd (
      returned_not_entered fail eip esp (record k { pid = assign_pid_error }) k'
        (sym (start_process-full frame inode size args k e) ∙ h))
  | inl (n, e, small, free, least) ↦
      let (k1, claim, rest) =
        bind-some (claim_pcb (pos n) args k) (load_and_enter frame inode size n)
          (entered eip esp, k') (sym (start_process-claim frame inode size n args k e small) ∙ h) in
      let k2 = record k1 { paging = execute_paging_init (n + 1) k1.paging } in
      let ((ret, bytes), read, last) =
        bind-some (read_data k2.fs inode 0 size) _ (entered eip esp, k') rest in
      let (k3, copied, entering) = bind-some (load_frame k2 bytes) _ (entered eip esp, k') last in
      elim (if-cases (to_u32 ret == size) _ _ _ entering) [
        | inl (whole, ran) ↦ (
          n,
          enter_user-IsEntered frame inode n args bytes k k1 k' (entered eip esp) e small claim
              (ap (enter_user frame inode) (load_frame-put_image k2 k3 bytes copied) ∙ ran),
        )
        | inr (part, ran) ↦ absurd (returned_not_entered fail eip esp k3 k' ran)
      ]
]

execute_file-IsEntered :
    (frame : Frame) (dentry : Dentry) (eip esp : ℕ) (args : List ℕ) (k k' : Kernel)
    → execute_file frame dentry args k ≡ some (entered eip esp, k')
    → (n : ℕ) × IsEntered n k k'
unfolding execute_file
execute_file-IsEntered frame dentry eip esp args k k' h =
    let inode = to_u32 dentry.inode_num in
    let (ino, listed, h1) = bind-some (get_elem? k.fs.inodes inode) _ (entered eip esp, k') h in
    let ((ret, bytes), read, h2) =
      bind-some (read_data k.fs inode 0 bytes_to_cmpr) _ (entered eip esp, k') h1 in
    elim (if-cases (eqb_ℤ ret (pos bytes_to_cmpr) && is_executable bytes) _ _ _ h2) [
      | inl (magic, ran) ↦
          start_process-IsEntered frame inode (to_u32 ino.length) eip esp args k k' ran
      | inr (no_magic, ran) ↦ absurd (returned_not_entered fail eip esp k k' ran)
    ]

execute_command-IsEntered :
    (frame : Frame) (command : List ℕ) (cmd_strlen eip esp : ℕ) (k k' : Kernel)
    → execute_command frame command cmd_strlen k ≡ some (entered eip esp, k')
    → (n : ℕ) × IsEntered n k k'
unfolding execute_command
execute_command-IsEntered frame command cmd_strlen eip esp k k' h =
    let ((fname, args), parsed, h1) =
      bind-some (parse_command frame.arg_starting_index command cmd_strlen) _ (entered eip esp, k')
        h in
    let ((ret, dentry), named, h2) =
      bind-some (read_dentry_by_name k.fs.boot_block fname frame.dentry) _ (entered eip esp, k')
        h1 in
    elim (if-cases (eqb_ℤ ret (pos 0)) _ _ _ h2) [
      | inl (found, ran) ↦ execute_file-IsEntered frame dentry eip esp args k k' ran
      | inr (missing, ran) ↦ absurd (returned_not_entered fail eip esp k k' ran)
    ]

-- Whatever the command, if `system_execute` enters a program, then the process that runs is the one that
-- `assign_pid` gave.
pub system_execute-IsEntered :
    (frame : Frame) (command : List ℕ) (eip esp : ℕ) (k k' : Kernel)
    → system_execute frame (some command) k ≡ some (entered eip esp, k')
    → (n : ℕ) × IsEntered n k k'
unfolding system_execute
system_execute-IsEntered frame command eip esp k k' h =
    let (cmd_strlen, measured, h1) = bind-some (strlen command) _ (entered eip esp, k') h in
    elim (if-cases (ltb num_chars_kb cmd_strlen) _ _ _ h1) [
      | inl (long, ran) ↦ absurd (returned_not_entered fail eip esp k k' ran)
      | inr (fits, ran) ↦ execute_command-IsEntered frame command cmd_strlen eip esp k k' ran
    ]
