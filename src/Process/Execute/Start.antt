-- ===== src/Process/Execute/Start.antt =====
-- The process that `system_execute` of mp3_group_59/student-distrib/syscall.c starts.
use Prim.Native.Nat.{min}
use ece391_sp.Prelude.{
  ℕ, zero, suc, ◌+◌, ◌-◌, ◌*◌, ◌/◌, ◌%◌, ◌≤◌, ◌<◌, ◌≡◌, ◌≢◌, refl, get_elem?, ◌∙◌, arith, ◌==◌,
  if◌then◌else◌, some, List, ◌++◌, length, take, drop, replicate, pos, fail, to_u32, u32_mod, true,
  ◌⊎◌, inl, inr,
}
use ece391_sp.Strings.{chars}
use ece391_sp.Strings.Copy.{strncpy_lem}
use ece391_sp.Filesystem.{Filesystem, Inode, Dentry, read_data, bytes_32b}
use ece391_sp.Filesystem.Contents.{IsFile, contents, slice, read_data_lem, take-take, stream}
use ece391_sp.Paging.{Paging, execute_paging_init, program_img_pde_index, size_4kb}
use ece391_sp.Paging.Layout.{frame as frame_address}
use ece391_sp.Process.{
  Kernel, current, put_pcb, assign_pid, find_pcb, dec, assign_pid_error, end_of_kernel_page,
  kernel_stack_size, max_processes,
}
use ece391_sp.Process.Pids.{assign_pid_lem, active_at}
use ece391_sp.Process.Execute.{
  returned, entered, Frame, init_fda, overlay, le_word, user_stack, put_image, claim_pcb, set_up,
  enter_user, start_process, execute_file, is_executable, size_program_img,
}
use ece391_sp.Process.Execute.Image.{write_at_inside, write_at_outside, whole_image}

-- What holds after process n was started from the state k with a file of the given bytes.
pub record IsStarted (frame : Frame) (n : ℕ) (args bytes : List ℕ) (k k' : Kernel) : Type 0 where
  pub pid : k'.pid ≡ pos n
  pub current_pcb : k'.pcb_obj ≡ find_pcb (pos n)
  pub active : (current k').active ≡ 1
  pub numbered : (current k').pcb_pid ≡ pos n
  pub parent : (current k').parent_pid ≡ (if n == 0 then fail else k.pid)
  pub args_kept :
      (current k').args
      ≡ take bytes_32b (chars args ++ replicate bytes_32b 0)
        ++ drop bytes_32b (k.pcbs (find_pcb (pos n))).args
  pub fda : (current k').fda ≡ init_fda (k.pcbs (find_pcb (pos n))).fda
  pub saved : ((current k').esp_val ≡ frame.esp) × ((current k').ebp_val ≡ frame.ebp)
  pub others : (a : ℕ) → a ≢ find_pcb (pos n) → k'.pcbs a ≡ k.pcbs a
  pub stack : k'.esp0 + 4 + kernel_stack_size * n ≡ end_of_kernel_page
  pub paged : k'.paging ≡ execute_paging_init (n + 1) k.paging
  pub loaded :
      (i v : ℕ)
      → get_elem? bytes i ≡ some v
      → k'.frames (frame_address n / size_4kb) (0x48000 + i) ≡ v
  pub around :
      (o : ℕ)
      → (o < 0x48000) ⊎ (0x48000 + length bytes ≤ o)
      → k'.frames (frame_address n / size_4kb) o ≡ k.frames (frame_address n / size_4kb) o
  pub other_frames : (a : ℕ) → a ≢ frame_address n / size_4kb → k'.frames a ≡ k.frames a
  pub fs : k'.fs ≡ k.fs
  pub interruptible : k'.interrupts ≡ true

pub frame_number_lem :
    (n : ℕ) (p : Paging)
    → n < 5
    → ((execute_paging_init (n + 1) p).directory program_img_pde_index).table_addr
      ≡ frame_address n / size_4kb
unfolding execute_paging_init
frame_number_lem n p h = ground arith

-- The state once the PCB is claimed and its arguments are the given bytes.
abbrev pub claimed : ℕ → List ℕ → Kernel → Kernel
claimed n pcb_args k =
    let at = find_pcb (pos n) in
    let old = k.pcbs at in
    let parent = if n == 0 then fail else k.pid in
    put_pcb (record k { pid = pos n; pcb_obj = at })
      (record old { pcb_pid = pos n; parent_pid = parent; active = 1; args = pcb_args })

-- The state in which the program is entered.
abbrev pub running : Frame → ℕ → List ℕ → List ℕ → Kernel → Kernel
running frame n pcb_args bytes k =
    let k1 = claimed n pcb_args k in
    set_up frame (put_image (record k1 { paging = execute_paging_init (n + 1) k1.paging }) bytes)

abbrev kept_args : List ℕ → List ℕ → List ℕ
kept_args args old = take bytes_32b (chars args ++ replicate bytes_32b 0) ++ drop bytes_32b old

claim_pcb_lem :
    (n : ℕ) (args : List ℕ) (k : Kernel)
    → 32 < length args
    → 32 ≤ length (k.pcbs (find_pcb (pos n))).args
    → claim_pcb (pos n) args k
      ≡ some (claimed n (kept_args args (k.pcbs (find_pcb (pos n))).args) k)
unfolding claim_pcb
claim_pcb_lem n args k la lp = rw (strncpy_lem 32 (k.pcbs (find_pcb (pos n))).args args la lp)

pub stack_top :
    (n : ℕ)
    → n < max_processes
    → (find_pcb (dec (pos n)) + u32_mod - 4) % u32_mod + 4 + kernel_stack_size * n
      ≡ end_of_kernel_page
unfolding find_pcb
stack_top zero h = refl
stack_top (suc n) h = omega arith

own_frame :
    (n : ℕ) (p : Paging)
    → n < 5
    → (frame_address n / size_4kb
        == ((execute_paging_init (n + 1) p).directory program_img_pde_index).table_addr)
      ≡ true
own_frame n p h = ground (arith, frame_number_lem n p h)

running-IsStarted :
    (frame : Frame) (n : ℕ) (args bytes : List ℕ) (k : Kernel)
    → n < max_processes
    → IsStarted frame n args bytes k
        (running frame n (kept_args args (k.pcbs (find_pcb (pos n))).args) bytes k)
unfolding set_up
running-IsStarted frame n args bytes k h = record {
  pid = refl;
  current_pcb = refl;
  active = ground arith;
  numbered = ground arith;
  parent = ground arith;
  args_kept = ground arith;
  fda = ground arith;
  saved = ground arith;
  others = λ a ne. ground (arith, ne);
  stack = stack_top n h;
  paged = refl;
  loaded = λ i v at.
      rw (own_frame n k.paging h)
        (write_at_inside 0x48000 i v bytes (k.frames (frame_address n / size_4kb)) at);
  around = λ o out.
      rw (own_frame n k.paging h)
        (write_at_outside 0x48000 o bytes (k.frames (frame_address n / size_4kb)) out);
  other_frames = λ a ne. ground (arith, frame_number_lem n k.paging h);
  fs = refl;
  interruptible = refl;
}

-- Where the program of a file begins.
abbrev pub entry_point : Frame → List ℕ → ℕ
entry_point frame bytes = le_word (overlay (slice 24 4 bytes) frame.first_inst)

read_whole :
    (fs : Filesystem) (inode : ℕ) (ino : Inode) (size : ℕ)
    → IsFile fs inode ino size
    → read_data fs inode 0 size ≡ some (pos size, contents fs ino size)
read_whole fs inode ino size f =
    let whole : min size (size - 0) ≡ size = omega arith in
    let self : min size size ≡ size = omega arith in
    read_data_lem fs inode ino size 0 size f (omega (arith, f.small))
    ∙ rw (whole, take-take size size (stream fs ino.data_block_num), self)

start_process_lem :
    (frame : Frame) (inode size n : ℕ) (ino : Inode) (args : List ℕ) (k : Kernel)
    → assign_pid k.pcbs ≡ pos n
    → n < max_processes
    → IsFile k.fs inode ino size
    → size ≤ size_program_img
    → 32 < length args
    → 32 ≤ length (k.pcbs (find_pcb (pos n))).args
    → start_process frame inode size args k
      ≡ some (
        entered (entry_point frame (contents k.fs ino size)) user_stack,
        running frame n
            (kept_args args (k.pcbs (find_pcb (pos n))).args)
            (contents k.fs ino size)
            k,
      )
unfolding start_process enter_user
start_process_lem frame inode size n ino args k assigned small f fits la lp =
    let next : (n + 1) % u32_mod ≡ n + 1 = omega arith in
    let whole : (size % u32_mod == size) ≡ true = ground (arith, f.small) in
    let k1 = claimed n (kept_args args (k.pcbs (find_pcb (pos n))).args) k in
    let k2 = record k1 { paging = execute_paging_init (n + 1) k1.paging } in
    rw
      (
        assigned,
        claim_pcb_lem n args k la lp,
        read_whole k.fs inode ino size f,
        whole,
        next,
        whole_image k2 inode ino size f fits,
      )
      (rw (read_data_lem k.fs inode ino size 24 4 f (omega arith)))

-- When a process number n below 5 is free and the directory entry names a file of the image that begins
-- with the ELF magic and is at most 4 MB - 0x48000 bytes long, with a PCB that has room for its 32
-- argument bytes, `execute_file` enters the program at the address in its bytes 24 to 27, on a state in
-- which process n is set up: its own PCB is the current one, with the caller as parent, the file's
-- bytes stand from offset 0x48000 of its frame on, and no other PCB or byte of a frame has changed.
pub execute_file_lem :
    (frame : Frame) (e : Dentry) (size n : ℕ) (ino : Inode) (args : List ℕ) (k : Kernel)
    → assign_pid k.pcbs ≡ pos n
    → n < max_processes
    → IsFile k.fs (to_u32 e.inode_num) ino size
    → 4 ≤ size
    → size ≤ size_program_img
    → is_executable (slice 0 4 (contents k.fs ino size)) ≡ true
    → 32 < length args
    → 32 ≤ length (k.pcbs (find_pcb (pos n))).args
    → (k' : Kernel) × (execute_file frame e args k
        ≡ some (entered (entry_point frame (contents k.fs ino size)) user_stack, k'))
      × IsStarted frame n args (contents k.fs ino size) k k'
unfolding execute_file
execute_file_lem frame e size n ino args k assigned small f long fits magic la lp =
    let four : min 4 (size - 0) ≡ 4 = omega arith in
    (
      running frame n (kept_args args (k.pcbs (find_pcb (pos n))).args) (contents k.fs ino size) k,
      rw
          (
            f.listed,
            read_data_lem k.fs (to_u32 e.inode_num) ino size 0 4 f (omega arith),
            four,
            magic,
            f.sized,
          )
          (start_process_lem frame (to_u32 e.inode_num) size n ino args k assigned small f fits la
            lp),
      running-IsStarted frame n args (contents k.fs ino size) k small,
    )

-- With all five processes running, `system_execute` of a program file fails and leaves every PCB, frame
-- and page as it was, but the global `pid` then holds the error code: the caller's own number is lost.
pub full_table_loses_pid :
    (frame : Frame) (e : Dentry) (size : ℕ) (ino : Inode) (args : List ℕ) (k : Kernel)
    → ((j : ℕ) → j < max_processes → active_at k.pcbs j ≢ 0)
    → IsFile k.fs (to_u32 e.inode_num) ino size
    → 4 ≤ size
    → is_executable (slice 0 4 (contents k.fs ino size)) ≡ true
    → execute_file frame e args k ≡ some (returned fail, record k { pid = assign_pid_error })
unfolding execute_file start_process
full_table_loses_pid frame e size ino args k busy f long magic =
    let four : min 4 (size - 0) ≡ 4 = omega arith in
    let full : assign_pid k.pcbs ≡ assign_pid_error = all_busy (assign_pid_lem k.pcbs) in
    rw (
      f.listed,
      read_data_lem k.fs (to_u32 e.inode_num) ino size 0 4 f (omega arith),
      four,
      magic,
      full,
    )
  where
    all_busy :
        ((n : ℕ) × (assign_pid k.pcbs ≡ pos n)
            × (n < max_processes)
            × (active_at k.pcbs n ≡ 0)
            × ((j : ℕ) → j < n → active_at k.pcbs j ≢ 0))
          ⊎ ((assign_pid k.pcbs ≡ assign_pid_error)
              × ((j : ℕ) → j < max_processes → active_at k.pcbs j ≢ 0))
        → assign_pid k.pcbs ≡ assign_pid_error
    all_busy (inl (n, e, h, free, least)) = absurd (busy n h free)
    all_busy (inr (e, all)) = e
