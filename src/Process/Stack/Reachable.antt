-- ===== src/Process/Stack/Reachable.antt =====
-- The stack of processes in every state that is reached in mp3_group_59/student-distrib/syscall.c.
use mathlib.Core.Option
use ece391_sp.Prelude.{
  ℕ, ◌≡◌, inl, inr, refl, ap, sym, ◌∙◌, arith, true, Option, none, some, List, [], ◌∷◌, pos, fail,
}
use ece391_sp.Process.{Kernel, current}
use ece391_sp.Process.Halt.Resume.{IsChild, system_halt_lem}
use ece391_sp.Process.Stack.{
  IsStack, Step, Reached, execute, halt, restart, open_file, close, read_file, read_directory,
  vidmap, boot, next,
}
use ece391_sp.Process.Stack.Invariant.{
  IsOn-same, base_IsOn, IsEntered-push, IsEntered-base, IsResumed-pop, IsSame-IsStack,
  reset_shell-idle,
}
use ece391_sp.Process.Stack.Calls.{
  system_open-IsSame, system_close-IsSame, file_read-IsSame, directory_read-IsSame,
  system_vidmap-IsSame,
}
use ece391_sp.Process.Halt.{
  reset_shell, resume_parent, after_shell, shell_command, system_halt, is_base_shell,
}
use ece391_sp.Process.Execute.{Outcome, Frame, returned, entered, resumed, system_execute}
use ece391_sp.Process.Stack.Entered.{same_state, system_execute-IsEntered}

-- A process above the bottom is the child of the one below it.
above-IsChild : (k : Kernel) (n m : ℕ) (ms : List ℕ) → IsStack k n (m ∷ ms) → IsChild k n m
above-IsChild k n m ms s = record {
  pid = s.pid;
  at = s.at;
  parent = ap (λ a. (k.pcbs a).parent_pid) s.at ∙ s.linked.0;
  not_base = λ z. s.distinct.0 (IsOn-same 0 n (m ∷ ms) (sym z) (base_IsOn k.pcbs m ms s.linked.1));
  bound = s.bound n (inl refl);
  parent_bound = s.bound m (inr (inl refl));
  other = λ e. s.distinct.0 (inl (sym e));
}

bottom_is_base : (k : Kernel) (n : ℕ) → IsStack k n [] → is_base_shell k ≡ true
bottom_is_base k n s =
    let parent : (current k).parent_pid ≡ fail =
      ap (λ a. (k.pcbs a).parent_pid) s.at ∙ s.linked.1 in
    let pid : k.pid ≡ pos 0 = s.pid ∙ ap pos s.linked.0 in rw (pid, parent) refl

-- A restart of the base shell is a start of it.
after_shell-entered :
    (o : Option (Outcome × Kernel)) (esp_val ebp_val status eip esp : ℕ) (k' : Kernel)
    → Option.map (after_shell esp_val ebp_val status) o ≡ some (entered eip esp, k')
    → (a b : ℕ) × (o ≡ some (entered a b, k'))
unfolding resume_parent
after_shell-entered none esp_val ebp_val status eip esp k' h = absurd (ground (arith, h))
after_shell-entered (some (returned r, k)) esp_val ebp_val status eip esp k' h =
    absurd (ground (arith, h))
after_shell-entered (some (entered a b, k)) esp_val ebp_val status eip esp k' h = (eip, esp, h)
after_shell-entered (some (resumed a b c, k)) esp_val ebp_val status eip esp k' h =
    absurd (ground (arith, h))

system_halt-restart :
    (frame : Frame) (status eip esp : ℕ) (k k' : Kernel)
    → is_base_shell k ≡ true
    → system_halt frame status k ≡ some (entered eip esp, k')
    → (a b : ℕ) × (system_execute frame (some shell_command) (reset_shell k)
        ≡ some (entered a b, k'))
unfolding system_halt
system_halt-restart frame status eip esp k k' base h =
    after_shell-entered (system_execute frame (some shell_command) (reset_shell k))
      (current k).esp_val (current k).ebp_val status eip esp k' (sym (rw base refl) ∙ h)

resumed_not_entered :
    (a b c eip esp : ℕ) (k k' : Kernel)
    → ◌≡◌ {A = Option (Outcome × Kernel)} (some (resumed a b c, k)) (some (entered eip esp, k'))
    → ⊥
resumed_not_entered a b c eip esp k k' h = ground (arith, h)

-- Every call keeps a stack of processes.
Step-IsStack :
    (k k' : Kernel)
    → Step k k'
    → (n : ℕ) (ns : List ℕ) → IsStack k n ns
    → (n' : ℕ) × (ns' : List ℕ) × IsStack k' n' ns'
Step-IsStack k k' (execute frame command eip esp h) n ns s =
    let (new, e) = system_execute-IsEntered frame command eip esp k k' h in
    (new, n ∷ ns, IsEntered-push k k' n new ns s e)
Step-IsStack k k' (halt frame status ebp esp ret child h) n [] s =
    absurd (ground (arith, child, bottom_is_base k n s))
Step-IsStack k k' (halt frame status ebp esp ret child h) n (m ∷ ms) s =
    let (k1, halted, r) = system_halt_lem frame status k n m (above-IsChild k n m ms s) in
    let same : k1 ≡ k' = same_state _ _ k1 k' (sym halted ∙ h) in
    (m, ms, rw (sym same) (IsResumed-pop k k1 n m ms s r))
Step-IsStack k k' (restart frame status eip esp h) n [] s =
    let (a, b, started) = system_halt-restart frame status eip esp k k' (bottom_is_base k n s) h in
    let (new, e) = system_execute-IsEntered frame shell_command a b (reset_shell k) k' started in
    (new, [], (IsEntered-base (reset_shell k) k' new (reset_shell-idle k n s) e).1)
Step-IsStack k k' (restart frame status eip esp h) n (m ∷ ms) s =
    let (k1, halted, r) = system_halt_lem frame status k n m (above-IsChild k n m ms s) in
    absurd (resumed_not_entered _ _ _ eip esp k1 k' (sym halted ∙ h))
Step-IsStack k k' (open_file blank filename ret h) n ns s =
    (n, ns, IsSame-IsStack k k' n ns (system_open-IsSame blank filename ret k k' h) s)
Step-IsStack k k' (close fd ret h) n ns s =
    (n, ns, IsSame-IsStack k k' n ns (system_close-IsSame fd ret k k' h) s)
Step-IsStack k k' (read_file fd nbytes ret bytes h) n ns s =
    (n, ns, IsSame-IsStack k k' n ns (file_read-IsSame fd nbytes ret bytes k k' h) s)
Step-IsStack k k' (read_directory blank fd ret buff dest h) n ns s =
    (n, ns, IsSame-IsStack k k' n ns (directory_read-IsSame blank fd ret buff dest k k' h) s)
Step-IsStack k k' (vidmap video_at at ret stored h) n ns s =
    (n, ns, IsSame-IsStack k k' n ns (system_vidmap-IsSame video_at at ret stored k k' h) s)

-- After the base shell is started while no process runs, and whatever calls the programs make then, as long
-- as none of them is an `execute` that enters no program or the end of a base shell that cannot be started
-- again: the processes whose PCBs are active are exactly those of a stack of distinct numbers below 5, each
-- with the next as its parent, with the base shell 0 at the bottom. The one on top is the one in `pid` and
-- `pcb_obj`, and its kernel stack and program frame are the ones that the TSS and the page directory select.
pub Reached-IsStack : (k : Kernel) → Reached k → (n : ℕ) × (ns : List ℕ) × IsStack k n ns
Reached-IsStack k (boot frame command eip esp start entered_state idle h) =
    let (n, e) = system_execute-IsEntered frame command eip esp start k h in
    (n, [], (IsEntered-base start k n idle e).1)
Reached-IsStack k (next before after r step) =
    let (n, ns, s) = Reached-IsStack before r in Step-IsStack before k step n ns s
