-- ===== src/Process/Stack/Invariant.antt =====
-- How the calls of mp3_group_59/student-distrib/syscall.c change the stack of processes.
use native.Mathlib.Decide.{ℕ_discrete}
use ece391_sp.Prelude.{
  ℕ, zero, suc, ◌<◌, ◌≡◌, ◌≢◌, inl, inr, refl, ap, sym, ◌∙◌, arith, List, [], ◌∷◌, pos,
}
use ece391_sp.Paging.{program_img_pde_index}
use ece391_sp.Process.{Pcb, Kernel, find_pcb, max_processes, assign_pid}
use ece391_sp.Process.Pids.{active_at, assign_pid_lem, find_pcb-injective}
use ece391_sp.Process.Execute.Start.{frame_number_lem}
use ece391_sp.Process.Halt.Resume.{IsResumed}
use ece391_sp.Process.Stack.{IsOn, IsLinked, IsStack}
use ece391_sp.Process.Stack.Calls.{IsSame}
use ece391_sp.Process.Halt.{reset_shell}
use ece391_sp.Process.Stack.Entered.{IsEntered}

-- Only the links of the processes on the stack matter.
IsLinked-agree :
    (pcbs pcbs' : ℕ → Pcb) (n : ℕ) (ns : List ℕ)
    → ((j : ℕ)
        → IsOn j (n ∷ ns)
        → (pcbs' (find_pcb (pos j))).parent_pid ≡ (pcbs (find_pcb (pos j))).parent_pid)
    → IsLinked pcbs n ns
    → IsLinked pcbs' n ns
IsLinked-agree pcbs pcbs' n [] same h = (h.0, same n (inl refl) ∙ h.1)
IsLinked-agree pcbs pcbs' n (m ∷ ms) same h =
    (same n (inl refl) ∙ h.0, IsLinked-agree pcbs pcbs' m ms (λ j on. same j (inr on)) h.1)

pub IsOn-same : (j j' : ℕ) (ns : List ℕ) → j ≡ j' → IsOn j ns → IsOn j' ns
IsOn-same j j' [] e on = absurd on
IsOn-same j j' (n ∷ ns) e (inl same) = inl (sym e ∙ same)
IsOn-same j j' (n ∷ ns) e (inr on) = inr (IsOn-same j j' ns e on)

pub base_IsOn : (pcbs : ℕ → Pcb) (n : ℕ) (ns : List ℕ) → IsLinked pcbs n ns → IsOn 0 (n ∷ ns)
base_IsOn pcbs n [] h = inl (sym h.0)
base_IsOn pcbs n (m ∷ ms) h = inr (base_IsOn pcbs m ms h.1)

elsewhere :
    (j n : ℕ) → j < max_processes → n < max_processes → j ≢ n → find_pcb (pos j) ≢ find_pcb (pos n)
elsewhere j n hj hn ne e = ne (find_pcb-injective j n (omega (arith, hj)) (omega (arith, hn)) e)

-- The number that `assign_pid` gave was free.
assigned_free : (pcbs : ℕ → Pcb) (n : ℕ) → assign_pid pcbs ≡ pos n → active_at pcbs n ≡ 0
assigned_free pcbs n e = elim (assign_pid_lem pcbs) [
  | inl (n', e', small, free, least) ↦
      let same : n' ≡ n = ground (arith, e, e') in ap (active_at pcbs) (sym same) ∙ free
  | inr (e', busy) ↦ absurd (ground (arith, e, e'))
]

-- A program that is entered is pushed.
pub IsEntered-push :
    (k k' : Kernel) (n new : ℕ) (ns : List ℕ)
    → IsStack k n ns
    → IsEntered new k k'
    → IsStack k' new (n ∷ ns)
IsEntered-push k k' n new ns s e =
    let free = assigned_free k.pcbs new e.assigned in
    let fresh : IsOn new (n ∷ ns) → ⊥ = λ on. s.running new on free in
    let other : (j : ℕ) → IsOn j (n ∷ ns) → j ≢ new =
      λ j on same. fresh (IsOn-same j new (n ∷ ns) same on) in
    let kept : (j : ℕ)
        → j < max_processes
        → j ≢ new
        → k'.pcbs (find_pcb (pos j)) ≡ k.pcbs (find_pcb (pos j)) =
      λ j small ne. e.others (find_pcb (pos j)) (elsewhere j new small e.bound ne) in
    let not_base : new ≢ 0 =
      λ z. fresh (IsOn-same 0 new (n ∷ ns) (sym z) (base_IsOn k.pcbs n ns s.linked)) in
    record {
      pid = e.pid;
      at = e.at;
      linked = (
        e.parent ∙ ground (arith, not_base, s.pid),
        IsLinked-agree k.pcbs k'.pcbs n ns
            (λ j on. ap (λ p. p.parent_pid) (kept j (s.bound j on) (other j on))) s.linked,
      );
      distinct = (fresh, s.distinct);
      bound = λ j. elim [ inl same ↦ rw same e.bound | inr on ↦ s.bound j on ];
      running = λ j. elim [
        | inl same ↦ rw same (omega (arith, e.active))
        | inr on ↦
            λ z. s.running j on (ap (λ p. p.active) (sym (kept j (s.bound j on) (other j on))) ∙ z)
      ];
      others_free = λ j small busy. elim (ℕ_discrete j new) [
        | yes same ↦ inl same
        | no ne ↦ inr (s.others_free j small (λ z. busy (ap (λ p. p.active) (kept j small ne) ∙ z)))
      ];
      stack = e.stack;
      page = e.page;
    }

-- With no process running, the number that `assign_pid` gives is 0.
idle_base :
    (pcbs : ℕ → Pcb) (n : ℕ)
    → ((j : ℕ) → j < max_processes → active_at pcbs j ≡ 0)
    → assign_pid pcbs ≡ pos n
    → n ≡ 0
idle_base pcbs n idle e = elim (assign_pid_lem pcbs) [
  | inl (zero, e', small, free, least) ↦ ground (arith, e, e')
  | inl (suc n', e', small, free, least) ↦ absurd (least 0 (omega arith) (idle 0 (omega arith)))
  | inr (e', busy) ↦ absurd (ground (arith, e, e'))
]

-- The first program that is entered is the base shell.
pub IsEntered-base :
    (k k' : Kernel) (n : ℕ)
    → ((j : ℕ) → j < max_processes → active_at k.pcbs j ≡ 0)
    → IsEntered n k k'
    → (n ≡ 0) × IsStack k' n []
IsEntered-base k k' n idle e =
    let base = idle_base k.pcbs n idle e.assigned in
    (
      base,
      record {
        pid = e.pid;
        at = e.at;
        linked = (base, e.parent ∙ ground (arith, base));
        distinct = ((λ on. on), tt);
        bound = λ j. elim [ inl same ↦ rw same e.bound | inr on ↦ absurd on ];
        running = λ j. elim [ inl same ↦ rw same (omega (arith, e.active)) | inr on ↦ absurd on ];
        others_free = λ j small busy. elim (ℕ_discrete j n) [
          | yes same ↦ inl same
          | no ne ↦ absurd (
              busy (
                ap (λ p. p.active) (e.others (find_pcb (pos j)) (elsewhere j n small e.bound ne))
                ∙ idle j small))
        ];
        stack = e.stack;
        page = e.page;
      },
    )

-- A program that ends is popped.
pub IsResumed-pop :
    (k k' : Kernel) (n m : ℕ) (ms : List ℕ)
    → IsStack k n (m ∷ ms)
    → IsResumed n m k k'
    → IsStack k' m ms
IsResumed-pop k k' n m ms s r =
    let below : (j : ℕ) → IsOn j (m ∷ ms) → j ≢ n =
      λ j on same. s.distinct.0 (IsOn-same j n (m ∷ ms) same on) in
    let kept : (j : ℕ)
        → j < max_processes
        → j ≢ n
        → k'.pcbs (find_pcb (pos j)) ≡ k.pcbs (find_pcb (pos j)) =
      λ j small ne. r.others (find_pcb (pos j)) (elsewhere j n small (s.bound n (inl refl)) ne) in
    record {
      pid = r.pid;
      at = r.at;
      linked =
          IsLinked-agree k.pcbs k'.pcbs m ms
            (λ j on. ap (λ p. p.parent_pid) (kept j (s.bound j (inr on)) (below j on))) s.linked.1;
      distinct = s.distinct.1;
      bound = λ j on. s.bound j (inr on);
      running = λ j on z.
          s.running j (inr on)
            (ap (λ p. p.active) (sym (kept j (s.bound j (inr on)) (below j on))) ∙ z);
      others_free = λ j small busy. elim (ℕ_discrete j n) [
        | yes same ↦ absurd (busy (ap (active_at k'.pcbs) same ∙ r.freed))
        | no ne ↦
            above (s.others_free j small (λ z. busy (ap (λ p. p.active) (kept j small ne) ∙ z))) ne
      ];
      stack = r.stack;
      page =
          ap (λ p. (p.directory program_img_pde_index).table_addr) r.paged
          ∙ frame_number_lem m k.paging (s.bound m (inr (inl refl)));
    }
  where
    above : {j : ℕ} → IsOn j (n ∷ m ∷ ms) → j ≢ n → IsOn j (m ∷ ms)
    above (inl same) ne = absurd (ne same)
    above (inr on) ne = on

pub IsSame-IsStack :
    (k k' : Kernel) (n : ℕ) (ns : List ℕ) → IsSame k k' → IsStack k n ns → IsStack k' n ns
IsSame-IsStack k k' n ns same s = record {
  pid = same.pid ∙ s.pid;
  at = same.at ∙ s.at;
  linked = IsLinked-agree k.pcbs k'.pcbs n ns (λ j on. same.parent (find_pcb (pos j))) s.linked;
  distinct = s.distinct;
  bound = s.bound;
  running = λ j on z. s.running j on (sym (same.active (find_pcb (pos j))) ∙ z);
  others_free =
      λ j small busy. s.others_free j small (λ z. busy (same.active (find_pcb (pos j)) ∙ z));
  stack = omega (arith, same.stack, s.stack);
  page = same.page ∙ s.page;
}

-- The end of the base shell leaves no process running.
pub reset_shell-idle :
    (k : Kernel) (n : ℕ)
    → IsStack k n []
    → (j : ℕ) → j < max_processes
    → active_at (reset_shell k).pcbs j ≡ 0
unfolding reset_shell
reset_shell-idle k n s j small = elim (ℕ_discrete j n) [
  | yes same ↦ ground (arith, s.at, same)
  | no ne ↦ elim (ℕ_discrete (active_at k.pcbs j) 0) [
    | yes free ↦ ground (arith, s.at, free)
    | no busy ↦ elim (s.others_free j small busy) [
      | inl same ↦ absurd (ne same)
      | inr on ↦ absurd on
    ]
  ]
]
