-- ===== src/Process/Pids.antt =====
-- Process numbers in mp3_group_59/student-distrib/syscall.c: where the PCBs lie, and which number
-- `assign_pid` hands out.
use ece391_sp.Prelude.{ℕ, zero, suc, ◌+◌, ◌≤◌, ◌<◌, ◌≡◌, ◌≢◌, ◌⊎◌, inl, inr, refl, arith, pos}
use native.Mathlib.Decide.{ℕ_discrete}
use ece391_sp.Process.{
  Pcb, find_pcb, assign_from, assign_pid, assign_pid_error, max_processes, end_of_kernel_page,
  kernel_stack_size,
}

-- The kernel stacks of different processes do not overlap: for p < q below 512 the 8 KB from q's PCB on
-- end where p's may begin, and all lie inside the kernel's 4 MB page.
pub find_pcb_disjoint :
    (p q : ℕ)
    → p < q
    → q < 512
    → (find_pcb (pos q) + kernel_stack_size ≤ find_pcb (pos p))
      × (find_pcb (pos p) + kernel_stack_size ≤ end_of_kernel_page)
      × (0x400000 ≤ find_pcb (pos q))
unfolding find_pcb
find_pcb_disjoint p q h k = omega arith

pub find_pcb-injective : (p q : ℕ) → p < 512 → q < 512 → find_pcb (pos p) ≡ find_pcb (pos q) → p ≡ q
unfolding find_pcb
find_pcb-injective p q h k e = omega arith

-- Whether the process of number i is running.
abbrev pub active_at : (ℕ → Pcb) → ℕ → ℕ
active_at pcbs i = (pcbs (find_pcb (pos i))).active

assign_from_lem :
    (pcbs : ℕ → Pcb) (rounds i : ℕ)
    → ((n : ℕ) × (assign_from pcbs rounds i ≡ pos n)
        × (i ≤ n)
        × (n < i + rounds)
        × (active_at pcbs n ≡ 0)
        × ((j : ℕ) → i ≤ j → j < n → active_at pcbs j ≢ 0))
      ⊎ ((assign_from pcbs rounds i ≡ assign_pid_error)
          × ((j : ℕ) → i ≤ j → j < i + rounds → active_at pcbs j ≢ 0))
unfolding assign_from
assign_from_lem pcbs zero i = inr (refl, λ j h k. absurd (omega arith))
assign_from_lem pcbs (suc rounds) i = elim (ℕ_discrete (active_at pcbs i) 0) [
  | yes free ↦
      inl (i, ground (arith, free), omega arith, omega arith, free, λ j h k. absurd (omega arith))
  | no busy ↦ elim (assign_from_lem pcbs rounds (i + 1)) [
    | inl (n, e, lo, hi, free, least) ↦ inl (
      n,
      ground (arith, e, busy),
      omega arith,
      omega arith,
      free,
      λ j h k. elim (ℕ_discrete j i) [
        | yes same ↦ rw same busy
        | no other ↦ least j (omega arith) k
      ],
    )
    | inr (e, later) ↦ inr (
      ground (arith, e, busy),
      λ j h k. elim (ℕ_discrete j i) [
        | yes same ↦ rw same busy
        | no other ↦ later j (omega arith) (omega arith)
      ],
    )
  ]
]

-- `assign_pid` returns the least process number below 5 whose PCB is not active, or the error code
-- exactly when all five are active.
pub assign_pid_lem :
    (pcbs : ℕ → Pcb)
    → ((n : ℕ) × (assign_pid pcbs ≡ pos n)
        × (n < max_processes)
        × (active_at pcbs n ≡ 0)
        × ((j : ℕ) → j < n → active_at pcbs j ≢ 0))
      ⊎ ((assign_pid pcbs ≡ assign_pid_error)
          × ((j : ℕ) → j < max_processes → active_at pcbs j ≢ 0))
unfolding assign_pid
assign_pid_lem pcbs = elim (assign_from_lem pcbs max_processes 0) [
  | inl (n, e, lo, hi, free, least) ↦ inl (n, e, omega arith, free, λ j h. least j (omega arith) h)
  | inr (e, busy) ↦ inr (e, λ j h. busy j (omega arith) (omega arith))
]
