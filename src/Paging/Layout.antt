-- ===== src/Paging/Layout.antt =====
-- The address spaces that mp3_group_59/student-distrib/paging.c sets up, read through the page walk.
use ece391_sp.Prelude.{
  ℕ, zero, suc, ◌+◌, ◌-◌, ◌*◌, ◌/◌, ◌%◌, ◌^◌, ◌≤◌, ◌<◌, ◌≡◌, ◌≢◌, none, some, ◌==◌, ltb, leb,
  if◌then◌else◌, Bool, ◌&&◌, ◌||◌, arith, pos, to_s32, u32_mod, ◌⊎◌,
}
use native.Mathlib.Decide.{ℕ_discrete}
use ece391_sp.Paging.{
  Paging, update, fill, paging_init, execute_paging_init, map_vidmem, page_number,
  terminal_videopage_init, size_4kb, size_4mb, size_8mb, space, program_img_pde_index,
  vmem_pde_index, absent_pde, kernel_pde, first_pde, init_pte,
}
use ece391_sp.Paging.Walk.{walk, Mode, supervisor, user}

-- A counted loop writes its entry to each index of its range and leaves the others.
pub fill_lem {ℓ} :
    {A : Type ℓ} (entry : ℕ → A) (rounds from : ℕ) (a : ℕ → A) (j : ℕ)
    → fill entry from rounds a j ≡ (if leb from j && ltb j (from + rounds) then entry j else a j)
unfolding fill
fill_lem entry zero from a j = ground arith
fill_lem entry (suc rounds) from a j =
    ground (arith, fill_lem entry rounds (from + 1) (update a from (entry from)) j)

-- The directory and the first page table after `paging_init`, entry by entry.
pub paging_init_entries :
    (table_at : ℕ) (p : Paging) (i : ℕ)
    → i < space
    → ((paging_init table_at p).directory i
        ≡ (if i == 0 then first_pde table_at else if i == 1 then kernel_pde else absent_pde i))
      × ((paging_init table_at p).table i ≡ init_pte i)
unfolding paging_init
paging_init_entries table_at p i h = ground (
  arith,
  fill_lem absent_pde (space - 2) 2
      (update (update p.directory 0 (first_pde table_at)) 1 kernel_pde) i,
  fill_lem init_pte space 0 p.table i,
)

-- The pages that the kernel may use after `paging_init`: the text screen and the second 4 MB.
abbrev pub is_kernel_page : ℕ → Bool
is_kernel_page v = (leb 0xB8000 v && ltb v 0xB9000) || (leb size_4mb v && ltb v size_8mb)

-- After `paging_init` exactly the text screen's page and the kernel's 4 MB are mapped, each to itself
-- and for the supervisor only; a user access faults everywhere.
pub walk-paging_init :
    (table_at video_at : ℕ) (p : Paging) (v : ℕ)
    → v < u32_mod
    → (walk table_at video_at supervisor (paging_init table_at p) v
        ≡ (if is_kernel_page v then some v else none))
      × (walk table_at video_at user (paging_init table_at p) v ≡ none)
unfolding walk
walk-paging_init table_at video_at p v h = elim (ℕ_discrete (v / size_4mb) 0) [
  | yes z ↦ ground (
    arith,
    (paging_init_entries table_at p (v / size_4mb) (omega arith)).0,
    (paging_init_entries table_at p (v / size_4kb % space) (omega arith)).1,
  )
  | no q ↦ ground (arith, (paging_init_entries table_at p (v / size_4mb) (omega arith)).0)
]

-- The address of a program's page frame.
abbrev pub frame : ℕ → ℕ
frame pid = size_8mb + size_4mb * pid

frame_number :
    (pid : ℕ)
    → pid < 500
    → to_s32 ((size_8mb + size_4mb * (pid + 1 + u32_mod - 1)) % u32_mod) ≡ pos (frame pid)
frame_number pid h = ground arith

frame-page_number :
    (pid : ℕ) → pid < 500 → page_number (pos (frame pid)) / 2 ^ 10 * size_4mb ≡ frame pid
unfolding page_number
frame-page_number pid h = omega arith

-- For any table with the page size of entry 32 set, after `execute_paging_init (pid + 1)` the 4 MB from
-- 128 MB on are the user's, mapped to the frame of that process, and no other address is mapped
-- differently than before.
pub walk-execute_paging_init :
    (table_at video_at pid v : ℕ) (mode : Mode) (p : Paging)
    → pid < 500
    → (p.directory program_img_pde_index).size ≡ 1
    → walk table_at video_at mode (execute_paging_init (pid + 1) p) v ≡ (
        if v / size_4mb == program_img_pde_index
        then some (frame pid + v % size_4mb)
        else walk table_at video_at mode p v)
unfolding walk execute_paging_init
walk-execute_paging_init table_at video_at pid v mode p h s =
    ground (arith, frame_number pid h, frame-page_number pid h)

-- Two processes never reach the same physical address through their program pages, whatever the rest
-- of their tables holds.
pub program_pages_disjoint :
    (table_at video_at pid1 pid2 v1 v2 a1 a2 : ℕ) (p1 p2 : Paging)
    → pid1 < 500
    → pid2 < 500
    → pid1 ≢ pid2
    → (p1.directory program_img_pde_index).size ≡ 1
    → (p2.directory program_img_pde_index).size ≡ 1
    → v1 / size_4mb ≡ program_img_pde_index
    → v2 / size_4mb ≡ program_img_pde_index
    → walk table_at video_at user (execute_paging_init (pid1 + 1) p1) v1 ≡ some a1
    → walk table_at video_at user (execute_paging_init (pid2 + 1) p2) v2 ≡ some a2
    → a1 ≢ a2
program_pages_disjoint table_at video_at pid1 pid2 v1 v2 a1 a2 p1 p2 h1 h2 ne s1 s2 e1 e2 w1 w2 =
    ground (
      arith,
      walk-execute_paging_init table_at video_at pid1 v1 user p1 h1 s1,
      walk-execute_paging_init table_at video_at pid2 v2 user p2 h2 s2,
    )

-- With the two page tables at different addresses, `map_vidmem` gives the user the text screen at
-- 160 MB and 4 KB on, and changes no address outside the 4 MB there that is reached by a 4 MB page or
-- by the kernel's own page table.
pub walk-map_vidmem :
    (table_at video_at v : ℕ) (mode : Mode) (p : Paging)
    → table_at / 2 ^ 12 % 2 ^ 20 ≢ video_at / 2 ^ 12 % 2 ^ 20
    → (0xa000000 ≤ v
        → v < 0xa001000
        → walk table_at video_at mode (map_vidmem video_at p) v ≡ some (0xB8000 + (v - 0xa000000)))
      × (v / size_4mb ≢ vmem_pde_index
          → ((p.directory (v / size_4mb)).size ≡ 1)
            ⊎ ((p.directory (v / size_4mb)).table_addr ≡ table_at / 2 ^ 12 % 2 ^ 20)
          → walk table_at video_at mode (map_vidmem video_at p) v ≡ walk table_at video_at mode p v)
unfolding walk map_vidmem
walk-map_vidmem table_at video_at v mode p ne = (λ h k. ground arith, λ h k. ground arith)

-- What `kernel_main` maps before the first program: the text screen, the three pages behind it where
-- the terminals keep their screens, and the kernel's 4 MB, for the supervisor only.
abbrev pub is_boot_page : ℕ → Bool
is_boot_page v = (leb 0xB8000 v && ltb v 0xBC000) || (leb size_4mb v && ltb v size_8mb)

pub walk-terminal_videopage_init :
    (table_at video_at : ℕ) (p : Paging) (v : ℕ)
    → v < u32_mod
    → let booted = terminal_videopage_init (paging_init table_at p) in
      (walk table_at video_at supervisor booted v ≡ (if is_boot_page v then some v else none))
      × (walk table_at video_at user booted v ≡ none)
unfolding walk terminal_videopage_init
walk-terminal_videopage_init table_at video_at p v h = elim (ℕ_discrete (v / size_4mb) 0) [
  | yes z ↦ ground (
    arith,
    (paging_init_entries table_at p (v / size_4mb) (omega arith)).0,
    (paging_init_entries table_at p (v / size_4kb % space) (omega arith)).1,
  )
  | no q ↦ ground (arith, (paging_init_entries table_at p (v / size_4mb) (omega arith)).0)
]
