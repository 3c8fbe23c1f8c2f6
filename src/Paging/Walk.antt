-- ===== src/Paging/Walk.antt =====
-- The page walk of the processor, by which the tables of paging.c are read: the documented behaviour of
-- 32-bit paging with 4 MB pages switched on.
use ece391_sp.Prelude.{
  ℕ, ◌+◌, ◌*◌, ◌/◌, ◌%◌, ◌^◌, Option, none, some, ◌==◌, if◌then◌else◌, Bool, true, ◌&&◌,
}
use ece391_sp.Paging.{Pte, Paging, size_4kb, size_4mb, space}

-- Who makes the access.
pub data Mode : Type 0 where
  supervisor user : Mode

abbrev pub allowed : Mode → ℕ → Bool
allowed supervisor u = true
allowed user u = u == 1

-- The page table that a directory entry points at: one of the two that the kernel has.
abbrev pub table_of : ℕ → ℕ → Paging → ℕ → Option (ℕ → Pte)
table_of table_at video_at p number =
    if number == table_at / 2 ^ 12 % 2 ^ 20
    then some p.table
    else if number == video_at / 2 ^ 12 % 2 ^ 20
    then some p.video
    else none

abbrev pub walk_page : Mode → Pte → ℕ → Option ℕ
walk_page mode e vaddr =
    if e.present == 1 && allowed mode e.user
    then some (e.page_addr * size_4kb + vaddr % size_4kb)
    else none

abbrev pub walk_table : Mode → Option (ℕ → Pte) → ℕ → Option ℕ
walk_table mode none vaddr = none
walk_table mode (some table) vaddr = walk_page mode (table (vaddr / size_4kb % space)) vaddr

-- The physical address of a virtual one, or `none` for a page fault.
unfoldable pub walk : ℕ → ℕ → Mode → Paging → ℕ → Option ℕ
walk table_at video_at mode p vaddr =
    let e = p.directory (vaddr / size_4mb) in
    let large = some (e.table_addr / 2 ^ 10 * size_4mb + vaddr % size_4mb) in
    let small = walk_table mode (table_of table_at video_at p e.table_addr) vaddr in
    if e.present == 1 && allowed mode e.user then if e.size == 1 then large else small else none
