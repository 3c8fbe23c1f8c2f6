-- ===== src/Paging/Tests.antt =====
-- Runs of the page tables of mp3_group_59/student-distrib/paging.c.
use ece391_sp.Prelude.{ℕ, ◌+◌, ◌%◌, ◌≡◌, ◌≢◌, refl, none, some, arith, ◌<◌}
use ece391_sp.Paging.{
  Paging, paging_init, execute_paging_init, terminal_videopage_init, absent_pde, identity_pte,
  size_4mb,
}
use ece391_sp.Paging.Walk.{walk, supervisor, user}
use ece391_sp.Paging.Layout.{
  walk-paging_init, walk-execute_paging_init, program_pages_disjoint, walk-terminal_videopage_init,
  frame,
}

abbrev kernel_page_table_at : ℕ
kernel_page_table_at = 0x40a000

abbrev pagetable_video_at : ℕ
pagetable_video_at = 0x40b000

-- Tables of absent pages, as `paging_init` leaves the entries that it does not use.
abbrev blank : Paging
blank = record { directory = absent_pde; table = identity_pte 0; video = identity_pte 0; loads = 0 }

program_entry_point :
    walk kernel_page_table_at pagetable_video_at user (execute_paging_init 2 blank) 0x08048018
    ≡ some 0xc48018
unfolding walk execute_paging_init
program_entry_point = refl

walk-paging_init_example :
    (walk kernel_page_table_at pagetable_video_at supervisor
        (paging_init kernel_page_table_at blank)
        0xB8010
      ≡ some 0xB8010)
    × (walk kernel_page_table_at pagetable_video_at user
          (paging_init kernel_page_table_at blank)
          0xB8010
        ≡ none)
walk-paging_init_example =
    walk-paging_init kernel_page_table_at pagetable_video_at blank 0xB8010 (omega arith)

walk-execute_paging_init_example :
    walk kernel_page_table_at pagetable_video_at user (execute_paging_init (3 + 1) blank) 0x8048000
    ≡ some (frame 3 + 0x8048000 % size_4mb)
walk-execute_paging_init_example =
    walk-execute_paging_init kernel_page_table_at pagetable_video_at 3 0x8048000 user blank
      (omega arith) refl

frame_of :
    (pid : ℕ)
    → pid < 500
    → walk kernel_page_table_at pagetable_video_at user
        (execute_paging_init (pid + 1) blank)
        0x8048000
      ≡ some (frame pid + 0x48000)
frame_of pid h =
    walk-execute_paging_init kernel_page_table_at pagetable_video_at pid 0x8048000 user blank h refl

program_pages_disjoint_example : ◌≢◌ {A = ℕ} (frame 0 + 0x48000) (frame 1 + 0x48000)
program_pages_disjoint_example =
    program_pages_disjoint kernel_page_table_at pagetable_video_at 0 1 0x8048000 0x8048000
      (frame 0 + 0x48000) (frame 1 + 0x48000) blank blank (omega arith) (omega arith) (omega arith)
      refl refl refl refl (frame_of 0 (omega arith)) (frame_of 1 (omega arith))

walk-terminal_videopage_init_example :
    let booted = terminal_videopage_init (paging_init kernel_page_table_at blank) in
    (walk kernel_page_table_at pagetable_video_at supervisor booted 0xBA000 ≡ some 0xBA000)
    × (walk kernel_page_table_at pagetable_video_at user booted 0xBA000 ≡ none)
walk-terminal_videopage_init_example =
    walk-terminal_videopage_init kernel_page_table_at pagetable_video_at blank 0xBA000 (omega arith)
