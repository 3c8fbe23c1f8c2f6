-- ===== src/Syscall/Vidmap.antt =====
-- What `system_vidmap` of mp3_group_59/student-distrib/syscall.c accepts and maps.
use ece391_sp.Prelude.{
  ℕ, ◌+◌, ◌-◌, ◌/◌, ◌%◌, ◌^◌, ◌<◌, ◌≤◌, ◌≡◌, ◌≢◌, ◌⊎◌, arith, none, some, pos, fail,
}
use ece391_sp.Paging.{map_vidmem}
use ece391_sp.Paging.Walk.{walk, user}
use ece391_sp.Paging.Layout.{walk-map_vidmem}
use ece391_sp.Process.{Kernel}
use ece391_sp.Syscall.{system_vidmap, img_big_start, pagesize_4mb, user_vmem_addr}

-- `system_vidmap` fails and changes nothing for a null pointer and for one below 128 MB or above 132 MB.
-- For one whose word lies in the 4 MB between, it returns 0, stores 160 MB there, and the user then has
-- the text screen in the 4 KB from there on. For the last four addresses that it accepts, of which
-- 132 MB itself is past the program page, its own store is a page fault.
pub system_vidmap_lem :
    (table_at video_at at : ℕ) (k : Kernel)
    → table_at / 2 ^ 12 % 2 ^ 20 ≢ video_at / 2 ^ 12 % 2 ^ 20
    → ((at < img_big_start) ⊎ (img_big_start + pagesize_4mb < at)
        → system_vidmap video_at at k ≡ some (fail, none, k))
      × (img_big_start ≤ at
          → at + 4 ≤ img_big_start + pagesize_4mb
          → (k' : Kernel) × (system_vidmap video_at at k ≡ some (pos 0, some user_vmem_addr, k'))
            × ((v : ℕ)
                → user_vmem_addr ≤ v
                → v < user_vmem_addr + 4096
                → walk table_at video_at user k'.paging v ≡ some (0xB8000 + (v - user_vmem_addr))))
      × (img_big_start + pagesize_4mb < at + 4
          → at ≤ img_big_start + pagesize_4mb
          → system_vidmap video_at at k ≡ none)
unfolding system_vidmap
system_vidmap_lem table_at video_at at k ne = (
  (λ h. ground (arith, h)),
  (λ lo hi. (
    record k { paging = map_vidmem video_at k.paging },
    ground (arith, lo, hi),
    λ v p q. (walk-map_vidmem table_at video_at v user k.paging ne).0 p (omega (arith, q)),
  )),
  λ lo hi. ground (arith, lo, hi),
)
