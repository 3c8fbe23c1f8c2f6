-- ===== src/Paging.antt =====
-- The page tables of mp3_group_59/student-distrib/paging.c. An array of 1024 entries is the function
-- from its indices, which the code keeps in range; a bit field is the number in it. The link-time
-- addresses of the two page tables are parameters.
pub mod Walk
pub mod Layout
mod Tests
use ece391_sp.Prelude.{
  ℕ, zero, suc, ◌+◌, ◌-◌, ◌*◌, ◌/◌, ◌%◌, ◌^◌, ◌==◌, if◌then◌else◌, ℤ, pos, negsuc, to_s32, u32_mod,
}

-- `page_directory_entry_t`
pub record Pde : Type 0 where
  pub present : ℕ
  pub read_write : ℕ
  pub user : ℕ
  pub write_through : ℕ
  pub cache_disable : ℕ
  pub accessed : ℕ
  pub reserved : ℕ
  pub size : ℕ
  pub ignored : ℕ
  pub avail : ℕ
  pub table_addr : ℕ

-- `page_table_entry_t`
pub record Pte : Type 0 where
  pub present : ℕ
  pub read_write : ℕ
  pub user : ℕ
  pub write_through : ℕ
  pub cache_disable : ℕ
  pub accessed : ℕ
  pub dirty : ℕ
  pub reserved : ℕ
  pub global : ℕ
  pub avail : ℕ
  pub page_addr : ℕ

-- The three arrays, and the number of times that the TLB was flushed or paging switched on.
pub record Paging : Type 0 where
  pub directory : ℕ → Pde
  pub table : ℕ → Pte
  pub video : ℕ → Pte
  pub loads : ℕ

abbrev pub space : ℕ
space = 1024

abbrev pub size_4kb : ℕ
size_4kb = 4096

abbrev pub size_4mb : ℕ
size_4mb = 0x400000

abbrev pub size_8mb : ℕ
size_8mb = 0x800000

abbrev pub video_addr : ℕ
video_addr = 0xB8000 / 2 ^ 12

abbrev pub program_img_pde_index : ℕ
program_img_pde_index = 32

abbrev pub vmem_pde_index : ℕ
vmem_pde_index = 40

-- A write to one element of an array.
abbrev pub update {ℓ} : {A : Type ℓ} → (ℕ → A) → ℕ → A → ℕ → A
update f i v j = if i == j then v else f j

-- The entries that `paging_init` writes to the directory.
abbrev pub first_pde : ℕ → Pde
first_pde table_at = record {
  present = 1;
  read_write = 1;
  user = 0;
  write_through = 0;
  cache_disable = 0;
  accessed = 0;
  reserved = 0;
  size = 0;
  ignored = 0;
  avail = 0;
  table_addr = table_at / 2 ^ 12 % 2 ^ 20;
}

abbrev pub kernel_pde : Pde
kernel_pde = record {
  present = 1;
  read_write = 1;
  user = 0;
  write_through = 0;
  cache_disable = 0;
  accessed = 0;
  reserved = 0;
  size = 1;
  ignored = 0;
  avail = 0;
  table_addr = size_4mb / 2 ^ 12;
}

abbrev pub absent_pde : ℕ → Pde
absent_pde i = record {
  present = 0;
  read_write = 1;
  user = 0;
  write_through = 0;
  cache_disable = 0;
  accessed = 0;
  reserved = 0;
  size = 1;
  ignored = 0;
  avail = 0;
  table_addr = i;
}

-- A page of the first 4 MB, mapped to itself.
abbrev pub identity_pte : ℕ → ℕ → Pte
identity_pte present i = record {
  present = present;
  read_write = 1;
  user = 0;
  write_through = 0;
  cache_disable = 0;
  accessed = 0;
  dirty = 0;
  reserved = 0;
  global = 0;
  avail = 0;
  page_addr = i;
}

-- `for (i = from; i < from + rounds; i++) a[i] = entry(i);`
unfoldable pub fill {ℓ} : {A : Type ℓ} → (ℕ → A) → ℕ → ℕ → (ℕ → A) → ℕ → A
fill entry from zero a = a
fill entry from (suc rounds) a = fill entry (from + 1) rounds (update a from (entry from))

abbrev pub init_pte : ℕ → Pte
init_pte i = if i == video_addr then identity_pte 1 video_addr else identity_pte 0 i

-- `paging_init`; `table_at` is the address of `kernel_page_table`.
unfoldable pub paging_init : ℕ → Paging → Paging
paging_init table_at p =
    let directory = update (update p.directory 0 (first_pde table_at)) 1 kernel_pde in
    record {
      directory = fill absent_pde 2 (space - 2) directory;
      table = fill init_pte 0 space p.table;
      video = p.video;
      loads = p.loads + 1;
    }

-- `(phy_addr / SIZE_4KB / SPACE) << 10` in the 20 bits of `table_addr`; an `int` is divided towards 0.
unfoldable pub page_number : ℤ → ℕ
page_number (pos n) = n / size_4kb / space * 2 ^ 10 % 2 ^ 20
page_number (negsuc n) = (u32_mod - suc n / size_4kb / space * 2 ^ 10 % u32_mod) % 2 ^ 20

-- `execute_paging_init`, on a `uint32_t`.
unfoldable pub execute_paging_init : ℕ → Paging → Paging
unfolding page_number
execute_paging_init pid p =
    let phy_addr = to_s32 ((size_8mb + size_4mb * (pid + u32_mod - 1)) % u32_mod) in
    let old = p.directory program_img_pde_index in
    let entry = record old { present = 1; user = 1; table_addr = page_number phy_addr } in
    record p { directory = update p.directory program_img_pde_index entry; loads = p.loads + 1 }

-- `map_vidmem`; `video_at` is the address of `pagetable_video`.
unfoldable pub map_vidmem : ℕ → Paging → Paging
map_vidmem video_at p =
    let old = p.directory vmem_pde_index in
    let entry = record old {
      present = 1;
      user = 1;
      size = 0;
      read_write = 1;
      table_addr = video_at / 2 ^ 12 % 2 ^ 20;
    } in
    let page = p.video 0 in
    let first = record page { present = 1; user = 1; read_write = 1; page_addr = video_addr } in
    record p {
      directory = update p.directory vmem_pde_index entry;
      video = update p.video 0 first;
      loads = p.loads + 1;
    }

-- `terminal_videopage_init`
unfoldable pub terminal_videopage_init : Paging → Paging
terminal_videopage_init p =
    let t1 = video_addr + 1 in
    let t2 = video_addr + 2 in
    let t3 = video_addr + 3 in
    let one = update p.table t1 (identity_pte 1 t1) in
    let two = update one t2 (identity_pte 1 t2) in
    record p { table = update two t3 (identity_pte 1 t3) }
