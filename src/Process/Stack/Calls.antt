-- ===== src/Process/Stack/Calls.antt =====
-- The calls of mp3_group_59/student-distrib/syscall.c and filesystem.c that neither start nor end a program.
use mathlib.Core.Option
use ece391_sp.Prelude.{
  ℕ, zero, suc, ◌+◌, ◌-◌, ◌%◌, ◌≡◌, inl, inr, refl, ap, sym, arith, ◌==◌, ltb, ◌||◌, Option, none,
  some, List, [], get_elem?, eqb_ℤ, ℤ, pos, negsuc, fail, to_u32, u32_mod, bind-some, if-cases,
}
use ece391_sp.Filesystem.{Dentry, read_dentry_by_name, read_data}
use ece391_sp.Paging.{program_img_pde_index, map_vidmem}
use ece391_sp.Process.{FileDescriptor, Kernel, current, file_desc_start_idx, max_open_files}
use ece391_sp.Process.Files.{
  put_fda, put_position, system_open, open_dentry, system_close, close_fd, file_read,
  directory_read, read_name,
}
use ece391_sp.Syscall.{system_vidmap, img_big_start, pagesize_4mb}

-- What a call leaves as it was when it neither starts nor ends a program.
pub record IsSame (k k' : Kernel) : Type 0 where
  pub pid : k'.pid ≡ k.pid
  pub at : k'.pcb_obj ≡ k.pcb_obj
  pub active : (a : ℕ) → (k'.pcbs a).active ≡ (k.pcbs a).active
  pub parent : (a : ℕ) → (k'.pcbs a).parent_pid ≡ (k.pcbs a).parent_pid
  pub stack : k'.esp0 ≡ k.esp0
  pub page :
      (k'.paging.directory program_img_pde_index).table_addr
      ≡ (k.paging.directory program_img_pde_index).table_addr

put_fda-IsSame : (k : Kernel) (fda : List FileDescriptor) → IsSame k (put_fda k fda)
put_fda-IsSame k fda = record {
  pid = refl;
  at = refl;
  active = λ a. ground arith;
  parent = λ a. ground arith;
  stack = refl;
  page = refl;
}

self-IsSame : (k : Kernel) → IsSame k k
self-IsSame k = record {
  pid = refl;
  at = refl;
  active = λ a. refl;
  parent = λ a. refl;
  stack = refl;
  page = refl;
}

map_vidmem-IsSame :
    (video_at : ℕ) (k : Kernel) → IsSame k (record k { paging = map_vidmem video_at k.paging })
unfolding map_vidmem
map_vidmem-IsSame video_at k = record {
  pid = refl;
  at = refl;
  active = λ a. refl;
  parent = λ a. refl;
  stack = refl;
  page = refl;
}

-- A result says which state follows.
IsSame-result {ℓ} :
    {R : Type ℓ} (state : R → Kernel) (r r' : R) (k : Kernel)
    → some r ≡ some r'
    → IsSame k (state r)
    → IsSame k (state r')
IsSame-result state r r' k h same =
    let e : state r ≡ state r' = ap (λ o. state (Option.get_or o r)) h in rw (sym e) same

descriptors-IsSame :
    (o : Option (ℤ × List FileDescriptor)) (ret : ℤ) (k k' : Kernel)
    → Option.map {B = ℤ × Kernel} (λ (r : ℤ × List FileDescriptor). (r.0, put_fda k r.1)) o
      ≡ some (ret, k')
    → IsSame k k'
descriptors-IsSame none ret k k' h = absurd (ground (arith, h))
descriptors-IsSame (some (r, fda)) ret k k' h =
    IsSame-result (λ (s : ℤ × Kernel). s.1) (r, put_fda k fda) (ret, k') k h (put_fda-IsSame k fda)

refused-IsSame :
    (r ret : ℤ) (k k' : Kernel)
    → ◌≡◌ {A = Option (ℤ × Kernel)} (some (r, k)) (some (ret, k'))
    → IsSame k k'
refused-IsSame r ret k k' h =
    IsSame-result (λ (s : ℤ × Kernel). s.1) (r, k) (ret, k') k h (self-IsSame k)

pub system_open-IsSame :
    (blank : Dentry) (filename : List ℕ) (ret : ℤ) (k k' : Kernel)
    → system_open blank filename k ≡ some (ret, k')
    → IsSame k k'
unfolding system_open
system_open-IsSame blank filename ret k k' h =
    let ((found, dentry), named, rest) =
      bind-some (read_dentry_by_name k.fs.boot_block filename blank) _ (ret, k') h in
    elim (if-cases (eqb_ℤ found (pos 0)) _ _ _ rest) [
      | inl (is, ran) ↦ descriptors-IsSame (open_dentry dentry (current k).fda) ret k k' ran
      | inr (is, ran) ↦ refused-IsSame fail ret k k' ran
    ]

pub system_close-IsSame :
    (fd ret : ℤ) (k k' : Kernel) → system_close fd k ≡ some (ret, k') → IsSame k k'
unfolding system_close
system_close-IsSame (negsuc n) ret k k' h = refused-IsSame fail ret k k' h
system_close-IsSame (pos fd) ret k k' h =
    elim (if-cases (ltb fd file_desc_start_idx || ltb (max_open_files - 1) fd) _ _ _ h) [
      | inl (out, ran) ↦ refused-IsSame fail ret k k' ran
      | inr (in_range, ran) ↦ descriptors-IsSame (close_fd (current k).fda fd) ret k k' ran
    ]

pub file_read-IsSame :
    (fd : ℕ) (nbytes ret : ℤ) (bytes : List ℕ) (k k' : Kernel)
    → file_read fd nbytes k ≡ some (ret, bytes, k')
    → IsSame k k'
unfolding file_read
file_read-IsSame fd (negsuc n) ret bytes k k' h =
    IsSame-result (λ (s : ℤ × List ℕ × Kernel). s.2) (fail, [], k) (ret, bytes, k') k h
      (self-IsSame k)
file_read-IsSame fd (pos zero) ret bytes k k' h =
    IsSame-result (λ (s : ℤ × List ℕ × Kernel). s.2) (fail, [], k) (ret, bytes, k') k h
      (self-IsSame k)
file_read-IsSame fd (pos (suc n)) ret bytes k k' h =
    let (d, at, h1) = bind-some (get_elem? (current k).fda fd) _ (ret, bytes, k') h in
    let ((r, read), ok, h2) =
      bind-some (read_data k.fs d.inode_idx d.file_position (suc n)) _ (ret, bytes, k') h1 in
    elim (if-cases (eqb_ℤ r fail) _ _ _ h2) [
      | inl (failed, ran) ↦
          IsSame-result (λ (s : ℤ × List ℕ × Kernel). s.2) (fail, read, k) (ret, bytes, k') k ran
            (self-IsSame k)
      | inr (done, ran) ↦
          IsSame-result (λ (s : ℤ × List ℕ × Kernel). s.2)
            (r, read, put_position k fd d ((d.file_position + to_u32 r) % u32_mod)) (ret, bytes, k')
            k ran (put_fda-IsSame k _)
    ]

pub directory_read-IsSame :
    (blank : Dentry) (fd : ℕ) (ret : ℤ) (buff dest : List ℕ) (k k' : Kernel)
    → directory_read blank fd buff k ≡ some (ret, dest, k')
    → IsSame k k'
unfolding directory_read
directory_read-IsSame blank fd ret buff dest k k' h =
    let (d, at, h1) = bind-some (get_elem? (current k).fda fd) _ (ret, dest, k') h in
    let ((r, name, position), read, h2) =
      bind-some (read_name k.fs.boot_block blank d.file_position buff) _ (ret, dest, k') h1 in
    IsSame-result (λ (s : ℤ × List ℕ × Kernel). s.2) (r, name, put_position k fd d position)
      (ret, dest, k') k h2 (put_fda-IsSame k _)

pub system_vidmap-IsSame :
    (video_at at : ℕ) (ret : ℤ) (stored : Option ℕ) (k k' : Kernel)
    → system_vidmap video_at at k ≡ some (ret, stored, k')
    → IsSame k k'
unfolding system_vidmap
system_vidmap-IsSame video_at at ret stored k k' h = elim (if-cases (at == 0) _ _ _ h) [
  | inl (is, ran) ↦
      IsSame-result (λ (s : ℤ × Option ℕ × Kernel). s.2) (fail, none, k) (ret, stored, k') k ran
        (self-IsSame k)
  | inr (is, h1) ↦
      elim (if-cases (ltb at img_big_start || ltb (img_big_start + pagesize_4mb) at) _ _ _ h1) [
        | inl (out, ran) ↦
            IsSame-result (λ (s : ℤ × Option ℕ × Kernel). s.2) (fail, none, k) (ret, stored, k') k
              ran (self-IsSame k)
        | inr (within, h2) ↦
            elim (if-cases (ltb (img_big_start + pagesize_4mb) (at + 4)) _ _ _ h2) [
              | inl (fault, ran) ↦ absurd (ground (arith, ran))
              | inr (fits, ran) ↦
                  IsSame-result (λ (s : ℤ × Option ℕ × Kernel). s.2) _ (ret, stored, k') k ran
                    (map_vidmem-IsSame video_at k)
            ]
      ]
]
