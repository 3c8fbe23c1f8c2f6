-- ===== src/Process/Files/Open.antt =====
-- What `system_open` and `system_close` of mp3_group_59/student-distrib/syscall.c do to the descriptors
-- of the current process.
use mathlib.Core.Path.{fun_ext}
use native.Mathlib.Decide.{ℕ_discrete}
use ece391_sp.Prelude.{
  ℕ, zero, suc, ◌+◌, ◌≤◌, ◌<◌, ◌≡◌, ◌≢◌, ◌⊎◌, inl, inr, refl, ap, sym, ◌∙◌, arith, Option, none,
  some, List, [], ◌∷◌, length, length-set, take, get_elem?, set, get_elem?-set_self,
  get_elem?-set_ne, ℤ, pos, fail,
}
use ece391_sp.Strings.{chars}
use ece391_sp.Strings.Compare.{AllBytes}
use ece391_sp.Filesystem.{Dentry, bytes_32b}
use ece391_sp.Filesystem.Directory.{IsDirectory, first_named, read_dentry_by_name_lem}
use ece391_sp.Process.{
  Table, null, rtc, files, directories, FileDescriptor, Kernel, current, max_open_files,
}
use ece391_sp.Process.Files.{
  opened, open_from, open_first, open_dentry, put_fda, system_open, system_close, close_fd,
}

get_elem?-lt {ℓ} :
    {A : Type ℓ} (xs : List A) (i : ℕ) → i < length xs → (a : A) × (get_elem? xs i ≡ some a)
get_elem?-lt [] i h = absurd (omega arith)
get_elem?-lt (x ∷ xs) zero h = (x, refl)
get_elem?-lt (x ∷ xs) (suc i) h = get_elem?-lt xs i (omega arith)

-- The flags of a descriptor; one that does not exist counts as in use.
abbrev pub flags_of : Option FileDescriptor → ℕ
flags_of none = 1
flags_of (some d) = d.flags

abbrev pub flags_at : List FileDescriptor → ℕ → ℕ
flags_at fda i = flags_of (get_elem? fda i)

-- What one loop of `system_open` may return: the least free descriptor from `lo` on, or -1.
abbrev pub OpensLeast :
    FileDescriptor → List FileDescriptor → ℕ → ℕ → ℤ × List FileDescriptor → Type 0
OpensLeast entry fda lo hi r =
    ((fd : ℕ) × (r ≡ (pos fd, set fda fd entry))
      × (lo ≤ fd)
      × (fd < hi)
      × (flags_at fda fd ≡ 0)
      × ((j : ℕ) → lo ≤ j → j < fd → flags_at fda j ≢ 0))
    ⊎ ((r ≡ (fail, fda)) × ((j : ℕ) → lo ≤ j → j < hi → flags_at fda j ≢ 0))

open_from_lem :
    (entry : FileDescriptor) (fda : List FileDescriptor) (rounds fd : ℕ)
    → fd + rounds ≤ length fda
    → (r : ℤ × List FileDescriptor) × (open_from entry fda rounds fd ≡ some r)
      × OpensLeast entry fda fd (fd + rounds) r
unfolding open_from
open_from_lem entry fda zero fd h = ((fail, fda), refl, inr (refl, λ j p q. absurd (omega arith)))
open_from_lem entry fda (suc rounds) fd h =
    let (d, at) = get_elem?-lt fda fd (omega arith) in
    elim (ℕ_discrete d.flags 0) [
      | yes free ↦ (
        (pos fd, set fda fd entry),
        ground (arith, at, free),
        inl (fd, refl, omega arith, omega arith, rw at free, λ j p q. absurd (omega arith)),
      )
      | no busy ↦
          let (r, ran, what) = open_from_lem entry fda rounds (fd + 1) (omega arith) in
          (r, ground (arith, at, busy, ran), step d at busy r what)
    ]
  where
    step :
        (d : FileDescriptor)
        → get_elem? fda fd ≡ some d
        → d.flags ≢ 0
        → (r : ℤ × List FileDescriptor) → OpensLeast entry fda (fd + 1) (fd + 1 + rounds) r
        → OpensLeast entry fda fd (fd + suc rounds) r
    step d at busy r (inl (n, e, lo, hi, free, least)) = inl (
      n,
      e,
      omega arith,
      omega arith,
      free,
      λ j p q. elim (ℕ_discrete j fd) [
        | yes same ↦ rw (same, at) busy
        | no other ↦ least j (omega arith) q
      ],
    )
    step d at busy r (inr (e, later)) = inr (
      e,
      λ j p q. elim (ℕ_discrete j fd) [
        | yes same ↦ rw (same, at) busy
        | no other ↦ later j (omega arith) (omega arith)
      ],
    )

-- Writing back a process's own descriptors changes nothing.
put_fda_self : (k : Kernel) → put_fda k (current k).fda ≡ k
put_fda_self k = λ i. record k { pcbs = same i }
  where
    same : (put_fda k (current k).fda).pcbs ≡ k.pcbs
    same = fun_ext λ a. elim (ℕ_discrete a k.pcb_obj) [
      | yes e ↦ rw e (ground arith)
      | no ne ↦ ground (arith, ne)
    ]

-- The operations table and the type number for each kind of entry that can be opened.
abbrev pub table_for : ℕ → Table
table_for zero = rtc
table_for (suc zero) = directories
table_for (suc (suc t)) = files

-- The state after `system_open` has returned `r`.
abbrev pub finish : Kernel → ℤ × List FileDescriptor → ℤ × Kernel
finish k r = (r.0, put_fda k r.1)

open_dentry-typed :
    (t : ℕ) (e : Dentry) (fda : List FileDescriptor)
    → t < 3
    → e.file_type ≡ pos t
    → open_dentry e fda ≡ open_first (opened (table_for t) t e) fda
unfolding open_dentry
open_dentry-typed zero e fda h q = rw q
open_dentry-typed (suc zero) e fda h q = rw q
open_dentry-typed (suc (suc zero)) e fda h q = rw q
open_dentry-typed (suc (suc (suc t))) e fda h q = absurd (omega arith)

-- For a name of at least 32 bytes and a directory of n entries, with eight descriptors in the PCB:
-- `system_open` returns -1 and changes nothing if no entry has the name; if the first that has is an RTC,
-- a directory or a file, it takes the least free descriptor from 2 on for it, writes that one alone and
-- returns its number, or returns -1 when 2 to 7 are all in use.
pub system_open_lem :
    (blank : Dentry) (filename : List ℕ) (k : Kernel) (n : ℕ)
    → IsDirectory n k.fs.boot_block
    → 32 ≤ length filename
    → AllBytes filename
    → length (current k).fda ≡ max_open_files
    → let found =
        first_named (take bytes_32b (chars filename)) (take n k.fs.boot_block.direntries) in
      (found ≡ none → system_open blank filename k ≡ some (fail, k))
      × ((e : Dentry) (t : ℕ)
          → found ≡ some e
          → t < 3
          → e.file_type ≡ pos t
          → (r : ℤ × List FileDescriptor) × (system_open blank filename k ≡ some (finish k r))
            × OpensLeast (opened (table_for t) t e) (current k).fda 2 8 r)
unfolding system_open
system_open_lem blank filename k n d lf bf eight =
    let looked = read_dentry_by_name_lem k.fs.boot_block n filename blank d lf bf in
    (
      (λ missing. rw (looked, missing)),
      λ e t found small typed.
          let (r, ran, what) =
            open_from_lem (opened (table_for t) t e) (current k).fda 6 2 (omega (arith, eight)) in
          (r, rw (looked, found, open_dentry-typed t e (current k).fda small typed, ran), what),
    )

close_fd-set :
    (fda : List FileDescriptor) (fd : ℕ) (entry : FileDescriptor)
    → fd < length fda
    → entry.flags ≢ 0
    → (r : List FileDescriptor) × (close_fd (set fda fd entry) fd ≡ some (pos 0, r))
      × (flags_at r fd ≡ 0)
      × (length r ≡ length fda)
      × ((j : ℕ) → j ≢ fd → get_elem? r j ≡ get_elem? fda j)
unfolding close_fd
close_fd-set fda fd entry h used =
    let closed = record entry { inode_idx = 0; flags = 0; file_position = 0; fop = some null } in
    (
      set (set fda fd entry) fd closed,
      rw (get_elem?-set_self fda fd entry h) (ground arith),
      rw (get_elem?-set_self (set fda fd entry) fd closed (omega (arith, length-set fda fd entry))),
      length-set (set fda fd entry) fd closed ∙ length-set fda fd entry,
      λ j ne.
          get_elem?-set_ne (set fda fd entry) closed (λ e. ne (sym e))
          ∙ get_elem?-set_ne fda entry (λ e. ne (sym e)),
    )

pub current-put_fda : (k : Kernel) (fda : List FileDescriptor) → (current (put_fda k fda)).fda ≡ fda
current-put_fda k fda = ground arith

close_fd-free :
    (fda : List FileDescriptor) (fd : ℕ)
    → fd < length fda
    → flags_at fda fd ≡ 0
    → close_fd fda fd ≡ some (fail, fda)
unfolding close_fd
close_fd-free fda fd h free = let (d, at) = get_elem?-lt fda fd h in ground (arith, at, free)

system_close-in_range :
    (k : Kernel) (fd : ℕ) (z : ℤ) (fda r : List FileDescriptor)
    → 2 ≤ fd
    → fd < 8
    → (current k).fda ≡ fda
    → close_fd fda fd ≡ some (z, r)
    → system_close (pos fd) k ≡ some (z, put_fda k r)
unfolding system_close
system_close-in_range k fd z fda r lo hi e closed = rw (e, closed) (ground arith)

-- Closing a descriptor from 2 to 7 that was just given a new entry in use succeeds: the descriptor is
-- free again, every other one is as before, and a second close of it fails and changes nothing.
system_close-put :
    (k : Kernel) (fd : ℕ) (entry : FileDescriptor)
    → length (current k).fda ≡ max_open_files
    → 2 ≤ fd
    → fd < 8
    → entry.flags ≢ 0
    → (k' : Kernel) × (system_close (pos fd) (put_fda k (set (current k).fda fd entry))
        ≡ some (pos 0, k'))
      × (flags_at (current k').fda fd ≡ 0)
      × ((j : ℕ) → j ≢ fd → get_elem? (current k').fda j ≡ get_elem? (current k).fda j)
      × (system_close (pos fd) k' ≡ some (fail, k'))
unfolding system_close
system_close-put k fd entry eight lo hi used =
    let old = (current k).fda in
    let k1 = put_fda k (set old fd entry) in
    let (r, closed, free, same_length, others) =
      close_fd-set old fd entry (omega (arith, eight)) used in
    let k' = put_fda k1 r in
    (
      k',
      system_close-in_range k1 fd (pos 0) (set old fd entry) r lo hi
          (current-put_fda k (set old fd entry)) closed,
      ap (λ l. flags_at l fd) (current-put_fda k1 r) ∙ free,
      λ j ne. ap (λ l. get_elem? l j) (current-put_fda k1 r) ∙ others j ne,
      system_close-in_range k' fd fail r r lo hi (current-put_fda k1 r)
            (close_fd-free r fd (omega (arith, same_length, eight)) free)
          ∙ ap (λ l. some (fail, put_fda k' l)) (sym (current-put_fda k1 r))
          ∙ ap (λ s. some (fail, s)) (put_fda_self k'),
    )
