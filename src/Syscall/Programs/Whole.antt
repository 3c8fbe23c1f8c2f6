-- ===== src/Syscall/Programs/Whole.antt =====
-- mp3_group_59/syscalls/ece391cat.c from its arguments to the end.
use ece391_sp.Prelude.{
  ℕ, zero, suc, ◌*◌, ◌%◌, ◌<◌, ◌≤◌, ◌≡◌, ◌≢◌, refl, ap, ◌∙◌, arith, some, List, [], ◌∷◌, ◌++◌,
  length, take, drop, replicate, get_elem?, set, get_elem?-set_self, get_elem?-set_ne,
  length-append, length-take, length-replicate, drop_past, ℤ, pos, inl, inr, to_u32, Bool-cases,
  ◌==◌, false,
}
use ece391_sp.Strings.{chars}
use ece391_sp.Strings.Compare.{AllBytes}
use ece391_sp.Filesystem.{Inode, Dentry, bytes_32b}
use ece391_sp.Filesystem.Contents.{IsFile, contents}
use ece391_sp.Filesystem.Directory.{IsDirectory, first_named}
use ece391_sp.Process.{FileDescriptor, current, stdout, files, max_open_files}
use ece391_sp.Process.Files.{opened, put_fda, system_open}
use ece391_sp.Process.Files.Open.{flags_at, OpensLeast, finish, system_open_lem, current-put_fda}
use ece391_sp.Console.Terminal.Write.{put_all, IsNonzero}
use ece391_sp.Syscall.{Machine, Events}
use ece391_sp.Syscall.Args.{system_getargs_lem}
use ece391_sp.Syscall.Programs.{cat}
use ece391_sp.Syscall.Programs.Cat.{IsReading, cat_loop_lem}

-- The name buffer of cat after `system_getargs`.
abbrev name_buffer : List ℕ → List ℕ → List ℕ
name_buffer args buf = take 1024 (chars args ++ replicate 1024 0) ++ drop 1024 buf

chars-IsNonzero : (s : List ℕ) → IsNonzero (chars s)
chars-IsNonzero [] = tt
chars-IsNonzero (c ∷ s) = elim (Bool-cases (c == 0)) [
  | inl e ↦ rw e tt
  | inr e ↦ rw e ((λ z. ground (arith, e, z)), chars-IsNonzero s)
]

chars-take :
    (cs rest tail : List ℕ) (n : ℕ)
    → IsNonzero cs
    → length cs < n
    → chars (take n (cs ++ (0 ∷ rest)) ++ tail) ≡ cs
chars-take cs rest tail zero h lt = absurd (omega arith)
chars-take [] rest tail (suc n) h lt = refl
chars-take (c ∷ cs) rest tail (suc n) h lt =
    let used : (c == 0) ≡ false = ground (arith, h.0) in
    rw (used, chars-take cs rest tail n h.1 (omega (arith, lt)))

AllBytes-append : (xs ys : List ℕ) → AllBytes xs → AllBytes ys → AllBytes (xs ++ ys)
AllBytes-append [] ys h k = k
AllBytes-append (x ∷ xs) ys h k = (h.0, AllBytes-append xs ys h.1 k)

AllBytes-take : (n : ℕ) (xs : List ℕ) → AllBytes xs → AllBytes (take n xs)
AllBytes-take zero xs h = tt
AllBytes-take (suc n) [] h = tt
AllBytes-take (suc n) (x ∷ xs) h = (h.0, AllBytes-take n xs h.1)

AllBytes-drop : (n : ℕ) (xs : List ℕ) → AllBytes xs → AllBytes (drop n xs)
AllBytes-drop zero xs h = h
AllBytes-drop (suc n) [] h = tt
AllBytes-drop (suc n) (x ∷ xs) h = AllBytes-drop n xs h.1

AllBytes-chars : (xs : List ℕ) → AllBytes xs → AllBytes (chars xs)
AllBytes-chars [] h = tt
AllBytes-chars (x ∷ xs) h = elim (Bool-cases (x == 0)) [
  | inl e ↦ rw e tt
  | inr e ↦ rw e (h.0, AllBytes-chars xs h.1)
]

pub AllBytes-replicate : (n : ℕ) → AllBytes (replicate n 0)
AllBytes-replicate zero = tt
AllBytes-replicate (suc n) = (omega arith, AllBytes-replicate n)

-- What cat is given: arguments that end inside their object, a directory in which the first entry of that
-- name is a file of the image, a free descriptor, and the screen as the standard output.
pub record IsCatInput (m : Machine) (n : ℕ) (e : Dentry) (o : FileDescriptor) (ino : Inode)
    (size : ℕ) : Type 0 where
  pub named : 0 < length (chars (current m.kernel).args)
  pub ended : length (chars (current m.kernel).args) < length (current m.kernel).args
  pub short : length (chars (current m.kernel).args) ≤ bytes_32b
  pub bytes : AllBytes (current m.kernel).args
  pub directory : IsDirectory n m.kernel.fs.boot_block
  pub found :
      first_named
        (take bytes_32b (chars (current m.kernel).args))
        (take n m.kernel.fs.boot_block.direntries)
      ≡ some e
  pub typed : e.file_type ≡ pos 2
  pub eight : length (current m.kernel).fda ≡ max_open_files
  pub free : (fd : ℕ) × (2 ≤ fd) × (fd < 8) × (flags_at (current m.kernel).fda fd ≡ 0)
  pub output : get_elem? (current m.kernel).fda 1 ≡ some o
  pub screen : o.fop ≡ some stdout
  pub file : IsFile m.kernel.fs (to_u32 e.inode_num) ino size

-- The least free descriptor exists.
opens :
    (entry : FileDescriptor) (fda : List FileDescriptor) (r : ℤ × List FileDescriptor)
    → OpensLeast entry fda 2 8 r
    → (fd : ℕ) × (2 ≤ fd) × (fd < 8) × (flags_at fda fd ≡ 0)
    → (fd : ℕ) × (r ≡ (pos fd, set fda fd entry)) × (2 ≤ fd) × (fd < 8)
opens entry fda r (inl (fd, e, lo, hi, free, least)) some_free = (fd, e, lo, hi)
opens entry fda r (inr (e, none_free)) (fd, lo, hi, free) = absurd (none_free fd lo hi free)

length-name_buffer : (args buf : List ℕ) → length buf ≡ 1024 → length (name_buffer args buf) ≡ 1024
length-name_buffer args buf lb = omega (
  arith,
  length-append {0} (take 1024 (chars args ++ replicate 1024 0)) (drop 1024 buf),
  length-take {0} 1024 (chars args ++ replicate 1024 0),
  length-append {0} (chars args) (replicate 1024 0),
  length-replicate {0} {A = ℕ} 1024 0,
  ap (length {A = ℕ}) (drop_past 1024 buf (omega (arith, lb))),
)

AllBytes-name_buffer :
    (args buf : List ℕ) → length buf ≡ 1024 → AllBytes args → AllBytes (name_buffer args buf)
AllBytes-name_buffer args buf lb h =
    AllBytes-append (take 1024 (chars args ++ replicate 1024 0)) (drop 1024 buf)
      (AllBytes-take 1024 (chars args ++ replicate 1024 0) (
        AllBytes-append (chars args) (replicate 1024 0) (AllBytes-chars args h)
          (AllBytes-replicate 1024)))
      (rw (drop_past 1024 buf (omega (arith, lb))) tt)

-- What `system_open` returns for the name of cat.
cat_opens :
    (ev : Events) (buf : List ℕ) (m : Machine) (n : ℕ) (e : Dentry) (o : FileDescriptor)
    (ino : Inode) (size : ℕ)
    → IsCatInput m n e o ino size
    → length buf ≡ 1024
    → (fd : ℕ) × (system_open ev.dentry (name_buffer (current m.kernel).args buf) m.kernel
        ≡ some (pos fd, put_fda m.kernel (set (current m.kernel).fda fd (opened files 2 e))))
      × (2 ≤ fd)
      × (fd < 8)
cat_opens ev buf m n e o ino size i lb =
    let args = (current m.kernel).args in
    let name = name_buffer args buf in
    let same : chars name ≡ chars args =
      chars-take (chars args) (replicate 1023 0) (drop 1024 buf) 1024 (chars-IsNonzero args)
        (omega (arith, i.short)) in
    let (r, ran, what) =
      (system_open_lem ev.dentry name m.kernel n i.directory
          (omega (arith, length-name_buffer args buf lb)) (AllBytes-name_buffer args buf lb i.bytes)
          i.eight).1
        e 2
        (ap (λ s. first_named (take bytes_32b s) (take n m.kernel.fs.boot_block.direntries)) same
          ∙ i.found)
        (omega arith) i.typed in
    let (fd, is, lo, hi) = opens (opened files 2 e) (current m.kernel).fda r what i.free in
    (fd, ran ∙ ap (λ x. some (finish m.kernel x)) is, lo, hi)

-- With a free descriptor, the screen as standard output, and arguments that name a file of the image
-- with no zero byte in it, whose last piece of 1,024 is not of 79 bytes, cat shows exactly the file's
-- bytes and ends with status 0; one round for each 1,024 bytes and one more are enough.
pub cat_lem :
    (rounds : ℕ) (ev : Events) (buf : List ℕ) (m : Machine) (n : ℕ) (e : Dentry)
    (o : FileDescriptor) (ino : Inode) (size : ℕ)
    → IsCatInput m n e o ino size
    → length buf ≡ 1024
    → size ≤ 1024 * rounds
    → size % 1024 ≢ 79
    → IsNonzero (contents m.kernel.fs ino size)
    → (m' : Machine) × (cat (suc rounds) ev buf m ≡ some (pos 0, m'))
      × (m'.console ≡ put_all (contents m.kernel.fs ino size) m.console)
unfolding cat
cat_lem rounds ev buf m n e o ino size i lb enough ne nz =
    let args = (current m.kernel).args in
    let name = name_buffer args buf in
    let (fd, ran, lo, hi) = cat_opens ev buf m n e o ino size i lb in
    let fda = set (current m.kernel).fda fd (opened files 2 e) in
    let m1 : Machine = record m { kernel = put_fda m.kernel fda } in
    let now = current-put_fda m.kernel fda in
    let reading : IsReading m1 fd (opened files 2 e) o ino size 0 = record {
      opened = record {
        here =
            ap (λ l. get_elem? l fd) now
            ∙ get_elem?-set_self (current m.kernel).fda fd (opened files 2 e)
                (omega (arith, hi, i.eight));
        file = i.file;
        at = refl;
        within = omega arith;
      };
      in_range = hi;
      not_stdout = λ f. omega (arith, f, lo);
      used = λ z. omega (arith, z);
      table = refl;
      output =
          ap (λ l. get_elem? l 1) now
          ∙ get_elem?-set_ne (current m.kernel).fda (opened files 2 e) (λ f. omega (arith, f, lo))
          ∙ i.output;
      screen = i.screen;
    } in
    let (m', looped, console, count) =
      cat_loop_lem rounds ev m1 name fd (opened files 2 e) o ino size 0 reading
        (length-name_buffer args buf lb) (omega (arith, enough)) (omega (arith, ne)) nz in
    (
      m',
      rw
          (
            system_getargs_lem buf 1024 m.kernel (omega arith) (omega (arith, lb)) i.named i.ended,
            ran,
          )
          looped,
      console,
    )
