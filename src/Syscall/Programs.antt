-- ===== src/Syscall/Programs.antt =====
-- The user programs mp3_group_59/syscalls/ece391cat.c and ece391ls.c as clients of the system calls. A
-- loop takes the rounds that it may make, and `none` also says that they did not do.
pub mod Cat
pub mod Whole
use Prim.Native.String.{String}
use ece391_sp.Prelude.{
  ℕ, zero, suc, ◌+◌, ◌==◌, if◌then◌else◌, Option, none, some, List, [], ◌∷◌, ◌++◌, ◌-◌, ltb, length,
  set, codes, ℤ, pos, negsuc, fail, eqb_ℤ,
}
use ece391_sp.Strings.{strlen}
use ece391_sp.Filesystem.{◌>>=◌}
use ece391_sp.Process.{inc}
use ece391_sp.Process.Files.{system_open}
use ece391_sp.Syscall.{Machine, Events, system_read, system_write, system_getargs}

abbrev pub as_bytes : Option (List ℕ) → List ℕ
as_bytes none = []
as_bytes (some buf) = buf

-- `ece391_fdputs`, whose write's result is dropped.
abbrev pub fdputs : Events → ℤ → List ℕ → Machine → Option Machine
fdputs ev fd s m = do n ← strlen s; (ret, m') ← system_write ev fd (some s) (pos n) m; some m'

abbrev pub fdputs_then : Events → List ℕ → ℤ → Machine → Option (ℤ × Machine)
fdputs_then ev s status m = do m' ← fdputs ev (pos 1) s m; some (status, m')

-- The bytes of a text, then a line break and a zero.
abbrev pub line : String → List ℕ
line t = codes t ++ (10 ∷ 0 ∷ [])

abbrev pub cat_bufsize : ℤ
cat_bufsize = pos 1024

-- The loop of cat: the exit status and the state.
unfoldable pub cat_loop : ℕ → Events → ℤ → List ℕ → Machine → Option (ℤ × Machine)
cat_loop zero ev fd buf m = none
cat_loop (suc rounds) ev fd buf m = do
  (cnt, got, m1) ← system_read ev fd (some buf) cat_bufsize m
  let more = do
    (written, m2) ← system_write ev (pos 1) (some (as_bytes got)) cnt m1
    if eqb_ℤ written fail then some (pos 3, m2) else cat_loop rounds ev fd (as_bytes got) m2
  if eqb_ℤ cnt (pos 0)
      then some (pos 0, m1)
      else if eqb_ℤ cnt fail
      then fdputs_then ev (line "file read failed") (pos 3) m1
      else more

-- `main` of cat, with what its uninitialised buffer holds.
unfoldable pub cat : ℕ → Events → List ℕ → Machine → Option (ℤ × Machine)
unfolding cat_loop
cat rounds ev buf m = do
  (ret, name) ← system_getargs (some buf) cat_bufsize m.kernel
  (fd, k) ← system_open ev.dentry (as_bytes name) m.kernel
  let m1 = record m { kernel = k }
  let named =
      if eqb_ℤ fd fail
      then fdputs_then ev (line "file not found") (pos 2) m1
      else cat_loop rounds ev fd (as_bytes name) m1
  if eqb_ℤ ret (pos 0) then named else fdputs_then ev (line "could not read arguments") (pos 3) m

abbrev pub sbufsize : ℕ
sbufsize = 33

-- `buf[cnt] = '\n'`, which is inside the buffer for what a read of 32 bytes can return.
abbrev pub end_line : ℤ → List ℕ → Option (List ℕ)
end_line (negsuc n) buf = none
end_line (pos cnt) buf = if ltb cnt (length buf) then some (set buf cnt 10) else none

-- The loop of ls.
unfoldable pub ls_loop : ℕ → Events → ℤ → List ℕ → Machine → Option (ℤ × Machine)
ls_loop zero ev fd buf m = none
ls_loop (suc rounds) ev fd buf m = do
  (cnt, got, m1) ← system_read ev fd (some buf) (pos (sbufsize - 1)) m
  let more = do
    ended ← end_line cnt (as_bytes got)
    (written, m2) ← system_write ev (pos 1) (some ended) (inc cnt) m1
    if eqb_ℤ written fail then some (pos 3, m2) else ls_loop rounds ev fd ended m2
  if eqb_ℤ cnt (pos 0)
      then some (pos 0, m1)
      else if eqb_ℤ cnt fail
      then fdputs_then ev (line "directory entry read failed") (pos 3) m1
      else more

-- `main` of ls, with what its uninitialised buffer holds.
unfoldable pub ls : ℕ → Events → List ℕ → Machine → Option (ℤ × Machine)
unfolding ls_loop
ls rounds ev buf m = do
  (fd, k) ← system_open ev.dentry (b'.' ∷ 0 ∷ []) m.kernel
  let m1 = record m { kernel = k }
  if eqb_ℤ fd fail
      then fdputs_then ev (line "directory open failed") (pos 2) m1
      else ls_loop rounds ev fd buf m1
