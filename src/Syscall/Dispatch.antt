-- ===== src/Syscall/Dispatch.antt =====
-- What `system_read` and `system_write` of mp3_group_59/student-distrib/syscall.c do with a descriptor.
use ece391_sp.Prelude.{
  ℕ, ◌<◌, ◌≤◌, ◌≡◌, ◌≢◌, refl, arith, ltb, ◌==◌, false, some, List, set, get_elem?-set_self, ap,
  ◌∙◌, length, get_elem?, ℤ, pos, fail, length-get,
}
use ece391_sp.Process.{FileDescriptor, Kernel, current, null, stdout, files}
use ece391_sp.Process.Files.{file_read, system_close, put_fda, no_operation}
use ece391_sp.Process.Files.Open.{current-put_fda}
use ece391_sp.Process.Execute.{overlay}
use ece391_sp.Console.{Console}
use ece391_sp.Console.Terminal.{terminal_write}
use ece391_sp.Syscall.{Machine, Events, file_operations, system_read, system_write}

-- A read of an open file goes to `file_read`.
pub system_read-files :
    (ev : Events) (fd : ℕ) (buf bytes : List ℕ) (nbytes ret : ℤ) (m : Machine) (d : FileDescriptor)
    (k : Kernel)
    → get_elem? (current m.kernel).fda fd ≡ some d
    → fd < 8
    → d.flags ≢ 0
    → d.fop ≡ some files
    → file_read fd nbytes m.kernel ≡ some (ret, bytes, k)
    → length bytes ≤ length buf
    → system_read ev (pos fd) (some buf) nbytes m
      ≡ some (ret, some (overlay bytes buf), record m { kernel = k })
unfolding system_read file_operations
system_read-files ev fd buf bytes nbytes ret m d k at small used table ran room =
    let inside : ltb 7 fd ≡ false = ground arith in
    let busy : (d.flags == 0) ≡ false = ground (arith, used) in
    let fits : ltb (length buf) (length bytes) ≡ false = ground arith in
    rw (inside, at, busy, table, ran, fits)

-- A write to the standard output goes to `terminal_write`.
pub system_write-stdout :
    (ev : Events) (buf : List ℕ) (nbytes ret : ℤ) (m : Machine) (d : FileDescriptor) (c : Console)
    → get_elem? (current m.kernel).fda 1 ≡ some d
    → d.fop ≡ some stdout
    → terminal_write (some buf) nbytes m.console ≡ some (ret, c)
    → system_write ev (pos 1) (some buf) nbytes m ≡ some (ret, record m { console = c })
unfolding system_write file_operations
system_write-stdout ev buf nbytes ret m d c at table ran = rw (at, table, ran)

-- A read or write of a descriptor that has the null table fails and changes nothing, as does a read of one
-- that is not in use.
null_refused :
    (ev : Events) (fd : ℕ) (buf : List ℕ) (nbytes : ℤ) (m : Machine) (d : FileDescriptor)
    → get_elem? (current m.kernel).fda fd ≡ some d
    → fd < 8
    → d.flags ≡ 0
    → d.fop ≡ some null
    → (system_read ev (pos fd) (some buf) nbytes m ≡ some (fail, some buf, m))
      × (system_write ev (pos fd) (some buf) nbytes m ≡ some (fail, m))
unfolding system_read system_write file_operations no_operation
null_refused ev fd buf nbytes m d at small free table =
    let inside : ltb 7 fd ≡ false = ground arith in (rw (inside, at, free), rw (inside, at, table))

-- Once `system_close` has closed a descriptor from 2 to 7 that was in use, reads and writes of it fail and
-- change nothing.
pub system_read-system_close :
    (ev : Events) (fd : ℕ) (buf : List ℕ) (nbytes : ℤ) (m : Machine) (d : FileDescriptor)
    → get_elem? (current m.kernel).fda fd ≡ some d
    → d.flags ≢ 0
    → 2 ≤ fd
    → fd < 8
    → (k : Kernel) × (system_close (pos fd) m.kernel ≡ some (pos 0, k))
      × (let m' = record m { kernel = k } in
          (system_read ev (pos fd) (some buf) nbytes m' ≡ some (fail, some buf, m'))
          × (system_write ev (pos fd) (some buf) nbytes m' ≡ some (fail, m')))
unfolding system_close
system_read-system_close ev fd buf nbytes m d at used lo hi =
    let closed = record d { inode_idx = 0; flags = 0; file_position = 0; fop = some null } in
    let fda = set (current m.kernel).fda fd closed in
    let k = put_fda m.kernel fda in
    let low : ltb fd 2 ≡ false = ground arith in
    let high : ltb 7 fd ≡ false = ground arith in
    let busy : (d.flags == 0) ≡ false = ground (arith, used) in
    let here : get_elem? (current k).fda fd ≡ some closed =
      ap (λ l. get_elem? l fd) (current-put_fda m.kernel fda)
      ∙ get_elem?-set_self (current m.kernel).fda fd closed
          (length-get (current m.kernel).fda fd at) in
    (
      k,
      rw (low, high, at, busy),
      null_refused ev fd buf nbytes (record m { kernel = k }) closed here hi refl refl,
    )
