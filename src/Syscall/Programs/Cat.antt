-- ===== src/Syscall/Programs/Cat.antt =====
-- What mp3_group_59/syscalls/ece391cat.c prints.
use Prim.Native.Nat.{min}
use native.Mathlib.Decide.{ℕ_discrete}
use ece391_sp.Prelude.{
  ℕ, zero, suc, ◌+◌, ◌-◌, ◌%◌, ◌<◌, ◌≤◌, ◌≡◌, ◌≢◌, refl, sym, ap, ◌∙◌, arith, true, false, some,
  List, ◌++◌, length, take, drop, get_elem?, length-take, length-drop, length-append,
  take-append-drop, drop-drop, drop-min, drop_past, get_elem?-set_ne, ℤ, pos, fail, eqb_ℤ, ◌*◌,
  ◌==◌,
}
use ece391_sp.Filesystem.{Inode}
use ece391_sp.Filesystem.Contents.{contents, length-contents}
use ece391_sp.Process.{FileDescriptor, current, stdout, files}
use ece391_sp.Process.Files.{put_position}
use ece391_sp.Process.Files.Read.{
  IsOpenAt, moved, file_read_next, fda-put_position, put_position-IsOpenAt,
}
use ece391_sp.Process.Execute.{overlay}
use ece391_sp.Console.{Console}
use ece391_sp.Console.Terminal.Write.{
  put_all, put_all-append, IsNonzero, IsNonzero-take, IsNonzero-drop, terminal_write-append,
  terminal_write_shows,
}
use ece391_sp.Syscall.{Machine, Events, system_read, system_write}
use ece391_sp.Syscall.Dispatch.{system_read-files, system_write-stdout}
use ece391_sp.Syscall.Programs.{cat_loop}

-- Descriptor fd is open on a file of the image at a position, and descriptor 1 is the standard output.
pub record IsReading (m : Machine) (fd : ℕ) (d o : FileDescriptor) (ino : Inode) (size position : ℕ)
    : Type 0 where
  pub opened : IsOpenAt m.kernel fd d ino size position
  pub in_range : fd < 8
  pub not_stdout : fd ≢ 1
  pub used : d.flags ≢ 0
  pub table : d.fop ≡ some files
  pub output : get_elem? (current m.kernel).fda 1 ≡ some o
  pub screen : o.fop ≡ some stdout

-- The bytes that are left.
abbrev pub left : Machine → Inode → ℕ → ℕ → List ℕ
left m ino size position = drop position (contents m.kernel.fs ino size)

-- The machine after a read.
abbrev advanced : Machine → ℕ → FileDescriptor → ℕ → Machine
advanced m fd d position = record m { kernel = put_position m.kernel fd d position }

advanced-IsReading :
    (m : Machine) (c : Console) (fd : ℕ) (d o : FileDescriptor) (ino : Inode)
    (size position later : ℕ)
    → IsReading m fd d o ino size position
    → later ≤ size
    → IsReading (record (advanced m fd d later) { console = c }) fd (moved d later) o ino size later
advanced-IsReading m c fd d o ino size position later r le = record {
  opened = put_position-IsOpenAt m.kernel fd d ino size position later r.opened le;
  in_range = r.in_range;
  not_stdout = r.not_stdout;
  used = r.used;
  table = r.table;
  output =
      ap (λ l. get_elem? l 1) (fda-put_position m.kernel fd d later)
      ∙ get_elem?-set_ne (current m.kernel).fda (moved d later) r.not_stdout
      ∙ r.output;
  screen = r.screen;
}

length-left :
    (m : Machine) (fd : ℕ) (d o : FileDescriptor) (ino : Inode) (size position : ℕ)
    → IsReading m fd d o ino size position
    → length (left m ino size position) ≡ size - position
length-left m fd d o ino size position r =
    length-drop position (contents m.kernel.fs ino size)
    ∙ ap (λ n. n - position) (length-contents m.kernel.fs d.inode_idx ino size r.opened.file)

-- One read of cat.
read_step :
    (ev : Events) (m : Machine) (buf : List ℕ) (fd : ℕ) (d o : FileDescriptor) (ino : Inode)
    (size position : ℕ)
    → IsReading m fd d o ino size position
    → length buf ≡ 1024
    → system_read ev (pos fd) (some buf) (pos 1024) m
      ≡ some (
        pos (min 1024 (size - position)),
        some (overlay (take 1024 (left m ino size position)) buf),
        advanced m fd d (position + min 1024 (size - position)),
      )
read_step ev m buf fd d o ino size position r lb =
    system_read-files ev fd buf (take 1024 (left m ino size position)) (pos 1024)
      (pos (min 1024 (size - position))) m d
      (put_position m.kernel fd d (position + min 1024 (size - position))) r.opened.here r.in_range
      r.used r.table
      (file_read_next m.kernel fd 1023 d ino size position r.opened
        (omega (arith, r.opened.within, r.opened.file.small)))
      (omega (arith, lb, length-take {0} 1024 (left m ino size position)))

-- One write of cat, of the n bytes at the start of its buffer.
write_step :
    (ev : Events) (m : Machine) (bytes rest : List ℕ) (n : ℕ) (o : FileDescriptor)
    → get_elem? (current m.kernel).fda 1 ≡ some o
    → o.fop ≡ some stdout
    → IsNonzero bytes
    → length bytes ≡ n
    → n ≢ 79
    → (ret : ℤ) × (system_write ev (pos 1) (some (bytes ++ rest)) (pos n) m
        ≡ some (ret, record m { console = put_all bytes m.console }))
      × (eqb_ℤ ret fail ≡ false)
write_step ev m bytes rest n o out screen nz e ne =
    let (ret, shown, ok) = terminal_write_shows bytes m.console nz (λ l. ne (sym e ∙ l)) in
    (
      ret,
      ap (λ k. system_write ev (pos 1) (some (bytes ++ rest)) (pos k) m) (sym e)
          ∙ system_write-stdout ev (bytes ++ rest) (pos (length bytes)) ret m o
              (put_all bytes m.console) out screen
              (terminal_write-append bytes rest m.console ∙ shown),
      not_fail ret ok,
    )
  where
    not_fail : (ret : ℤ) → ret ≢ fail → eqb_ℤ ret fail ≡ false
    not_fail ret h = ground (arith, h)

-- A round of cat that is not the last.
cat_round :
    (rounds : ℕ) (ev : Events) (m : Machine) (buf : List ℕ) (fd : ℕ) (d o : FileDescriptor)
    (ino : Inode) (size position : ℕ)
    → IsReading m fd d o ino size position
    → length buf ≡ 1024
    → position < size
    → (size - position) % 1024 ≢ 79
    → IsNonzero (left m ino size position)
    → let bytes = take 1024 (left m ino size position) in
      let later = position + min 1024 (size - position) in
      cat_loop (suc rounds) ev (pos fd) buf m
      ≡ cat_loop rounds ev
          (pos fd)
          (overlay bytes buf)
          (record (advanced m fd d later) { console = put_all bytes m.console })
unfolding cat_loop
cat_round rounds ev m buf fd d o ino size position r lb lt ne nz =
    let n = min 1024 (size - position) in
    let bytes = take 1024 (left m ino size position) in
    let m1 = advanced m fd d (position + n) in
    let after =
      advanced-IsReading m m.console fd d o ino size position (position + n) r (omega arith) in
    let (ret, wrote, ok) =
      write_step ev m1 bytes (drop (length bytes) buf) n o after.output r.screen
        (IsNonzero-take 1024 (left m ino size position) nz)
        (length-take 1024 (left m ino size position)
          ∙ ap (min 1024) (length-left m fd d o ino size position r))
        (omega (arith, ne)) in
    let going : (n == 0) ≡ false = ground (arith, lt) in
    rw (read_step ev m buf fd d o ino size position r lb, going, wrote, ok)

-- After a round, what is left is what follows the first 1,024 bytes of what was left before.
left_after :
    (m : Machine) (fd : ℕ) (d o : FileDescriptor) (ino : Inode) (size position : ℕ)
    → IsReading m fd d o ino size position
    → left m ino size (position + min 1024 (size - position)) ≡ drop 1024 (left m ino size position)
left_after m fd d o ino size position r =
    sym (drop-drop (min 1024 (size - position)) position (contents m.kernel.fs ino size))
    ∙ ap (λ n. drop (min 1024 n) (left m ino size position))
        (sym (length-left m fd d o ino size position r))
    ∙ drop-min 1024 (left m ino size position)

-- The end of the file.
cat_end :
    (rounds : ℕ) (ev : Events) (m : Machine) (buf : List ℕ) (fd : ℕ) (d o : FileDescriptor)
    (ino : Inode) (size position : ℕ)
    → IsReading m fd d o ino size position
    → length buf ≡ 1024
    → position ≡ size
    → cat_loop (suc rounds) ev (pos fd) buf m
      ≡ some (pos 0, advanced m fd d (position + min 1024 (size - position)))
unfolding cat_loop
cat_end rounds ev m buf fd d o ino size position r lb e =
    let ended : (min 1024 (size - position) == 0) ≡ true = ground (arith, e) in
    rw (read_step ev m buf fd d o ino size position r lb, ended)

-- What the loop of cat is to do with the bytes that are left.
abbrev Prints : ℕ → Events → Machine → List ℕ → ℕ → List ℕ → Type 0
Prints rounds ev m buf fd bytes =
    (m' : Machine) × (cat_loop rounds ev (pos fd) buf m ≡ some (pos 0, m'))
    × (m'.console ≡ put_all bytes m.console)
    × (m'.in_count ≡ m.in_count)

cat_end-Prints :
    (rounds : ℕ) (ev : Events) (m : Machine) (buf : List ℕ) (fd : ℕ) (d o : FileDescriptor)
    (ino : Inode) (size position : ℕ)
    → IsReading m fd d o ino size position
    → length buf ≡ 1024
    → position ≡ size
    → Prints (suc rounds) ev m buf fd (left m ino size position)
cat_end-Prints rounds ev m buf fd d o ino size position r lb e = (
  advanced m fd d (position + min 1024 (size - position)),
  cat_end rounds ev m buf fd d o ino size position r lb e,
  ap (λ l. put_all l m.console)
      (sym (
        drop_past position (contents m.kernel.fs ino size)
          (omega (arith, e, length-contents m.kernel.fs d.inode_idx ino size r.opened.file)))),
  refl,
)

-- With descriptor fd open on a file of the image at a position, descriptor 1 on the screen, a buffer of
-- 1,024 bytes and rounds for them, the loop of cat shows exactly the bytes that are left of the file, in
-- order, and ends with status 0, if none of them is zero and the last piece is not of 79 bytes.
pub cat_loop_lem :
    (rounds : ℕ) (ev : Events) (m : Machine) (buf : List ℕ) (fd : ℕ) (d o : FileDescriptor)
    (ino : Inode) (size position : ℕ)
    → IsReading m fd d o ino size position
    → length buf ≡ 1024
    → size - position ≤ 1024 * rounds
    → (size - position) % 1024 ≢ 79
    → IsNonzero (left m ino size position)
    → (m' : Machine) × (cat_loop (suc rounds) ev (pos fd) buf m ≡ some (pos 0, m'))
      × (m'.console ≡ put_all (left m ino size position) m.console)
      × (m'.in_count ≡ m.in_count)
cat_loop_lem zero ev m buf fd d o ino size position r lb enough ne nz =
    cat_end-Prints zero ev m buf fd d o ino size position r lb
      (omega (arith, enough, r.opened.within))
cat_loop_lem (suc rounds) ev m buf fd d o ino size position r lb enough ne nz =
    elim (ℕ_discrete position size) [
      | yes e ↦ cat_end-Prints (suc rounds) ev m buf fd d o ino size position r lb e
      | no q ↦
          let n = min 1024 (size - position) in
          let bytes = take 1024 (left m ino size position) in
          let shown = put_all bytes m.console in
          let m2 : Machine = record (advanced m fd d (position + n)) { console = shown } in
          let same = left_after m fd d o ino size position r in
          let (m', ran, console, count) =
            cat_loop_lem rounds ev m2 (overlay bytes buf) fd (moved d (position + n)) o ino size
              (position + n)
              (advanced-IsReading m shown fd d o ino size position (position + n) r
                (omega (arith, r.opened.within)))
              (overlay_length bytes buf
                (omega (arith, length-take {0} 1024 (left m ino size position))) lb)
              (omega (arith, enough, q, r.opened.within))
              (rest_ne (omega (arith, q, r.opened.within)))
              (rw same (IsNonzero-drop 1024 (left m ino size position) nz)) in
          (
            m',
            cat_round (suc rounds) ev m buf fd d o ino size position r lb
                  (omega (arith, q, r.opened.within)) ne nz
                ∙ ran,
            console
                ∙ ap (λ l. put_all l shown) same
                ∙ sym (put_all-append bytes (drop 1024 (left m ino size position)) m.console)
                ∙ ap (λ l. put_all l m.console) (take-append-drop 1024 (left m ino size position)),
            count,
          )
    ]
  where
    overlay_length :
        (bytes buf : List ℕ)
        → length bytes ≤ 1024
        → length buf ≡ 1024
        → length (overlay bytes buf) ≡ 1024
    overlay_length bytes buf le e =
        length-append bytes (drop (length bytes) buf)
        ∙ omega (arith, length-drop {0} (length bytes) buf, le, e)

    rest_ne : position < size → (size - (position + min 1024 (size - position))) % 1024 ≢ 79
    rest_ne lt = omega (arith, ne, lt)
