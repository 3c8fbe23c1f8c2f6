-- ===== src/Process/Files/Read.antt =====
-- Reading an open file to its end through `file_read` of mp3_group_59/student-distrib/filesystem.c.
use Prim.Native.Nat.{min}
use ece391_sp.Prelude.{
  ℕ, suc, ◌+◌, ◌-◌, ◌%◌, ◌≤◌, ◌<◌, ◌≡◌, refl, ap, ◌∙◌, arith, some, List, get_elem?, set,
  get_elem?-set_self, pos, u32_mod, length-get,
}
use ece391_sp.Filesystem.{Inode, read_data}
use ece391_sp.Filesystem.Contents.{IsFile, contents, slice, read_data_lem}
use ece391_sp.Process.{FileDescriptor, Kernel, current}
use ece391_sp.Process.Files.Open.{current-put_fda}
use ece391_sp.Process.Files.{put_position, file_read}

-- Descriptor fd of the current process is a file of the image, open at a position in it.
pub record IsOpenAt (k : Kernel) (fd : ℕ) (d : FileDescriptor) (ino : Inode) (size position : ℕ)
    : Type 0 where
  pub here : get_elem? (current k).fda fd ≡ some d
  pub file : IsFile k.fs d.inode_idx ino size
  pub at : d.file_position ≡ position
  pub within : position ≤ size

abbrev pub moved : FileDescriptor → ℕ → FileDescriptor
moved d position = record d { file_position = position }

file_read-at :
    (k : Kernel) (fd n : ℕ) (d : FileDescriptor) (p m : ℕ) (bytes : List ℕ)
    → get_elem? (current k).fda fd ≡ some d
    → d.file_position ≡ p
    → read_data k.fs d.inode_idx p (suc n) ≡ some (pos m, bytes)
    → p + m < u32_mod
    → file_read fd (pos (suc n)) k ≡ some (pos m, bytes, put_position k fd d (p + m))
unfolding file_read
file_read-at k fd n d p m bytes here at ran small =
    let same : (p + m % u32_mod) % u32_mod ≡ p + m = omega arith in rw (here, at, ran, same)

-- A read that is described in full, with the state after it.
pub file_read_next :
    (k : Kernel) (fd n : ℕ) (d : FileDescriptor) (ino : Inode) (size position : ℕ)
    → IsOpenAt k fd d ino size position
    → position + suc n < u32_mod
    → let m = min (suc n) (size - position) in
      file_read fd (pos (suc n)) k
      ≡ some (
        pos m,
        slice position (suc n) (contents k.fs ino size),
        put_position k fd d (position + m),
      )
file_read_next k fd n d ino size position o small =
    let m = min (suc n) (size - position) in
    file_read-at k fd n d position m _ o.here o.at
      (read_data_lem k.fs d.inode_idx ino size position (suc n) o.file small) (omega arith)

pub fda-put_position :
    (k : Kernel) (fd : ℕ) (d : FileDescriptor) (position : ℕ)
    → (current (put_position k fd d position)).fda ≡ set (current k).fda fd (moved d position)
fda-put_position k fd d position = current-put_fda k (set (current k).fda fd (moved d position))

pub put_position-IsOpenAt :
    (k : Kernel) (fd : ℕ) (d : FileDescriptor) (ino : Inode) (size position later : ℕ)
    → IsOpenAt k fd d ino size position
    → later ≤ size
    → IsOpenAt (put_position k fd d later) fd (moved d later) ino size later
put_position-IsOpenAt k fd d ino size position later o le = record {
  here =
      ap (λ l. get_elem? l fd) (fda-put_position k fd d later)
      ∙ get_elem?-set_self (current k).fda fd (moved d later)
          (length-get (current k).fda fd o.here);
  file = o.file;
  at = refl;
  within = le;
}

-- Reading a positive count from an open file returns the file's next bytes, as many as there are up to
-- the count, and leaves the descriptor open on the same file right behind them.
pub file_read_lem :
    (k : Kernel) (fd n : ℕ) (d : FileDescriptor) (ino : Inode) (size position : ℕ)
    → IsOpenAt k fd d ino size position
    → position + suc n < u32_mod
    → let m = min (suc n) (size - position) in
      (k' : Kernel) × (file_read fd (pos (suc n)) k
        ≡ some (pos m, slice position (suc n) (contents k.fs ino size), k'))
      × IsOpenAt k' fd (moved d (position + m)) ino size (position + m)
      × (k'.fs ≡ k.fs)
file_read_lem k fd n d ino size position o small =
    let m = min (suc n) (size - position) in
    (
      put_position k fd d (position + m),
      file_read_next k fd n d ino size position o small,
      put_position-IsOpenAt k fd d ino size position (position + m) o (omega (arith, o.within)),
      refl,
    )
