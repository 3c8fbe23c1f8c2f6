-- ===== src/Process/Execute/Image.antt =====
-- Where `system_execute` of mp3_group_59/student-distrib/syscall.c puts the program in its page.
use mathlib.Core.Option
use ece391_sp.Prelude.{
  ℕ, zero, suc, ◌+◌, ◌-◌, ◌≤◌, ◌<◌, ◌≡◌, refl, ap, arith, ltb, leb, some, List, [], ◌∷◌, length,
  if-cases, get_elem?, get_or, true, false, ◌⊎◌, inl, inr,
}
use ece391_sp.Filesystem.{Inode}
use ece391_sp.Filesystem.Contents.{IsFile, contents, length-contents}
use ece391_sp.Process.{Kernel}
use ece391_sp.Process.Execute.{write_at, put_image, load_frame, size_program_img}

get_or-get_elem? : (xs : List ℕ) (i v d : ℕ) → get_elem? xs i ≡ some v → get_or xs i d ≡ v
get_or-get_elem? [] i v d at = absurd (ground (arith, at))
get_or-get_elem? (x ∷ xs) zero v d at = ap (λ o. Option.get_or o x) at
get_or-get_elem? (x ∷ xs) (suc i) v d at = get_or-get_elem? xs i v d at

get_or_past : (xs : List ℕ) (i d : ℕ) → length xs ≤ i → get_or xs i d ≡ d
get_or_past [] i d h = refl
get_or_past (x ∷ xs) zero d h = absurd (omega (arith, h))
get_or_past (x ∷ xs) (suc i) d h = get_or_past xs i d (omega (arith, h))

pub write_at_inside :
    (at i v : ℕ) (bytes : List ℕ) (old : ℕ → ℕ)
    → get_elem? bytes i ≡ some v
    → write_at at bytes old (at + i) ≡ v
write_at_inside at i v bytes old found =
    let behind : ltb (at + i) at ≡ false = ground arith in
    let offset : at + i - at ≡ i = omega arith in
    rw (behind, offset) (get_or-get_elem? bytes i v (old (at + i)) found)

pub write_at_outside :
    (at o : ℕ) (bytes : List ℕ) (old : ℕ → ℕ)
    → (o < at) ⊎ (at + length bytes ≤ o)
    → write_at at bytes old o ≡ old o
write_at_outside at o bytes old (inl before) =
    let e : ltb o at ≡ true = ground (arith, before) in rw e refl
write_at_outside at o bytes old (inr past) =
    let e : ltb o at ≡ false = ground (arith, past) in
    rw e (get_or_past bytes (o - at) (old o) (omega (arith, past)))

load_frame_lem :
    (k : Kernel) (bytes : List ℕ)
    → length bytes ≤ size_program_img
    → load_frame k bytes ≡ some (put_image k bytes)
unfolding load_frame
load_frame_lem k bytes fits =
    let e : leb (length bytes) size_program_img ≡ true = ground (arith, fits) in rw e refl

-- Only this state can come of it.
pub load_frame-put_image :
    (k k' : Kernel) (bytes : List ℕ) → load_frame k bytes ≡ some k' → put_image k bytes ≡ k'
unfolding load_frame
load_frame-put_image k k' bytes h = elim (if-cases (leb (length bytes) size_program_img) _ _ _ h) [
  | inl (fits, e) ↦ ap (λ o. Option.get_or o k) e
  | inr (large, e) ↦ absurd (ground (arith, e))
]

-- A file that fits into the page is put into the frame.
pub whole_image :
    (k : Kernel) (inode : ℕ) (ino : Inode) (size : ℕ)
    → IsFile k.fs inode ino size
    → size ≤ size_program_img
    → load_frame k (contents k.fs ino size) ≡ some (put_image k (contents k.fs ino size))
whole_image k inode ino size f fits =
    load_frame_lem k (contents k.fs ino size)
      (omega (arith, fits, length-contents k.fs inode ino size f))
