-- ===== src/Syscall/Args.antt =====
-- What `system_getargs` of mp3_group_59/student-distrib/syscall.c gives a program.
use ece391_sp.Prelude.{
  ℕ, ◌%◌, ◌<◌, ◌≤◌, ◌≡◌, refl, arith, none, some, List, [], ◌∷◌, ◌++◌, length, take, drop,
  replicate, get_elem?, Bool-cases, inl, inr, ◌==◌, true, false, pos, u32_mod,
}
use ece391_sp.Strings.{chars}
use ece391_sp.Strings.Copy.{strncpy_terminated, strncpy_unterminated}
use ece391_sp.Process.{Kernel, current}
use ece391_sp.Syscall.{system_getargs}

-- The first byte of an object with a string in it that is not empty.
first_char :
    (s : List ℕ) → 0 < length (chars s) → (c : ℕ) × (get_elem? s 0 ≡ some c) × ((c == 0) ≡ false)
first_char [] h = absurd (omega arith)
first_char (c ∷ s) h = elim (Bool-cases (c == 0)) [
  | inl e ↦ absurd (empty c s e h)
  | inr e ↦ (c, refl, e)
]
  where
    empty : (c : ℕ) (s : List ℕ) → (c == 0) ≡ true → 0 < length (chars (c ∷ s)) → ⊥
    empty c s e h = ground (arith, h, e)

-- With arguments that are not empty and end inside their 32 bytes, and a buffer of nbytes bytes or more,
-- `system_getargs` returns 0 and leaves in the buffer the first nbytes characters of the arguments, with
-- zeros up to nbytes.
pub system_getargs_lem :
    (buf : List ℕ) (n : ℕ) (k : Kernel)
    → n < u32_mod
    → n ≤ length buf
    → 0 < length (chars (current k).args)
    → length (chars (current k).args) < length (current k).args
    → system_getargs (some buf) (pos n) k
      ≡ some (pos 0, some (take n (chars (current k).args ++ replicate n 0) ++ drop n buf))
unfolding system_getargs
system_getargs_lem buf n k small room nonempty ended =
    let (c, at, used) = first_char (current k).args nonempty in
    let same : n % u32_mod ≡ n = omega (arith, small) in
    rw (at, used, same, strncpy_terminated n buf (current k).args ended room)

-- Arguments that fill their object have no terminator: a program that asks for that many bytes or more
-- makes the kernel read past the PCB's arguments.
pub system_getargs_overread :
    (buf : List ℕ) (n : ℕ) (k : Kernel)
    → n < u32_mod
    → 0 < length (current k).args
    → length (current k).args ≤ n
    → length (chars (current k).args) ≡ length (current k).args
    → system_getargs (some buf) (pos n) k ≡ none
unfolding system_getargs
system_getargs_overread buf n k small room reaches full =
    let (c, at, used) = first_char (current k).args (omega (arith, room, full)) in
    let same : n % u32_mod ≡ n = omega (arith, small) in
    rw (at, used, same, strncpy_unterminated n buf (current k).args full reaches)
