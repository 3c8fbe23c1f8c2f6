-- ===== src/Strings.antt =====
-- The string functions of mp3_group_59/student-distrib/lib.c. A pointer is the list of the bytes from
-- it to the end of its object; `none` is an access past that end.
pub mod Compare
pub mod Copy
pub mod Reverse
pub mod Digits
mod Tests
use mathlib.Core.Option
use ece391_sp.Prelude.{
  ◌≢◌, ◌+◌, ◌/◌, ◌%◌, get_elem?, set, to_u32, codes, ℕ, zero, suc, ◌+◌, ◌-◌, Bool, true, false, not,
  ◌||◌, Option, none, some, List, [], ◌∷◌, ◌++◌, ◌==◌, ltb, if◌then◌else◌, ℤ, pos, negsuc, sub_ℕ,
}
pub use ece391_sp.Prelude.{◌>>=◌}

-- `strlen`
unfoldable pub strlen : List ℕ → Option ℕ
strlen [] = none
strlen (c ∷ s) = if c == 0 then some 0 else Option.map suc (strlen s)

-- The difference of two bytes read as `int8_t`.
unfoldable pub sub_int8 : ℕ → ℕ → ℤ
sub_int8 a b =
    if ltb a 128
    then if ltb b 128 then sub_ℕ a b else pos (a + 256 - b)
    else if ltb b 128
    then negsuc (255 - a + b)
    else sub_ℕ a b

-- `strncmp`: the loop is left at the first byte that differs or ends both strings.
unfoldable pub strncmp : List ℕ → List ℕ → ℕ → Option ℤ
unfolding sub_int8
strncmp s1 s2 zero = some (pos 0)
strncmp [] s2 (suc n) = none
strncmp (a ∷ s1) [] (suc n) = none
strncmp (a ∷ s1) (b ∷ s2) (suc n) =
    if not (a == b) || a == 0 then some (sub_int8 a b) else strncmp s1 s2 n

-- `strcpy`
unfoldable pub strcpy : List ℕ → List ℕ → Option (List ℕ)
strcpy dest [] = none
strcpy [] (c ∷ src) = none
strcpy (d ∷ dest) (c ∷ src) =
    if c == 0 then some (0 ∷ dest) else Option.map (λ rest. c ∷ rest) (strcpy dest src)

-- The second loop of `strncpy`: zeros in the `n` bytes that are left.
unfoldable pub pad : List ℕ → ℕ → Option (List ℕ)
pad dest zero = some dest
pad [] (suc n) = none
pad (d ∷ dest) (suc n) = Option.map (λ rest. 0 ∷ rest) (pad dest n)

-- `strncpy`: the first loop reads `src[i]` before it tests `i < n`.
unfoldable pub strncpy : List ℕ → List ℕ → ℕ → Option (List ℕ)
unfolding pad
strncpy dest [] n = none
strncpy dest (c ∷ src) zero = some dest
strncpy [] (c ∷ src) (suc n) = none
strncpy (d ∷ dest) (c ∷ src) (suc n) =
    let rest = Option.map (λ rest. c ∷ rest) (strncpy dest src n) in
    if c == 0 then pad (d ∷ dest) (suc n) else rest

-- The characters of a string, up to its terminator.
abbrev pub chars : List ℕ → List ℕ
chars [] = []
chars (c ∷ s) = if c == 0 then [] else c ∷ chars s

-- The exchange of two bytes in the loop of `strrev`.
abbrev pub swap : List ℕ → ℕ → ℕ → Option (List ℕ)
swap s beg end = do a ← get_elem? s beg; b ← get_elem? s end; some (set (set s end a) beg b)

-- The loop of `strrev` by the rounds left, with `stop` for `end + 1`, which is 0 for an empty string.
unfoldable pub strrev_loop : ℕ → ℕ → ℕ → List ℕ → Option (List ℕ)
strrev_loop zero beg stop s = none
strrev_loop (suc rounds) beg stop s =
    let exchanged = do s' ← swap s beg (stop - 1); strrev_loop rounds (beg + 1) (stop - 1) s'
    in if ltb (beg + 1) stop then exchanged else some s

-- `strrev`
unfoldable pub strrev : List ℕ → Option (List ℕ)
unfolding strrev_loop
strrev s = do n ← strlen s; strrev_loop (suc n) 0 n s

-- The table of digits in `itoa`, with the zero that ends it.
abbrev pub lookup : List ℕ
lookup = codes "0123456789ABCDEFGHIJKLMNOPQRSTUVWXYZ" ++ (0 ∷ [])

-- The loop of `itoa` and the zero behind it, by the rounds left: 2^32 has at most 32 digits in any base
-- from 2 on, and in base 1 the loop does not end. A division by zero is an exception.
unfoldable pub put_digits : ℕ → ℕ → ℕ → List ℕ → Option (List ℕ)
put_digits zero newval radix newbuf = none
put_digits (suc rounds) newval radix [] = none
put_digits (suc rounds) newval radix (b ∷ newbuf) =
    let digit = do
      c ← get_elem? lookup (newval % radix)
      rest ← put_digits rounds (newval / radix) radix newbuf
      some (c ∷ rest)
    in if newval == 0 then some (0 ∷ newbuf) else if radix == 0 then none else digit

-- The special case for zero.
abbrev pub put_zero : List ℕ → Option (List ℕ)
put_zero (a ∷ b ∷ buf) = some (b'0' ∷ 0 ∷ buf)
put_zero _ = none

abbrev pub itoa_rounds : ℕ
itoa_rounds = 33

-- `itoa`; the radix is made unsigned for the division.
unfoldable pub itoa : ℕ → List ℕ → ℤ → Option (List ℕ)
unfolding put_digits strrev
itoa value buf radix =
    let printed = do reversed ← put_digits itoa_rounds value (to_u32 radix) buf; strrev reversed
    in if value == 0 then put_zero buf else printed

-- No byte is zero.
abbrev pub IsNonzero : List ℕ → Type 0
IsNonzero [] = Unit
IsNonzero (c ∷ cs) = (c ≢ 0) × IsNonzero cs
