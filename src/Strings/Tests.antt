-- ===== src/Strings/Tests.antt =====
-- Runs of the string functions of mp3_group_59/student-distrib/lib.c.
use ece391_sp.Prelude.{
  ℕ, ◌≡◌, refl, some, List, [], ◌∷◌, arith, pos, ◌<◌, ◌≤◌, ◌++◌, length, replicate, codes,
}
use ece391_sp.Strings.{strlen, strncmp, chars, itoa, put_digits, strrev, strrev_loop}
use ece391_sp.Strings.Digits.{read_digits, read_digits-itoa}
use ece391_sp.Strings.Compare.{strlen-chars}

-- "ls" with a terminator and a byte behind it, and "lsx"
abbrev ls : List ℕ
ls = b'l' ∷ b's' ∷ 0 ∷ 7 ∷ []

abbrev lsx : List ℕ
lsx = b'l' ∷ b's' ∷ b'x' ∷ 0 ∷ []

strlen-ls : strlen ls ≡ some 2
unfolding strlen
strlen-ls = refl

strncmp_prefix : strncmp ls lsx 2 ≡ some (pos 0)
unfolding strncmp
strncmp_prefix = refl

strlen-chars_example : strlen ls ≡ some 2
strlen-chars_example = strlen-chars ls

-- 2023 in base 16 is "7E7".
read_digits-itoa_example :
    (out : List ℕ) × (itoa 2023 (replicate 33 0) (pos 16) ≡ some out)
    × (0 < length (chars out))
    × (length (chars out) ≤ 32)
    × (length (chars out) < length out)
    × (read_digits 16 0 (chars out) ≡ 2023)
read_digits-itoa_example =
    read_digits-itoa 2023 16 (replicate 33 0) (omega arith) (omega arith) (omega arith)
      (omega arith)

itoa_2023 : itoa 2023 (replicate 8 9) (pos 16) ≡ some (codes "7E7" ++ (0 ∷ replicate 4 9))
unfolding itoa put_digits strrev strrev_loop strlen
itoa_2023 = refl
