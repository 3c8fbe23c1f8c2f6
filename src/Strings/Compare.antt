-- ===== src/Strings/Compare.antt =====
-- What `strlen` and `strncmp` of mp3_group_59/student-distrib/lib.c compute.
use ece391_sp.Prelude.{
  ℕ, zero, suc, ◌≤◌, ◌<◌, ◌≡◌, refl, ◌↔◌, none, some, List, [], ◌∷◌, ◌==◌, if◌then◌else◌, arith,
  length, take, ℤ, pos, Bool-cases, inl, inr, not, ◌||◌,
}
use ece391_sp.Strings.{strlen, strncmp, sub_int8, chars}

-- Every byte of an object is below 256.
abbrev pub AllBytes : List ℕ → Type 0
AllBytes [] = Unit
AllBytes (c ∷ s) = (c < 256) × AllBytes s

-- `strlen` returns the number of characters before the terminator, and reads past the end of the
-- object exactly when no terminator is in it.
pub strlen-chars :
    (s : List ℕ)
    → strlen s ≡ (if length (chars s) == length s then none else some (length (chars s)))
unfolding strlen
strlen-chars [] = refl
strlen-chars (c ∷ s) = elim (Bool-cases (c == 0)) [
  | inl e ↦ ground arith
  | inr e ↦ rw (strlen-chars s) (ground arith)
]

-- Different bytes have a difference that is not 0.
pub sub_int8_zero : (a b : ℕ) → a < 256 → b < 256 → sub_int8 a b ≡ pos 0 → a ≡ b
unfolding sub_int8
sub_int8_zero a b ha hb h = ground arith

pub sub_int8_self : (a : ℕ) → sub_int8 a a ≡ pos 0
unfolding sub_int8
sub_int8_self a = ground arith

-- On objects of at least n bytes `strncmp` reads only those and returns a value, and that is 0
-- exactly when the first n characters of the two strings agree.
pub strncmp_zero_iff :
    (n : ℕ) (s1 s2 : List ℕ)
    → n ≤ length s1
    → n ≤ length s2
    → AllBytes s1
    → AllBytes s2
    → (r : ℤ) × (strncmp s1 s2 n ≡ some r) × ((r ≡ pos 0) ↔ (take n (chars s1) ≡ take n (chars s2)))
unfolding strncmp
strncmp_zero_iff zero s1 s2 h1 h2 b1 b2 = (pos 0, refl, ((λ _. refl), λ _. refl))
strncmp_zero_iff (suc n) [] s2 h1 h2 b1 b2 = absurd (omega arith)
strncmp_zero_iff (suc n) (a ∷ s1) [] h1 h2 b1 b2 = absurd (omega arith)
strncmp_zero_iff (suc n) (a ∷ s1) (b ∷ s2) h1 h2 b1 b2 =
    elim (Bool-cases (not (a == b) || a == 0)) [
      | inl stop ↦ (
        sub_int8 a b,
        ground arith,
        ((λ z. ground (arith, sub_int8_zero a b)), λ e. ground (arith, sub_int8_self a)),
      )
      | inr go ↦
          let (r, ran, same) = strncmp_zero_iff n s1 s2 (omega arith) (omega arith) b1.1 b2.1 in
          (r, rw go ran, ((λ z. ground (arith, same.0 z)), λ e. ground (arith, same.1)))
    ]
