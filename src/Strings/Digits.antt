-- ===== src/Strings/Digits.antt =====
-- `itoa` of mp3_group_59/student-distrib/lib.c: what it prints is read back.
use mathlib.Core.List
use mathlib.Core.List.{reverse}
use Prim.{tt}
use native.Mathlib.Nat
use ece391_sp.Prelude.{
  ℕ, zero, suc, ◌+◌, ◌-◌, ◌*◌, ◌/◌, ◌%◌, ◌<◌, ◌≤◌, ◌≡◌, ◌≢◌, refl, sym, ap, ◌∙◌, arith, some, List,
  [], ◌∷◌, ◌++◌, length, length-append, get_elem?, get_or, drop, ltb, ◌==◌, true, false,
  if◌then◌else◌, pos, to_u32, u32_mod, Bool-cases, inl, inr, ==_iff, ltb→lt, checked, checked-true,
}
use ece391_sp.Strings.{
  ◌>>=◌, IsNonzero, chars, lookup, put_digits, put_zero, itoa_rounds, itoa, strrev,
}
use ece391_sp.Strings.Reverse.{strrev_lem, IsNonzero-append}

-- The digit that a character stands for, and the number that a text stands for in a base.
abbrev pub digit_of : ℕ → ℕ
digit_of c = if ltb c 65 then c - 48 else c - 55

abbrev pub read_digits : ℕ → ℕ → List ℕ → ℕ
read_digits radix acc [] = acc
read_digits radix acc (c ∷ cs) = read_digits radix (acc * radix + digit_of c) cs

read_digits-append :
    (radix acc : ℕ) (xs ys : List ℕ)
    → read_digits radix acc (xs ++ ys) ≡ read_digits radix (read_digits radix acc xs) ys
read_digits-append radix acc [] ys = refl
read_digits-append radix acc (x ∷ xs) ys = read_digits-append radix (acc * radix + digit_of x) xs ys

-- The digits in the order in which the loop finds them.
unfoldable low_digits : ℕ → ℕ → ℕ → List ℕ
low_digits zero v radix = []
low_digits (suc rounds) v radix =
    let rest = low_digits rounds (v / radix) radix in
    if v == 0 then [] else get_or lookup (v % radix) 0 ∷ rest

abbrev doubled : ℕ → ℕ
doubled zero = 1
doubled (suc n) = 2 * doubled n

half_bound : (v q p : ℕ) → q * 2 ≤ p → p ≤ v → q ≤ v / 2
half_bound v q p h k = omega (arith, h, k)

div_le_half : (v radix : ℕ) → 2 ≤ radix → v / radix ≤ v / 2
div_le_half v radix h =
    half_bound v (v / radix) (v / radix * radix) (Nat.mul-le-mul_left (v / radix) h)
      (Nat.div-mul-le_self v radix)

div_fits : (v radix n : ℕ) → 2 ≤ radix → v < doubled (suc n) → v / radix < doubled n
div_fits v radix n h lt = omega (arith, div_le_half v radix h, lt)

digit_test : checked (λ d. digit_of (get_or lookup d 0) == d) 36 ≡ true
unfolding checked
digit_test = refl

nonzero_test : checked (λ d. ltb 0 (get_or lookup d 0)) 36 ≡ true
unfolding checked
nonzero_test = refl

digit_lem : (d : ℕ) → d < 36 → digit_of (get_or lookup d 0) ≡ d
digit_lem d h = (==_iff (digit_of (get_or lookup d 0)) d).0 (checked-true _ 36 d h digit_test)

digit_nonzero : (d : ℕ) → d < 36 → get_or lookup d 0 ≢ 0
digit_nonzero d h z =
    let p = ltb→lt 0 (get_or lookup d 0) (checked-true _ 36 d h nonzero_test) in omega (arith, p, z)

lookup_at : (xs : List ℕ) (i : ℕ) → i < length xs → get_elem? xs i ≡ some (get_or xs i 0)
lookup_at [] i h = absurd (omega (arith, h))
lookup_at (x ∷ xs) zero h = refl
lookup_at (x ∷ xs) (suc i) h = lookup_at xs i (omega (arith, h))

mod_small : (v radix : ℕ) → 2 ≤ radix → radix ≤ 36 → v % radix < 36
mod_small v radix h k = let r = Nat.mod-lt v {m = radix} (omega (arith, h)) in omega (arith, r, k)

low_digits-IsNonzero :
    (rounds v radix : ℕ) → 2 ≤ radix → radix ≤ 36 → IsNonzero (low_digits rounds v radix)
unfolding low_digits
low_digits-IsNonzero zero v radix h k = tt
low_digits-IsNonzero (suc rounds) v radix h k = elim (Bool-cases (v == 0)) [
  | inl e ↦ rw e tt
  | inr e ↦ rw e (
    digit_nonzero (v % radix) (mod_small v radix h k),
    low_digits-IsNonzero rounds (v / radix) radix h k,
  )
]

length-low_digits :
    (n v radix : ℕ) → 2 ≤ radix → v < doubled n → length (low_digits (suc n) v radix) ≤ n
unfolding low_digits
length-low_digits zero v radix h lt =
    let e : (v == 0) ≡ true = ground (arith, lt) in rw e (omega arith)
length-low_digits (suc n) v radix h lt = elim (Bool-cases (v == 0)) [
  | inl e ↦ rw e (omega arith)
  | inr e ↦ rw e (omega (arith, length-low_digits n (v / radix) radix h (div_fits v radix n h lt)))
]

low_digits_some :
    (rounds v radix : ℕ) → (v == 0) ≡ false → 0 < length (low_digits (suc rounds) v radix)
unfolding low_digits
low_digits_some rounds v radix e = rw e (omega arith)

length-reverse : (xs : List ℕ) → length (reverse xs) ≡ length xs
length-reverse [] = refl
length-reverse (x ∷ xs) =
    ap (length {A = ℕ}) (List.reverse-cons x xs)
    ∙ omega (arith, length-append (reverse xs) (x ∷ []), length-reverse xs)

-- With room for all rounds, the loop stores the digits and a zero behind them.
put_digits_lem :
    (n v radix : ℕ) (buf : List ℕ)
    → 2 ≤ radix
    → radix ≤ 36
    → v < doubled n
    → n < length buf
    → put_digits (suc n) v radix buf
      ≡ some
          (low_digits (suc n) v radix ++ (0 ∷ drop (suc (length (low_digits (suc n) v radix))) buf))
unfolding put_digits low_digits
put_digits_lem n v radix [] h k lt room = absurd (omega (arith, room))
put_digits_lem zero v radix (b ∷ buf) h k lt room =
    let e : (v == 0) ≡ true = ground (arith, lt) in rw e refl
put_digits_lem (suc n) v radix (b ∷ buf) h k lt room = elim (Bool-cases (v == 0)) [
  | inl e ↦ rw e refl
  | inr e ↦
      let base : (radix == 0) ≡ false = ground (arith, h) in
      let digit = lookup_at lookup (v % radix) (omega (arith, mod_small v radix h k)) in
      let rest =
        put_digits_lem n (v / radix) radix buf h k (div_fits v radix n h lt)
          (omega (arith, room)) in
      rw (e, base, digit, rest) refl
]

read_low_digits :
    (n v radix : ℕ)
    → 2 ≤ radix
    → radix ≤ 36
    → v < doubled n
    → read_digits radix 0 (reverse (low_digits (suc n) v radix)) ≡ v
unfolding low_digits
read_low_digits zero v radix h k lt =
    let e : (v == 0) ≡ true = ground (arith, lt) in rw e (omega (arith, lt))
read_low_digits (suc n) v radix h k lt = elim (Bool-cases (v == 0)) [
  | inl e ↦ rw e (sym ((==_iff v 0).0 e))
  | inr e ↦
      let more = low_digits (suc n) (v / radix) radix in
      let c = get_or lookup (v % radix) 0 in
      rw e (
        ap (read_digits radix 0) (List.reverse-cons c more)
        ∙ read_digits-append radix 0 (reverse more) (c ∷ [])
        ∙ ap (λ a. a * radix + digit_of c)
            (read_low_digits n (v / radix) radix h k (div_fits v radix n h lt))
        ∙ ap (λ d. v / radix * radix + d) (digit_lem (v % radix) (mod_small v radix h k))
        ∙ (let q = Nat.div-add-mod v radix in
            let r = Nat.mul_comm (v / radix) radix in omega (arith, q, r)))
]

IsNonzero-reverse : (cs : List ℕ) → IsNonzero cs → IsNonzero (reverse cs)
IsNonzero-reverse [] h = tt
IsNonzero-reverse (c ∷ cs) h =
    rw (List.reverse-cons c cs)
      (IsNonzero-append (reverse cs) (c ∷ []) (IsNonzero-reverse cs h.1) (h.0, tt))

chars-ended : (cs rest : List ℕ) → IsNonzero cs → chars (cs ++ (0 ∷ rest)) ≡ cs
chars-ended [] rest h = refl
chars-ended (c ∷ cs) rest h =
    let used : (c == 0) ≡ false = ground (arith, h.0) in rw (used, chars-ended cs rest h.1) refl

itoa-zero :
    (value radix : ℕ) (buf : List ℕ)
    → 2 ≤ length buf
    → (value == 0) ≡ true
    → (out : List ℕ) × (put_zero buf ≡ some out)
      × (0 < length (chars out))
      × (length (chars out) ≤ 32)
      × (length (chars out) < length out)
      × (read_digits radix 0 (chars out) ≡ value)
itoa-zero value radix [] h e = absurd (omega (arith, h))
itoa-zero value radix (a ∷ []) h e = absurd (omega (arith, h))
itoa-zero value radix (a ∷ b ∷ buf) h e = (
  b'0' ∷ 0 ∷ buf,
  refl,
  omega arith,
  omega arith,
  omega arith,
  omega (arith, (==_iff value 0).0 e, Nat.zero-mul radix),
)

-- In every base from 2 to 36 and with a buffer of at least 33 bytes, `itoa` ends for every `uint32_t` and
-- leaves a string with its terminator in the buffer that is not empty, of at most 32 characters, and
-- stands for that number.
pub read_digits-itoa :
    (value radix : ℕ) (buf : List ℕ)
    → value < u32_mod
    → 2 ≤ radix
    → radix ≤ 36
    → 33 ≤ length buf
    → (out : List ℕ) × (itoa value buf (pos radix) ≡ some out)
      × (0 < length (chars out))
      × (length (chars out) ≤ 32)
      × (length (chars out) < length out)
      × (read_digits radix 0 (chars out) ≡ value)
unfolding itoa
read_digits-itoa value radix buf small h k room = elim (Bool-cases (value == 0)) [
  | inl e ↦ rw e (itoa-zero value radix buf (omega (arith, room)) e)
  | inr e ↦
      let low = low_digits itoa_rounds value radix in
      let rest = drop (suc (length low)) buf in
      let nonzero = low_digits-IsNonzero itoa_rounds value radix h k in
      let same : to_u32 (pos radix) ≡ radix = omega (arith, k) in
      let text = chars-ended (reverse low) rest (IsNonzero-reverse low nonzero) in
      let size = ap (length {A = ℕ}) text ∙ length-reverse low in
      (
        reverse low ++ (0 ∷ rest),
        rw e (
            ap (λ r. put_digits itoa_rounds value r buf >>= strrev) same
            ∙ ap (λ o. o >>= strrev)
                (put_digits_lem 32 value radix buf h k small (omega (arith, room)))
            ∙ strrev_lem low rest nonzero),
        omega (arith, size, low_digits_some 32 value radix e),
        omega (arith, size, length-low_digits 32 value radix h small),
        omega (arith, ap (length {A = ℕ}) text, length-append (reverse low) (0 ∷ rest)),
        ap (read_digits radix 0) text ∙ read_low_digits 32 value radix h k small,
      )
]
