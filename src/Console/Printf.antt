-- ===== src/Console/Printf.antt =====
-- `puts` and `printf` of mp3_group_59/student-distrib/lib.c. What a conversion's buffer holds before it is
-- written is an argument. A pointer is printed by %s only; printed as a number it is not modelled.
use ece391_sp.Prelude.{
  ℕ, zero, suc, ◌+◌, ◌-◌, ◌%◌, ◌<◌, ◌≤◌, ◌≡◌, ◌≢◌, refl, ap, ◌∙◌, arith, ◌==◌, ltb, if◌then◌else◌,
  Bool, true, false, ◌||◌, Option, none, some, List, [], ◌∷◌, ◌++◌, length, length-take, take, drop,
  set, pos, u32_mod, ◌>>=◌, Bool-cases, inl, inr,
}
use ece391_sp.Strings.{strlen, itoa, chars}
use ece391_sp.Strings.Digits.{read_digits, read_digits-itoa}
use ece391_sp.Console.{Console, putc}
use ece391_sp.Console.Terminal.Write.{put_all}

-- `puts`
unfoldable pub puts : List ℕ → Console → Option (ℕ × Console)
puts [] k = none
puts (c ∷ s) k =
    let rest = do (index, k') ← puts s (putc c k); some (index + 1, k')
    in if c == 0 then some (0, k) else rest

-- What stands on the stack behind the format: a word, or a pointer to a string.
pub data Argument : Type 0 where
  word : ℕ → Argument
  text : List ℕ → Argument

abbrev pub show : List ℕ → Console → Option Console
show s k = do (index, k') ← puts s k; some k'

-- The zeros before a short number in %#x, from i on by the rounds left.
abbrev pub fill_zeros : ℕ → ℕ → List ℕ → List ℕ
fill_zeros zero i conv_buf = conv_buf
fill_zeros (suc rounds) i conv_buf = fill_zeros rounds (i + 1) (set conv_buf i b'0')

abbrev pub show_hex : List ℕ → ℕ → Console → Option Console
show_hex junk value k = do
  digits ← itoa value (drop 8 junk) (pos 16)
  starting_index ← strlen digits
  show
      (drop starting_index (fill_zeros (8 - starting_index) starting_index (take 8 junk ++ digits)))
      k

abbrev pub show_unsigned : List ℕ → ℕ → ℕ → Console → Option Console
show_unsigned junk radix value k = do digits ← itoa value junk (pos radix); show digits k

abbrev pub show_signed : List ℕ → ℕ → Console → Option Console
show_signed junk value k =
    if ltb value (2147483648)
    then show_unsigned junk 10 value k
    else itoa (u32_mod - value) (drop 1 junk) (pos 10) >>= (λ digits. show (b'-' ∷ digits) k)

-- The conversions of one argument.
unfoldable pub convert : Bool → ℕ → List ℕ → Argument → Console → Option Console
convert alternate c junk (text s) k = if c == b's' then show s k else none
convert alternate c junk (word value) k =
    if c == b'x'
    then if alternate then show_hex junk value k else show_unsigned junk 16 value k
    else if c == b'u'
    then show_unsigned (take 36 junk) 10 value k
    else if c == b'd'
    then show_signed (take 36 junk) value k
    else if c == b'c'
    then some (putc (value % 256) k)
    else none

abbrev pub takes_argument : ℕ → Bool
takes_argument c = c == b'x' || c == b'u' || c == b'd' || c == b'c' || c == b's'

abbrev pub next_argument :
    Bool → ℕ → List ℕ → List Argument → Console → Option (List Argument × Console)
next_argument alternate c junk [] k = none
next_argument alternate c junk (a ∷ args) k = do k' ← convert alternate c junk a k; some (args, k')

-- The inner switch.
abbrev pub conversion :
    Bool → ℕ → List ℕ → List Argument → Console → Option (List Argument × Console)
conversion alternate c junk args k =
    if c == b'%'
    then some (args, putc b'%' k)
    else if takes_argument c
    then next_argument alternate c junk args k
    else some (args, k)

abbrev pub counted : Option (ℕ × Console) → Option (ℕ × Console)
counted o = do (n, k) ← o; some (n + 1, k)

-- The loop over the format; `percent` says that a conversion has begun, `alternate` that it has a #.
unfoldable pub printf_from :
    Bool → Bool → List ℕ → List ℕ → List Argument → Console → Option (ℕ × Console)
printf_from percent alternate [] junk args k = none
printf_from false alternate (c ∷ buf) junk args k =
    let begun = counted (printf_from true false buf junk args k) in
    let plain = counted (printf_from false false buf junk args (putc c k)) in
    if c == 0 then some (0, k) else if c == b'%' then begun else plain
printf_from true alternate (c ∷ buf) junk args k =
    let again = counted (printf_from true true buf junk args k) in
    let converted = do
      (rest, k') ← conversion alternate c junk args k
      counted (printf_from false false buf junk rest k')
    in if c == b'#' then again else converted

-- `printf`
unfoldable pub printf : List ℕ → List ℕ → List Argument → Console → Option (ℕ × Console)
unfolding printf_from
printf format junk args k = printf_from false false format junk args k

puts_lem :
    (s : List ℕ) (k : Console)
    → length (chars s) < length s
    → puts s k ≡ some (length (chars s), put_all (chars s) k)
unfolding puts
puts_lem [] k h = absurd (omega (arith, h))
puts_lem (c ∷ s) k h = elim (Bool-cases (c == 0)) [
  | inl e ↦ rw e refl
  | inr e ↦
      let more : length (chars s) < length s = ground (arith, h, e) in
      let next : length (chars s) + 1 ≡ suc (length (chars s)) = omega arith in
      rw (e, puts_lem s (putc c k) more) (ap (λ n. some (n, put_all (chars s) (putc c k))) next)
]

-- Characters that are neither the end nor the start of a conversion.
abbrev pub IsPlain : List ℕ → Type 0
IsPlain [] = Unit
IsPlain (c ∷ cs) = (c ≢ 0) × (c ≢ b'%') × IsPlain cs

plain_lem :
    (cs tail junk : List ℕ) (args : List Argument) (k k' : Console) (n : ℕ)
    → IsPlain cs
    → printf_from false false tail junk args (put_all cs k) ≡ some (n, k')
    → printf_from false false (cs ++ tail) junk args k ≡ some (length cs + n, k')
unfolding printf_from
plain_lem [] tail junk args k k' n p h = h ∙ ap (λ m. some (m, k')) (omega arith)
plain_lem (c ∷ cs) tail junk args k k' n p h =
    let used : (c == 0) ≡ false = ground (arith, p.0) in
    let no_percent : (c == b'%') ≡ false = ground (arith, p.1) in
    let sum : length cs + n + 1 ≡ suc (length cs) + n = omega arith in
    rw (used, no_percent, plain_lem cs tail junk args (putc c k) k' n p.2 h)
      (ap (λ m. some (m, k')) sum)

show_unsigned_lem :
    (junk : List ℕ) (value radix : ℕ) (k : Console)
    → value < u32_mod
    → 2 ≤ radix
    → radix ≤ 36
    → 33 ≤ length junk
    → (ds : List ℕ) × (show_unsigned junk radix value k ≡ some (put_all ds k))
      × (0 < length ds)
      × (read_digits radix 0 ds ≡ value)
show_unsigned_lem junk value radix k small h l room =
    let (out, ran, nonempty, short, ended, back) =
      read_digits-itoa value radix junk small h l room in
    (chars out, rw (ran, puts_lem out k ended) refl, nonempty, back)

-- A message of ordinary characters with a %u at its end, and a word on the stack: `printf` returns the length
-- of its format, and shows the characters and then digits that, read in base 10, are the word, whatever its
-- buffer held.
pub printf_unsigned :
    (cs rest junk : List ℕ) (value : ℕ) (args : List Argument) (k : Console)
    → IsPlain cs
    → value < u32_mod
    → 36 ≤ length junk
    → (ds : List ℕ) × (printf (cs ++ (b'%' ∷ b'u' ∷ 0 ∷ rest)) junk (word value ∷ args) k
        ≡ some (length cs + 2, put_all ds (put_all cs k)))
      × (0 < length ds)
      × (read_digits 10 0 ds ≡ value)
unfolding printf printf_from convert
printf_unsigned cs rest junk value args k p small room =
    let size = length-take 36 junk in
    let (ds, ran, nonempty, back) =
      show_unsigned_lem (take 36 junk) value 10 (put_all cs k) small (omega arith) (omega arith)
        (omega (arith, size, room)) in
    (
      ds,
      plain_lem cs (b'%' ∷ b'u' ∷ 0 ∷ rest) junk (word value ∷ args) k (put_all ds (put_all cs k)) 2
          p (rw ran refl),
      nonempty,
      back,
    )

-- The same for a %s and a string that ends inside its object.
pub printf_text :
    (cs rest junk s : List ℕ) (args : List Argument) (k : Console)
    → IsPlain cs
    → length (chars s) < length s
    → printf (cs ++ (b'%' ∷ b's' ∷ 0 ∷ rest)) junk (text s ∷ args) k
      ≡ some (length cs + 2, put_all (chars s) (put_all cs k))
unfolding printf printf_from convert
printf_text cs rest junk s args k p ended =
    plain_lem cs (b'%' ∷ b's' ∷ 0 ∷ rest) junk (text s ∷ args) k (put_all (chars s) (put_all cs k))
      2 p (rw (puts_lem s (put_all cs k) ended) refl)
