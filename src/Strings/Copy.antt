-- ===== src/Strings/Copy.antt =====
-- What `strncpy` and `strcpy` of mp3_group_59/student-distrib/lib.c leave in the destination.
use ece391_sp.Prelude.{
  ℕ, zero, suc, ◌≤◌, ◌<◌, ◌≡◌, refl, none, some, List, [], ◌∷◌, ◌++◌, ◌==◌, arith, length, take,
  drop, replicate, Bool-cases, inl, inr,
}
use ece391_sp.Strings.{strcpy, strncpy, pad, chars}

-- The second loop writes n zeros and leaves the rest of the destination.
pub pad_lem :
    (n : ℕ) (dest : List ℕ) → n ≤ length dest → pad dest n ≡ some (replicate n 0 ++ drop n dest)
unfolding pad
pad_lem zero dest h = refl
pad_lem (suc n) [] h = absurd (omega arith)
pad_lem (suc n) (d ∷ dest) h = rw (pad_lem n dest (omega arith))

take-replicate : (n m : ℕ) → n ≤ m → take {A = ℕ} n (replicate m 0) ≡ replicate n 0
take-replicate zero m h = refl
take-replicate (suc n) zero h = absurd (omega arith)
take-replicate (suc n) (suc m) h = rw (take-replicate n m (omega arith))

strncpy_padded :
    (n m : ℕ) (dest src : List ℕ)
    → n ≤ m
    → n < length src
    → n ≤ length dest
    → strncpy dest src n ≡ some (take n (chars src ++ replicate m 0) ++ drop n dest)
unfolding strncpy
strncpy_padded n m dest [] l h k = absurd (omega arith)
strncpy_padded zero m dest (c ∷ src) l h k = refl
strncpy_padded (suc n) m [] (c ∷ src) l h k = absurd (omega arith)
strncpy_padded (suc n) m (d ∷ dest) (c ∷ src) l h k = elim (Bool-cases (c == 0)) [
  | inl e ↦ rw e (rw (pad_lem (suc n) (d ∷ dest) k, take-replicate (suc n) m l))
  | inr e ↦ rw e (rw (strncpy_padded n m dest src (omega arith) (omega arith) (omega arith)))
]

-- With more than n bytes in the source object and n or more in the destination, `strncpy` writes
-- the string's first n characters, fills with zeros up to n, and leaves the rest of the destination.
pub strncpy_lem :
    (n : ℕ) (dest src : List ℕ)
    → n < length src
    → n ≤ length dest
    → strncpy dest src n ≡ some (take n (chars src ++ replicate n 0) ++ drop n dest)
strncpy_lem n dest src h k = strncpy_padded n n dest src (omega arith) h k

terminated_padded :
    (n m : ℕ) (dest src : List ℕ)
    → n ≤ m
    → length (chars src) < length src
    → n ≤ length dest
    → strncpy dest src n ≡ some (take n (chars src ++ replicate m 0) ++ drop n dest)
unfolding strncpy
terminated_padded n m dest [] l h k = absurd (omega arith)
terminated_padded zero m dest (c ∷ src) l h k = refl
terminated_padded (suc n) m [] (c ∷ src) l h k = absurd (omega arith)
terminated_padded (suc n) m (d ∷ dest) (c ∷ src) l h k = elim (Bool-cases (c == 0)) [
  | inl e ↦ rw e (rw (pad_lem (suc n) (d ∷ dest) k, take-replicate (suc n) m l))
  | inr e ↦
      rw e (rw (terminated_padded n m dest src (omega arith) (ground (arith, h, e)) (omega arith)))
]

-- The same for any n, when the string ends inside its object.
pub strncpy_terminated :
    (n : ℕ) (dest src : List ℕ)
    → length (chars src) < length src
    → n ≤ length dest
    → strncpy dest src n ≡ some (take n (chars src ++ replicate n 0) ++ drop n dest)
strncpy_terminated n dest src h k = terminated_padded n n dest src (omega arith) h k

-- A source object of n bytes with no terminator is read one byte past its end.
strncpy_overread :
    (n : ℕ) (dest src : List ℕ)
    → length src ≡ n
    → length (chars src) ≡ n
    → strncpy dest src n ≡ none
unfolding strncpy
strncpy_overread n dest [] h k = refl
strncpy_overread zero dest (c ∷ src) h k = absurd (omega arith)
strncpy_overread (suc n) [] (c ∷ src) h k = refl
strncpy_overread (suc n) (d ∷ dest) (c ∷ src) h k = ground (arith, strncpy_overread n dest src)

-- The same for any n that reaches the end of such an object.
pub strncpy_unterminated :
    (n : ℕ) (dest src : List ℕ)
    → length (chars src) ≡ length src
    → length src ≤ n
    → strncpy dest src n ≡ none
unfolding strncpy
strncpy_unterminated n dest [] h k = refl
strncpy_unterminated zero dest (c ∷ src) h k = absurd (omega arith)
strncpy_unterminated (suc n) [] (c ∷ src) h k = refl
strncpy_unterminated (suc n) (d ∷ dest) (c ∷ src) h k =
    ground (arith, strncpy_unterminated n dest src)

-- `strcpy` copies the characters and the terminator of a string that ends inside its object to a
-- destination with room for them, and leaves the rest of the destination.
strcpy_lem :
    (dest src : List ℕ)
    → length (chars src) < length src
    → length (chars src) < length dest
    → strcpy dest src ≡ some (chars src ++ (0 ∷ drop (suc (length (chars src))) dest))
unfolding strcpy
strcpy_lem dest [] h k = absurd (omega arith)
strcpy_lem [] (c ∷ src) h k = absurd (omega arith)
strcpy_lem (d ∷ dest) (c ∷ src) h k = elim (Bool-cases (c == 0)) [
  | inl e ↦ rw e
  | inr e ↦ rw e (rw (strcpy_lem dest src (ground arith) (ground arith)))
]
