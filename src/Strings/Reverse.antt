-- ===== src/Strings/Reverse.antt =====
-- `strrev` of mp3_group_59/student-distrib/lib.c.
use mathlib.Core.List
use mathlib.Core.List.{reverse, append_assoc}
use ece391_sp.Prelude.{
  ℕ, zero, suc, ◌+◌, ◌-◌, ◌<◌, ◌≡◌, refl, sym, ap, ◌∙◌, arith, some, List, [], ◌∷◌, ◌++◌, length,
  get_elem?, set, ltb, ◌==◌, true, false, length-append,
}
use ece391_sp.Strings.{IsNonzero, swap, strrev_loop, strrev, strlen}

get_later :
    (pre m post : List ℕ) (x y : ℕ)
    → get_elem? (pre ++ (x ∷ (m ++ (y ∷ post)))) (length (pre ++ (x ∷ m))) ≡ some y
get_later [] [] post x y = refl
get_later [] (c ∷ m) post x y = get_later [] m post c y
get_later (p ∷ pre) m post x y = get_later pre m post x y

get_first : (pre rest : List ℕ) (x : ℕ) → get_elem? (pre ++ (x ∷ rest)) (length pre) ≡ some x
get_first [] rest x = refl
get_first (p ∷ pre) rest x = get_first pre rest x

set_later :
    (pre m post : List ℕ) (x y v : ℕ)
    → set (pre ++ (x ∷ (m ++ (y ∷ post)))) (length (pre ++ (x ∷ m))) v
      ≡ pre ++ (x ∷ (m ++ (v ∷ post)))
set_later [] [] post x y v = refl
set_later [] (c ∷ m) post x y v = ap (λ r. x ∷ r) (set_later [] m post c y v)
set_later (p ∷ pre) m post x y v = ap (λ r. p ∷ r) (set_later pre m post x y v)

set_first :
    (pre rest : List ℕ) (x v : ℕ) → set (pre ++ (x ∷ rest)) (length pre) v ≡ pre ++ (v ∷ rest)
set_first [] rest x v = refl
set_first (p ∷ pre) rest x v = ap (λ r. p ∷ r) (set_first pre rest x v)

swap_lem :
    (pre m post : List ℕ) (x y : ℕ)
    → swap (pre ++ (x ∷ (m ++ (y ∷ post)))) (length pre) (length (pre ++ (x ∷ m)))
      ≡ some (pre ++ (y ∷ (m ++ (x ∷ post))))
swap_lem pre m post x y = rw (
  get_first pre (m ++ (y ∷ post)) x,
  get_later pre m post x y,
  set_later pre m post x y x,
  set_first pre (m ++ (x ∷ post)) x y,
)

-- A list with two elements or more has a first and a last one.
unsnoc : (x : ℕ) (xs : List ℕ) → (m : List ℕ) × (y : ℕ) × (x ∷ xs ≡ m ++ (y ∷ []))
unsnoc x [] = ([], x, refl)
unsnoc x (c ∷ xs) = let (m, y, e) = unsnoc c xs in (x ∷ m, y, ap (λ r. x ∷ r) e)

reverse_ends :
    (pre m post : List ℕ) (x y : ℕ)
    → (pre ++ (y ∷ [])) ++ (reverse m ++ (x ∷ post))
      ≡ pre ++ (reverse (x ∷ (m ++ (y ∷ []))) ++ post)
reverse_ends pre m post x y =
    append_assoc pre (y ∷ []) (reverse m ++ (x ∷ post))
    ∙ ap (λ r. pre ++ r)
        (ap (λ r. y ∷ r) (sym (append_assoc (reverse m) (x ∷ []) post))
          ∙ ap (λ r. r ++ post)
              (ap (λ r. r ++ (x ∷ [])) (sym (List.reverse-append m (y ∷ [])))
                ∙ sym (List.reverse-cons x (m ++ (y ∷ [])))))

-- One round, for a list with a first and a last element.
strrev_round :
    (rounds : ℕ) (pre mid m post : List ℕ) (x y : ℕ)
    → mid ≡ x ∷ (m ++ (y ∷ []))
    → strrev_loop rounds
        (length (pre ++ (y ∷ [])))
        (length (pre ++ (y ∷ [])) + length m)
        ((pre ++ (y ∷ [])) ++ (m ++ (x ∷ post)))
      ≡ some ((pre ++ (y ∷ [])) ++ (reverse m ++ (x ∷ post)))
    → strrev_loop (suc rounds) (length pre) (length pre + length mid) (pre ++ (mid ++ post))
      ≡ some (pre ++ (reverse mid ++ post))
unfolding strrev_loop
strrev_round rounds pre mid m post x y e rest =
    let n1 = length-append (pre) (y ∷ []) in
    let n2 = length-append m (y ∷ []) in
    let n3 = length-append pre (x ∷ m) in
    let more : ltb (length pre + 1) (length pre + suc (length (m ++ (y ∷ [])))) ≡ true =
      ground (arith, n2) in
    let last : length pre + suc (length (m ++ (y ∷ []))) - 1 ≡ length (pre ++ (x ∷ m)) =
      omega (arith, n2, n3) in
    let last' : length (pre ++ (x ∷ m)) ≡ length (pre ++ (y ∷ [])) + length m =
      omega (arith, n1, n3) in
    let next : length pre + 1 ≡ length (pre ++ (y ∷ [])) = omega (arith, n1) in
    let turned =
      ap (λ i. strrev_loop rounds i (length (pre ++ (x ∷ m))) (pre ++ (y ∷ (m ++ (x ∷ post))))) next
      ∙ ap (λ j. strrev_loop rounds (length (pre ++ (y ∷ []))) j (pre ++ (y ∷ (m ++ (x ∷ post)))))
          last'
      ∙ ap (strrev_loop rounds (length (pre ++ (y ∷ []))) (length (pre ++ (y ∷ [])) + length m))
          (sym (append_assoc pre (y ∷ []) (m ++ (x ∷ post))))
      ∙ rest
      ∙ ap some (reverse_ends pre m post x y) in
    let joined = append_assoc m (y ∷ []) post in
    rw e (rw (joined, more, last, swap_lem pre m post x y) turned)

-- The loop reverses what lies between its two indices.
strrev_loop_lem :
    (rounds : ℕ) (pre mid post : List ℕ)
    → length mid < rounds
    → strrev_loop rounds (length pre) (length pre + length mid) (pre ++ (mid ++ post))
      ≡ some (pre ++ (reverse mid ++ post))
unfolding strrev_loop
strrev_loop_lem zero pre mid post h = absurd (omega (arith, h))
strrev_loop_lem (suc rounds) pre [] post h =
    let done : ltb (length pre + 1) (length pre + 0) ≡ false = ground arith in rw (done) refl
strrev_loop_lem (suc rounds) pre (x ∷ []) post h =
    let done : ltb (length pre + 1) (length pre + 1) ≡ false = ground arith in rw (done) refl
strrev_loop_lem (suc rounds) pre (x ∷ c ∷ r) post h =
    let (m, y, e) = unsnoc c r in
    strrev_round rounds pre (x ∷ c ∷ r) m post x y (ap (λ l. x ∷ l) e) (
      strrev_loop_lem rounds (pre ++ (y ∷ [])) m (x ∷ post)
        (omega (arith, h, ap (length {A = ℕ}) e, length-append m (y ∷ []))))

strlen-zero_ended : (cs rest : List ℕ) → IsNonzero cs → strlen (cs ++ (0 ∷ rest)) ≡ some (length cs)
unfolding strlen
strlen-zero_ended [] rest nz = refl
strlen-zero_ended (c ∷ cs) rest nz =
    let used : (c == 0) ≡ false = ground (arith, nz.0) in
    rw (used, strlen-zero_ended cs rest nz.1) refl

pub IsNonzero-append : (cs ds : List ℕ) → IsNonzero cs → IsNonzero ds → IsNonzero (cs ++ ds)
IsNonzero-append [] ds h k = k
IsNonzero-append (c ∷ cs) ds h k = (h.0, IsNonzero-append cs ds h.1 k)

-- A string of bytes other than zero is turned round in place.
pub strrev_lem :
    (cs rest : List ℕ) → IsNonzero cs → strrev (cs ++ (0 ∷ rest)) ≡ some (reverse cs ++ (0 ∷ rest))
unfolding strrev
strrev_lem cs rest nz =
    let from_0 : length cs ≡ 0 + length cs = omega arith in
    rw (strlen-zero_ended cs rest nz) (
      ap (λ stop. strrev_loop (suc (length cs)) 0 stop (cs ++ (0 ∷ rest))) from_0
      ∙ strrev_loop_lem (suc (length cs)) [] cs (0 ∷ rest) (omega arith))
