-- ===== src/Process/Execute/Command.antt =====
-- How `system_execute` of mp3_group_59/student-distrib/syscall.c takes a command line apart.
use mathlib.Core.List.{append-nil, append_assoc}
use ece391_sp.Prelude.{
  ℕ, zero, suc, ◌+◌, ◌-◌, ◌≤◌, ◌<◌, ◌≡◌, ◌≢◌, refl, ap, sym, ◌∙◌, arith, ◌==◌, ltb, none, some,
  List, [], ◌∷◌, ◌++◌, length, length-append, get_elem?, set, replicate, ℤ, pos, negsuc, true,
  false,
}
use ece391_sp.Process.Execute.{split_command, copy_args, parse_command, space_char, num_chars_kb}

-- A word has no space in it.
abbrev pub IsWord : List ℕ → Type 0
IsWord [] = Unit
IsWord (c ∷ w) = (c ≢ space_char) × IsWord w

set-append : (p q : List ℕ) (z c : ℕ) → set (p ++ (z ∷ q)) (length p) c ≡ (p ++ (c ∷ [])) ++ q
set-append [] q z c = refl
set-append (x ∷ p) q z c = ap (λ l. x ∷ l) (set-append p q z c)

split_step :
    (c : ℕ) (command : List ℕ) (rounds i : ℕ) (fname : List ℕ) (start : ℤ)
    → (c == space_char) ≡ false
    → split_command (c ∷ command) (suc rounds) i fname start
      ≡ split_command command rounds (i + 1) (set fname i c) start
unfolding split_command
split_step c command rounds i fname start h = ground (arith, h)

split_space :
    (command : List ℕ) (rounds i : ℕ) (fname : List ℕ) (start : ℤ)
    → split_command (space_char ∷ command) (suc rounds) i fname start
      ≡ split_command command rounds (i + 1) fname (pos (i + 1))
unfolding split_command
split_space command rounds i fname start = refl

split_end :
    (command : List ℕ) (i : ℕ) (fname : List ℕ) (start : ℤ)
    → split_command command 0 i fname start ≡ some (fname, start)
unfolding split_command
split_end [] i fname start = refl
split_end (c ∷ command) i fname start = refl

-- A word is copied to the name at its own place.
split_command-word :
    (w more p : List ℕ) (r s i : ℕ) (start : ℤ)
    → IsWord w
    → i ≡ length p
    → split_command (w ++ more) (length w + r) i (p ++ replicate (length w + s) 0) start
      ≡ split_command more r (i + length w) ((p ++ w) ++ replicate s 0) start
unfolding split_command
split_command-word [] more p r s i start h e =
    let r0 : 0 + r ≡ r = omega arith in
    let s0 : 0 + s ≡ s = omega arith in
    let i0 : i + 0 ≡ i = omega arith in rw (r0, s0, i0, append-nil p)
split_command-word (c ∷ w) more p r s i start h e =
    let r0 : suc (length w) + r ≡ suc (length w + r) = omega arith in
    let s0 : suc (length w) + s ≡ suc (length w + s) = omega arith in
    let i0 : i + suc (length w) ≡ (i + 1) + length w = omega arith in
    let plain : (c == space_char) ≡ false = ground (arith, h.0) in
    let ih =
      split_command-word w more (p ++ (c ∷ [])) r s (i + 1) start h.1
        (omega (arith, length-append {0} p (c ∷ []))) in
    let tail : List ℕ = replicate (length w + s) 0 in
    let place : set (p ++ (0 ∷ tail)) i c ≡ (p ++ (c ∷ [])) ++ tail =
      ap (λ j. set (p ++ (0 ∷ tail)) j c) e ∙ set-append p tail 0 c in
    rw (r0, s0, i0)
      (split_step c (w ++ more) (length w + r) i (p ++ (0 ∷ tail)) start plain
        ∙ rw place (ih ∙ rw (append_assoc p (c ∷ []) w)))

-- The loop copies the bytes that stand in the command from its index on.
copy_args-word :
    (a command q : List ℕ) (len s i it : ℕ)
    → i ≡ length q
    → it + length a ≤ len
    → ((j : ℕ) → j < length a → get_elem? command (it + j) ≡ get_elem? a j)
    → copy_args command len (length a) i it (q ++ replicate (length a + s) 0)
      ≡ some ((q ++ a) ++ replicate s 0)
unfolding copy_args
copy_args-word [] command q len s i it e fits at =
    let s0 : 0 + s ≡ s = omega arith in rw (s0, append-nil q)
copy_args-word (c ∷ a) command q len s i it e fits at =
    let s0 : suc (length a) + s ≡ suc (length a + s) = omega arith in
    let inside : ltb it len ≡ true = ground arith in
    let here : get_elem? command it ≡ some c =
      ap (get_elem? command) (omega arith) ∙ at 0 (omega arith) in
    let tail : List ℕ = replicate (length a + s) 0 in
    let place : set (q ++ (0 ∷ tail)) i c ≡ (q ++ (c ∷ [])) ++ tail =
      ap (λ j. set (q ++ (0 ∷ tail)) j c) e ∙ set-append q tail 0 c in
    let ih =
      copy_args-word a command (q ++ (c ∷ [])) len s (i + 1) (it + 1)
        (omega (arith, length-append {0} q (c ∷ []))) (omega arith)
        (λ j h. ap (get_elem? command) (omega arith) ∙ at (suc j) (omega arith)) in
    rw (s0, inside, here, place) (ih ∙ rw (append_assoc q (c ∷ []) a))

get_elem?-append_skip : (p q : List ℕ) (j : ℕ) → get_elem? (p ++ q) (length p + j) ≡ get_elem? q j
get_elem?-append_skip [] q j = ap (get_elem? q) (omega arith)
get_elem?-append_skip (x ∷ p) q j =
    let e : suc (length p) + j ≡ suc (length p + j) = omega arith in
    rw e (get_elem?-append_skip p q j)

get_elem?-append_left : (p q : List ℕ) (j : ℕ) → j < length p → get_elem? (p ++ q) j ≡ get_elem? p j
get_elem?-append_left [] q j h = absurd (omega arith)
get_elem?-append_left (x ∷ p) q zero h = refl
get_elem?-append_left (x ∷ p) q (suc j) h = get_elem?-append_left p q j (omega arith)

replicate-split : (m n : ℕ) → replicate {A = ℕ} (m + n) 0 ≡ replicate m 0 ++ replicate n 0
replicate-split zero n = ap (λ k. replicate {A = ℕ} k 0) (omega arith)
replicate-split (suc m) n =
    let e : suc m + n ≡ suc (m + n) = omega arith in rw (e, replicate-split m n)

-- The name's buffer after a word, a space and a word.
split_two_words :
    (junk : ℤ) (w a tail : List ℕ) (s : ℕ)
    → IsWord w
    → IsWord a
    → split_command
        (w ++ (space_char ∷ (a ++ tail)))
        (length w + suc (length a))
        0
        (replicate (length w + suc (length a + s)) 0)
        junk
      ≡ some (((w ++ (0 ∷ [])) ++ a) ++ replicate s 0, pos (length w + 1))
split_two_words junk w a tail s hw ha =
    let i : ℕ = 0 + length w in
    let zeros : List ℕ = replicate (length a + s) 0 in
    let i0 : i + 1 ≡ length w + 1 = omega arith in
    let r0 : length a ≡ length a + 0 = omega arith in
    split_command-word w (space_char ∷ (a ++ tail)) [] (suc (length a)) (suc (length a + s)) 0 junk
      hw refl
    ∙ split_space (a ++ tail) (length a) i (w ++ (0 ∷ zeros)) junk
    ∙ ap (λ f. split_command (a ++ tail) (length a) (i + 1) f (pos (i + 1)))
        (sym (append_assoc w (0 ∷ []) zeros))
    ∙ ap (λ n. split_command (a ++ tail) n (i + 1) ((w ++ (0 ∷ [])) ++ zeros) (pos (i + 1))) r0
    ∙ split_command-word a tail (w ++ (0 ∷ [])) 0 s (i + 1) (pos (i + 1)) ha
        (omega (arith, length-append {0} w (0 ∷ [])))
    ∙ split_end tail (i + 1 + length a) (((w ++ (0 ∷ [])) ++ a) ++ replicate s 0) (pos (i + 1))
    ∙ ap (λ n. some (((w ++ (0 ∷ [])) ++ a) ++ replicate s 0, pos n)) i0

-- A command of two words with one space between, of at most 128 characters: the buffer of the name holds
-- the first word, a zero in place of the space, and the second; that of the arguments holds the second.
-- What the locals held before does not matter.
pub parse_command_lem :
    (junk : ℤ) (w a tail : List ℕ) (s : ℕ)
    → IsWord w
    → IsWord a
    → length w + suc (length a + s) ≡ num_chars_kb
    → parse_command junk (w ++ (space_char ∷ (a ++ tail))) (length w + suc (length a))
      ≡ some (((w ++ (0 ∷ [])) ++ a) ++ replicate s 0, a ++ replicate (num_chars_kb - length a) 0)
unfolding parse_command
parse_command_lem junk w a tail s hw ha full =
    let whole : num_chars_kb ≡ length w + suc (length a + s) = sym full in
    let split =
      ap
        (λ n.
          split_command (w ++ (space_char ∷ (a ++ tail))) (length w + suc (length a)) 0
            (replicate n 0) junk)
        whole
      ∙ split_two_words junk w a tail s hw ha in
    let size : length w + suc (length a) - (length w + 1) ≡ length a = omega arith in
    let room : num_chars_kb ≡ length a + (num_chars_kb - length a) = omega arith in
    let copied =
      ap
        (λ n.
          copy_args (w ++ (space_char ∷ (a ++ tail))) (length w + suc (length a))
            (length w + suc (length a) - (length w + 1)) 0 (length w + 1) (replicate n 0))
        room
      ∙ ap
          (λ n.
            copy_args (w ++ (space_char ∷ (a ++ tail))) (length w + suc (length a)) n 0
              (length w + 1) (replicate (length a + (num_chars_kb - length a)) 0))
          size
      ∙ copy_args-word a (w ++ (space_char ∷ (a ++ tail))) [] (length w + suc (length a))
          (num_chars_kb - length a) 0 (length w + 1) refl (omega arith)
          (λ j h.
            ap (get_elem? (w ++ (space_char ∷ (a ++ tail)))) (omega arith)
            ∙ get_elem?-append_skip w (space_char ∷ (a ++ tail)) (suc j)
            ∙ get_elem?-append_left a tail j h) in
    rw (split, copied)

split_one_word :
    (w tail : List ℕ) (s : ℕ) (start : ℤ)
    → IsWord w
    → length w + s ≡ num_chars_kb
    → split_command (w ++ tail) (length w) 0 (replicate num_chars_kb 0) start
      ≡ some (w ++ replicate s 0, start)
split_one_word w tail s start hw full =
    let r0 : length w ≡ length w + 0 = omega arith in
    ap (λ n. split_command (w ++ tail) (length w) 0 (replicate n 0) start) (sym full)
    ∙ ap (λ n. split_command (w ++ tail) n 0 (replicate (length w + s) 0) start) r0
    ∙ split_command-word w tail [] 0 s 0 start hw refl
    ∙ split_end tail (0 + length w) (w ++ replicate s 0) start

-- A command without a space leaves the start of the arguments uninitialised, and what the local held
-- decides: all of the command is taken for its arguments, or none of it, or the call reads before the
-- command.
pub parse_command-no_space :
    (w tail : List ℕ) (s : ℕ)
    → IsWord w
    → length w + s ≡ num_chars_kb
    → (parse_command (pos 0) (w ++ tail) (length w) ≡ some (w ++ replicate s 0, w ++ replicate s 0))
      × (parse_command (pos (length w)) (w ++ tail) (length w)
          ≡ some (w ++ replicate s 0, replicate num_chars_kb 0))
      × ((n : ℕ) → parse_command (negsuc n) (w ++ tail) (length w) ≡ none)
unfolding parse_command
parse_command-no_space w tail s hw full =
    let once = λ (start : ℤ). split_one_word w tail s start hw full in
    let all : length w - 0 ≡ length w = omega arith in
    let nothing : length w - length w ≡ 0 = omega arith in
    let copied =
      ap (λ n. copy_args (w ++ tail) (length w) (length w) 0 0 (replicate n 0)) (sym full)
      ∙ copy_args-word w (w ++ tail) [] (length w) s 0 0 refl (omega arith)
          (λ j h. ap (get_elem? (w ++ tail)) (omega arith) ∙ get_elem?-append_left w tail j h) in
    (rw (once (pos 0), all, copied), rw (once (pos (length w)), nothing), λ n. rw (once (negsuc n)))
