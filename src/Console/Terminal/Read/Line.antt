-- ===== src/Console/Terminal/Read/Line.antt =====
-- What a read of mp3_group_59/student-distrib/terminal_driver.c gives of the line that was typed.
use ece391_sp.Prelude.{
  ℕ, zero, suc, ◌+◌, ◌<◌, ◌≤◌, ◌≡◌, ◌≢◌, refl, arith, true, false, ltb, ◌==◌, List, [], ◌∷◌, some,
  length, set, get_elem?, get_or, get_elem?-set_self, get_elem?-set_ne, length-set, ◌∙◌, sym, ◌⊎◌,
  inl, inr, pos,
}
use ece391_sp.Console.{Console}
use ece391_sp.Console.Keyboard.{clear_keyboard_buff, num_chars_kb}
use ece391_sp.Console.Terminal.Read.{
  store, copy_long, copy_short, take_line, terminal_read, wait_enter,
}

get_elem?-get_or : (xs : List ℕ) (i : ℕ) → i < length xs → get_elem? xs i ≡ some (get_or xs i 0)
get_elem?-get_or [] i h = absurd (omega (arith, h))
get_elem?-get_or (x ∷ xs) zero h = refl
get_elem?-get_or (x ∷ xs) (suc i) h = get_elem?-get_or xs i (omega (arith, h))

-- A buffer that has the characters of another from i to m in place of its own.
pub record IsCopied (keys buf out : List ℕ) (i m : ℕ) : Type 0 where
  pub same_length : length out ≡ length buf
  pub inside : (j : ℕ) → i ≤ j → j < m → get_elem? out j ≡ some (get_or keys j 0)
  pub outside : (j : ℕ) → (j < i) ⊎ (m < j) → get_elem? out j ≡ get_elem? buf j

IsCopied-next :
    (keys buf out : List ℕ) (i m : ℕ)
    → i < m
    → i < length buf
    → IsCopied keys (set buf i (get_or keys i 0)) out (i + 1) m
    → IsCopied keys buf out i m
IsCopied-next keys buf out i m lt room c = record {
  same_length = c.same_length ∙ length-set buf i (get_or keys i 0);
  inside = λ j ge le. before j le (at_or_after i j ge);
  outside = λ j o. after j o;
}
  where
    at_or_after : (i j : ℕ) → i ≤ j → (i ≡ j) ⊎ (i + 1 ≤ j)
    at_or_after i j h = omega (arith, h)

    before : (j : ℕ) → j < m → (i ≡ j) ⊎ (i + 1 ≤ j) → get_elem? out j ≡ some (get_or keys j 0)
    before j le (inl e) =
        rw (sym e)
          (c.outside i (inl (omega arith)) ∙ get_elem?-set_self buf i (get_or keys i 0) room)
    before j le (inr ge) = c.inside j ge le

    after : (j : ℕ) → (j < i) ⊎ (m < j) → get_elem? out j ≡ get_elem? buf j
    after j (inl h) =
        c.outside j (inl (omega (arith, h)))
        ∙ get_elem?-set_ne buf (get_or keys i 0) (λ e. omega (arith, e, h))
    after j (inr h) =
        c.outside j (inr h) ∙ get_elem?-set_ne buf (get_or keys i 0) (λ e. omega (arith, e, h, lt))

store_in : (buf : List ℕ) (i c : ℕ) → i < length buf → store buf i c ≡ some (set buf i c)
store_in buf i c h = ground (arith, h)

copy_long_lem :
    (keys : List ℕ) (rounds i m : ℕ) (buf : List ℕ)
    → i + rounds ≡ m
    → m ≤ length keys
    → m < length buf
    → (out : List ℕ) × (copy_long keys rounds i buf ≡ some (m, out))
      × IsCopied keys buf out i m
      × (get_elem? out m ≡ some 0)
unfolding copy_long
copy_long_lem keys zero i m buf e hk hb =
    let same : i ≡ m = omega (arith, e) in
    (
      set buf m 0,
      rw (same, store_in buf m 0 hb),
      record {
        same_length = length-set buf m 0;
        inside = λ j ge le. absurd (omega (arith, ge, le, same));
        outside = λ j o. get_elem?-set_ne buf 0 (λ at. omega (arith, at, o, same));
      },
      get_elem?-set_self buf m 0 hb,
    )
copy_long_lem keys (suc rounds) i m buf e hk hb =
    let c = get_or keys i 0 in
    let room : i < length buf = omega (arith, e, hb) in
    let (out, run, copied, end) =
      copy_long_lem keys rounds (i + 1) m (set buf i c) (omega (arith, e)) hk
        (rw (length-set buf i c) hb) in
    (
      out,
      rw (get_elem?-get_or keys i (omega (arith, e, hk)), store_in buf i c room) run,
      IsCopied-next keys buf out i m (omega (arith, e)) room copied,
      end,
    )

-- Below 128 bytes nothing is counted unless a zero stops the copy.
copy_short_lem :
    (keys : List ℕ) (rounds i m : ℕ) (buf : List ℕ)
    → i + rounds ≡ m
    → m ≤ length keys
    → m ≤ length buf
    → ((j : ℕ) → j < m → get_or keys j 0 ≢ 0)
    → (out : List ℕ) × (copy_short keys rounds i buf ≡ some (0, out))
      × IsCopied keys buf out i m
      × (get_elem? out m ≡ get_elem? buf m)
unfolding copy_short
copy_short_lem keys zero i m buf e hk hb nz =
    let same : i ≡ m = omega (arith, e) in
    (
      buf,
      refl,
      record {
        same_length = refl;
        inside = λ j ge le. absurd (omega (arith, ge, le, same));
        outside = λ j o. refl;
      },
      refl,
    )
copy_short_lem keys (suc rounds) i m buf e hk hb nz =
    let c = get_or keys i 0 in
    let room : i < length buf = omega (arith, e, hb) in
    let (out, run, copied, end) =
      copy_short_lem keys rounds (i + 1) m (set buf i c) (omega (arith, e)) hk
        (rw (length-set buf i c) hb) nz in
    let goes_on : (c == 0) ≡ false = ground (arith, nz i (omega (arith, e))) in
    (
      out,
      rw (get_elem?-get_or keys i (omega (arith, e, hk)), store_in buf i c room, goes_on) run,
      IsCopied-next keys buf out i m (omega (arith, e)) room copied,
      end ∙ get_elem?-set_ne buf c (λ at. omega (arith, at, e)),
    )

wait_enter-entered :
    (codes : List ℕ) (k : Console) → k.enter_pressed_flag ≡ 1 → wait_enter codes k ≡ some k
unfolding wait_enter
wait_enter-entered [] k h = rw h refl
wait_enter-entered (c ∷ codes) k h = rw h refl

-- The console after a read.
abbrev pub line_taken : Console → Console
line_taken k = clear_keyboard_buff (record k { enter_pressed_flag = 0 })

take_line_long :
    (buf out : List ℕ) (n m : ℕ) (k : Console)
    → num_chars_kb ≤ n
    → copy_long k.keyboard_buffer k.num_chars_typed 0 buf ≡ some (m, out)
    → take_line buf (pos n) k ≡ some (pos m, out, line_taken k)
unfolding take_line
take_line_long buf out n m k big run =
    let test : ltb n num_chars_kb ≡ false = ground arith in rw (test, run)

take_line_short :
    (buf out : List ℕ) (n m : ℕ) (k : Console)
    → n < num_chars_kb
    → copy_short k.keyboard_buffer k.num_chars_typed 0 buf ≡ some (m, out)
    → take_line buf (pos n) k ≡ some (pos m, out, line_taken k)
unfolding take_line
take_line_short buf out n m k small run =
    let test : ltb n num_chars_kb ≡ true = ground arith in rw (test, run)

terminal_read_line :
    (codes buf out : List ℕ) (n m : ℕ) (k : Console)
    → k.enter_pressed_flag ≡ 1
    → n ≢ 0
    → take_line buf (pos n) k ≡ some (pos m, out, line_taken k)
    → terminal_read codes (some buf) (pos n) k ≡ some (pos m, some out, line_taken k)
unfolding terminal_read
terminal_read_line codes buf out n m k flag nz run =
    let test : (n == 0) ≡ false = ground (arith, nz) in
    rw (test, wait_enter-entered codes k flag, run)

-- With the line ended by enter, a count of at least 128 bytes, and a buffer with room for the characters
-- typed and one more, `terminal_read` returns the number of characters and copies exactly these to the
-- start of the buffer, with a zero behind them; the line is empty afterwards and the enter key forgotten.
pub terminal_read_lem :
    (codes buf : List ℕ) (n : ℕ) (k : Console)
    → k.enter_pressed_flag ≡ 1
    → num_chars_kb ≤ n
    → k.num_chars_typed ≤ length k.keyboard_buffer
    → k.num_chars_typed < length buf
    → (out : List ℕ) × (terminal_read codes (some buf) (pos n) k
        ≡ some (pos k.num_chars_typed, some out, line_taken k))
      × IsCopied k.keyboard_buffer buf out 0 k.num_chars_typed
      × (get_elem? out k.num_chars_typed ≡ some 0)
terminal_read_lem codes buf n k flag big typed room =
    let (out, run, copied, end) =
      copy_long_lem k.keyboard_buffer k.num_chars_typed 0 k.num_chars_typed buf (omega arith) typed
        room in
    (
      out,
      terminal_read_line codes buf out n k.num_chars_typed k flag (λ e. omega (arith, e, big))
          (take_line_long buf out n k.num_chars_typed k big run),
      copied,
      end,
    )

-- With the line ended by enter, no zero among the characters typed, and a buffer that has room for them, a
-- read of 1 to 127 bytes copies all characters typed, also beyond the count, writes no zero behind them,
-- and returns 0.
pub terminal_read_short :
    (codes buf : List ℕ) (n : ℕ) (k : Console)
    → k.enter_pressed_flag ≡ 1
    → 0 < n
    → n < num_chars_kb
    → k.num_chars_typed ≤ length k.keyboard_buffer
    → k.num_chars_typed ≤ length buf
    → ((j : ℕ) → j < k.num_chars_typed → get_or k.keyboard_buffer j 0 ≢ 0)
    → (out : List ℕ) × (terminal_read codes (some buf) (pos n) k
        ≡ some (pos 0, some out, line_taken k))
      × IsCopied k.keyboard_buffer buf out 0 k.num_chars_typed
      × (get_elem? out k.num_chars_typed ≡ get_elem? buf k.num_chars_typed)
terminal_read_short codes buf n k flag some_bytes small typed room nz =
    let (out, run, copied, end) =
      copy_short_lem k.keyboard_buffer k.num_chars_typed 0 k.num_chars_typed buf (omega arith) typed
        room nz in
    (
      out,
      terminal_read_line codes buf out n 0 k flag (λ e. omega (arith, e, some_bytes))
          (take_line_short buf out n 0 k small run),
      copied,
      end,
    )
