-- ===== src/Console/Keyboard/Chars.antt =====
-- Which characters mp3_group_59/student-distrib/keyboard.c takes from a key, and where it stores them.
use ece391_sp.Prelude.{
  ℕ, ◌+◌, ◌-◌, ◌<◌, ◌≤◌, ◌≡◌, refl, arith, ◌==◌, ==_iff, leb, if◌then◌else◌, ◌&&◌, Bool, true, none,
  some, length, set, get_or, checked, checked-true,
}
use ece391_sp.Console.{Console, putc}
use ece391_sp.Console.Keyboard.{
  ascii_lookup_table, ascii_caps_lookup_table, choose_char, print_to_screen, num_kb_codes,
  num_chars_kb,
}

-- A lower-case letter of ASCII.
abbrev pub is_lower : ℕ → Bool
is_lower c = leb b'a' c && leb c b'z'

-- The character of a key by the keyboard's rule: shift and caps lock together give lower-case letters, one
-- alone upper-case ones, and shift alone decides for the keys that are not letters.
abbrev pub key_rule : ℕ → ℕ → ℕ → ℕ
key_rule shift capslock code =
    let plain = get_or ascii_lookup_table code 0 in
    if is_lower plain
    then (if shift == capslock then plain else plain - 32)
    else if shift == 1
    then get_or ascii_caps_lookup_table code 0
    else plain

char_table :
    checked
      (λ shift.
        checked
          (λ capslock.
            checked (λ code. choose_char shift capslock code == key_rule shift capslock code) 59)
          2)
      2
    ≡ true
unfolding checked choose_char
char_table = refl

-- For every key code up to 0x3A, and both flags 0 or 1, the character that is chosen is that of the rule.
pub choose_char_lem :
    (shift capslock code : ℕ)
    → shift < 2
    → capslock < 2
    → code ≤ num_kb_codes
    → choose_char shift capslock code ≡ key_rule shift capslock code
choose_char_lem shift capslock code hs hc h =
    let shifts =
      checked-true (λ s. checked (λ l. checked (λ k. choose_char s l k == key_rule s l k) 59) 2) 2
        shift hs char_table in
    let locks =
      checked-true (λ l. checked (λ k. choose_char shift l k == key_rule shift l k) 59) 2 capslock
        hc shifts in
    (==_iff _ _).0 (
      checked-true (λ k. choose_char shift capslock k == key_rule shift capslock k) 59 code
        (omega arith) locks)

-- With a line buffer of 128 bytes, a key up to 0x3A is stored behind the characters typed so far, counted
-- and shown while fewer than 128 are typed; with 128 or more the write is outside the buffer. A greater
-- code does nothing.
pub print_to_screen_lem :
    (code : ℕ) (k : Console)
    → length k.keyboard_buffer ≡ num_chars_kb
    → (code ≤ num_kb_codes
        → k.num_chars_typed < num_chars_kb
        → print_to_screen code k ≡ (
            let c = choose_char k.shift_pressed k.capslock_pressed code in
            some (
              putc c (record k {
                keyboard_buffer = set k.keyboard_buffer k.num_chars_typed c;
                num_chars_typed = k.num_chars_typed + 1;
              }))))
      × (code ≤ num_kb_codes → num_chars_kb ≤ k.num_chars_typed → print_to_screen code k ≡ none)
      × (num_kb_codes < code → print_to_screen code k ≡ some k)
unfolding print_to_screen
print_to_screen_lem code k full =
    ((λ h lt. rw full (ground (arith, lt, h))), (λ h le. rw full (ground arith)), λ h. ground arith)
