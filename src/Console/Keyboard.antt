-- ===== src/Console/Keyboard.antt =====
-- The line buffer and the character tables of mp3_group_59/student-distrib/keyboard.c.
pub mod Handler
pub mod Chars
use ece391_sp.Prelude.{
  ℕ, zero, suc, ◌+◌, ◌-◌, ◌==◌, ltb, leb, if◌then◌else◌, ◌&&◌, ◌||◌, Bool, true, false, List, [],
  ◌∷◌, Option, none, some, length, set, get_elem?, get_or, replicate,
}
use ece391_sp.Devices.Pic.{enable_irq}
use ece391_sp.Console.{Console, putc}

abbrev pub num_chars_kb : ℕ
num_chars_kb = 128

abbrev pub num_kb_codes : ℕ
num_kb_codes = 0x3A

abbrev pub ascii_lookup_table : List ℕ
ascii_lookup_table =
    0x00 ∷ 0x00 ∷ 0x31 ∷ 0x32 ∷ 0x33 ∷ 0x34 ∷ 0x35 ∷ 0x36 ∷ 0x37 ∷ 0x38 ∷ 0x39 ∷ 0x30 ∷ 0x2D ∷ 0x3D
    ∷ 0x08 ∷ 0x09 ∷ 0x71 ∷ 0x77 ∷ 0x65 ∷ 0x72 ∷ 0x74 ∷ 0x79 ∷ 0x75 ∷ 0x69 ∷ 0x6F ∷ 0x70 ∷ 0x5B
    ∷ 0x5D ∷ 0x00 ∷ 0x00 ∷ 0x61 ∷ 0x73 ∷ 0x64 ∷ 0x66 ∷ 0x67 ∷ 0x68 ∷ 0x6A ∷ 0x6B ∷ 0x6C ∷ 0x3B
    ∷ 0x27 ∷ 0x60 ∷ 0x0F ∷ 0x5C ∷ 0x7A ∷ 0x78 ∷ 0x63 ∷ 0x76 ∷ 0x62 ∷ 0x6E ∷ 0x6D ∷ 0x2C ∷ 0x2E
    ∷ 0x2F ∷ 0x0F ∷ 0x00 ∷ 0x00 ∷ 0x20 ∷ 0x00 ∷ []

abbrev pub ascii_caps_lookup_table : List ℕ
ascii_caps_lookup_table =
    0x00 ∷ 0x00 ∷ 0x21 ∷ 0x40 ∷ 0x23 ∷ 0x24 ∷ 0x25 ∷ 0x5E ∷ 0x26 ∷ 0x2A ∷ 0x28 ∷ 0x29 ∷ 0x5F ∷ 0x2B
    ∷ 0x08 ∷ 0x09 ∷ 0x51 ∷ 0x57 ∷ 0x45 ∷ 0x52 ∷ 0x54 ∷ 0x59 ∷ 0x55 ∷ 0x49 ∷ 0x4F ∷ 0x50 ∷ 0x7B
    ∷ 0x7D ∷ 0x00 ∷ 0x00 ∷ 0x41 ∷ 0x53 ∷ 0x44 ∷ 0x46 ∷ 0x47 ∷ 0x48 ∷ 0x4A ∷ 0x4B ∷ 0x4C ∷ 0x3A
    ∷ 0x22 ∷ 0x7E ∷ 0x0F ∷ 0x7C ∷ 0x5A ∷ 0x58 ∷ 0x43 ∷ 0x56 ∷ 0x42 ∷ 0x4E ∷ 0x4D ∷ 0x3C ∷ 0x3E
    ∷ 0x3F ∷ 0x0F ∷ 0x00 ∷ 0x00 ∷ 0x20 ∷ 0x00 ∷ []

-- `keyboard_buffer[i] = c`; outside the array there is no result.
abbrev pub buffer_write : ℕ → ℕ → Console → Option Console
buffer_write i c k =
    if ltb i (length k.keyboard_buffer)
    then some (record k { keyboard_buffer = set k.keyboard_buffer i c })
    else none

-- `clear_keyboard_buff`
unfoldable pub clear_keyboard_buff : Console → Console
clear_keyboard_buff k = record k { keyboard_buffer = replicate num_chars_kb 0; num_chars_typed = 0 }

-- The range test for keys that are not letters.
abbrev pub non_alphabetical : ℕ → Bool
non_alphabetical code =
    (leb 0x02 code && leb code 0x0F)
    || (leb 0x1A code && leb code 0x1D)
    || (leb 0x27 code && leb code 0x2B)
    || (leb 0x33 code && leb code 0x3A)

-- The character that `print_to_screen` chooses for a key code up to 0x3A.
unfoldable pub choose_char : ℕ → ℕ → ℕ → ℕ
choose_char shift capslock code =
    let lower = get_or ascii_lookup_table code 0 in
    let upper = get_or ascii_caps_lookup_table code 0 in
    if shift == 1 && capslock == 0
    then upper
    else if shift == 1 && capslock == 1
    then (if non_alphabetical code then upper else lower)
    else if shift == 0 && capslock == 1
    then (if non_alphabetical code then lower else upper)
    else lower

-- `print_to_screen`
unfoldable pub print_to_screen : ℕ → Console → Option Console
print_to_screen code k =
    let key_char = choose_char k.shift_pressed k.capslock_pressed code in
    let stored = buffer_write k.num_chars_typed key_char k in
    if leb code num_kb_codes
    then elim stored [
      | none ↦ none
      | some s ↦ some (putc key_char (record s { num_chars_typed = s.num_chars_typed + 1 }))
    ]
    else some k

-- `keyboard_initialize`
unfoldable pub keyboard_initialize : Console → Console
unfolding clear_keyboard_buff
keyboard_initialize k =
    let on = record k { pic = enable_irq 1 k.pic; num_chars_typed = 0 } in
    record (clear_keyboard_buff on) { enter_pressed_flag = 0 }
