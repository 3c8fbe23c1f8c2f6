-- ===== src/Console/Keyboard/Handler.antt =====
-- `keyboard_handler` of mp3_group_59/student-distrib/keyboard.c.
use ece391_sp.Prelude.{
  ℕ, zero, suc, ◌+◌, ◌-◌, ◌%◌, ◌==◌, ltb, if◌then◌else◌, Bool, Option, none, some, get_elem?,
  u32_mod, pos,
}
use ece391_sp.Devices.Pic.{send_eoi}
use ece391_sp.Console.{Console, clear, set_cursor, putc, num_cols}
use ece391_sp.Console.Keyboard.{buffer_write, print_to_screen}
use ece391_sp.Console.Terminal.{Control, back, in_shell, terminal_switch}

abbrev pub space_key : ℕ
space_key = 0x20

-- The backspace case: the cursor goes back, a space is put there, and the cursor goes back again.
unfoldable pub backspace : Console → Console
backspace k =
    let shorter = record k { num_chars_typed = k.num_chars_typed - 1 } in
    let left = set_cursor ((shorter.screen_x + u32_mod - 1) % u32_mod) shorter.screen_y shorter in
    let wiped = putc space_key left in
    set_cursor ((wiped.screen_x + u32_mod - 1) % u32_mod) wiped.screen_y wiped

-- The loop that shows the buffer again, by the rounds left, from index i on.
unfoldable pub show_typed : ℕ → ℕ → Console → Option Console
show_typed zero i k = some k
show_typed (suc rounds) i k = elim (get_elem? k.keyboard_buffer i) [
  | none ↦ none
  | some c ↦ show_typed rounds (i + 1) (putc c k)
]

-- Ctrl-L
unfoldable pub clear_screen : Console → Option Console
unfolding show_typed
clear_screen k =
    let shown = show_typed (k.num_chars_typed + 1) 0 (set_cursor 0 0 (clear k)) in
    elim shown [
      | none ↦ none
      | some s ↦ some (
          if ltb num_cols s.num_chars_typed
          then set_cursor (s.num_chars_typed - num_cols) 1 s
          else set_cursor s.num_chars_typed 0 s)
    ]

-- The enter case.
unfoldable pub enter : Console → Option Console
enter k = elim (buffer_write k.num_chars_typed b'\n' (record k { enter_pressed_flag = 1 })) [
  | none ↦ none
  | some s ↦ some (putc b'\n' (record s { num_chars_typed = s.num_chars_typed + 1 }))
]

-- The tab case, which counts first and then writes.
unfoldable pub tab : Console → Option Console
tab k =
    let counted = record k { num_chars_typed = k.num_chars_typed + 1 } in
    buffer_write counted.num_chars_typed b'\t' counted

-- A case that stays in the handler.
abbrev pub stays : Option Console → Option (Control × Console)
stays none = none
stays (some k) = some (back (pos 0), k)

-- The cases of the terminals' keys.
unfoldable pub switch_key : Bool → ℕ → Console → Option (Control × Console)
switch_key shell_starts id k =
    let switched = terminal_switch shell_starts id k in
    if k.alt_pressed == 0 then some (back (pos 0), k) else some switched

-- The `switch` of the handler.
unfoldable pub key_case : Bool → ℕ → Console → Option (Control × Console)
unfolding backspace clear_screen enter tab switch_key
key_case shell_starts code k =
    if code == 0x0E
    then stays (some (if ltb 0 k.num_chars_typed then backspace k else k))
    else if code == 0x0F
    then stays (tab k)
    else if code == 0x1D
    then stays (some (record k { ctrl_pressed = 1 }))
    else if code == 0x9D
    then stays (some (record k { ctrl_pressed = 0 }))
    else if code == 0x26
    then stays (if k.ctrl_pressed == 1 then clear_screen k else print_to_screen code k)
    else if code == 0x2A
    then stays (some (record k { shift_pressed = 1 }))
    else if code == 0x36
    then stays (some (record k { shift_pressed = 1 }))
    else if code == 0xAA
    then stays (some (record k { shift_pressed = 0 }))
    else if code == 0xB6
    then stays (some (record k { shift_pressed = 0 }))
    else if code == 0x38
    then stays (some (record k { alt_pressed = 1 }))
    else if code == 0xB8
    then stays (some (record k { alt_pressed = 0 }))
    else if code == 0x3B
    then switch_key shell_starts 0 k
    else if code == 0x3C
    then switch_key shell_starts 1 k
    else if code == 0x3D
    then switch_key shell_starts 2 k
    else if code == 0x3A
    then stays (some (record k { capslock_pressed = if k.capslock_pressed == 0 then 1 else 0 }))
    else if code == 0x1C
    then stays (enter k)
    else stays (print_to_screen code k)

-- `keyboard_handler` on the key code that the controller yields. A jump into the shell ends it early.
unfoldable pub keyboard_handler : Bool → ℕ → Console → Option (Control × Console)
unfolding key_case
keyboard_handler shell_starts code k = elim (key_case shell_starts code k) [
  | none ↦ none
  | some (in_shell, s) ↦ some (in_shell, s)
  | some (back r, s) ↦ some (back r, record s { pic = send_eoi 1 s.pic })
]
