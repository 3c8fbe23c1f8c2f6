-- ===== src/Console/Terminal/Read.antt =====
-- `terminal_read` of mp3_group_59/student-distrib/terminal_driver.c. The key codes that come while it
-- waits are an argument.
pub mod Line
use ece391_sp.Prelude.{
  ℕ, zero, suc, ◌+◌, ◌-◌, ◌==◌, ltb, if◌then◌else◌, Bool, true, false, List, [], ◌∷◌, ◌++◌, Option,
  none, some, length, set, get_elem?, ℤ, pos, negsuc, ltb_ℤ, eqb_ℤ,
}
use ece391_sp.Filesystem.{◌>>=◌}
use ece391_sp.Console.{Console}
use ece391_sp.Console.Keyboard.{clear_keyboard_buff, num_chars_kb}
use ece391_sp.Console.Keyboard.Handler.{keyboard_handler}
use ece391_sp.Console.Terminal.{Control, back, in_shell}

-- `buf[i] = c` for a buffer of some bytes.
abbrev pub store : List ℕ → ℕ → ℕ → Option (List ℕ)
store buf i c = if ltb i (length buf) then some (set buf i c) else none

abbrev pub unless_shell : Control × Console → Option Console
unless_shell (in_shell, k) = none
unless_shell (back r, k) = some k

-- The wait for the enter key. A key that turns to a new terminal's shell leaves the read waiting.
unfoldable pub wait_enter : List ℕ → Console → Option Console
wait_enter [] k = if k.enter_pressed_flag == 1 then some k else none
wait_enter (code ∷ codes) k =
    let later = do
      handled ← keyboard_handler true code k
      s ← unless_shell handled
      wait_enter codes s
    in if k.enter_pressed_flag == 1 then some k else later

-- The loop for counts below NUM_CHARS_KB, by the rounds left. Its index never is `num_chars_typed`.
unfoldable pub copy_short : List ℕ → ℕ → ℕ → List ℕ → Option (ℕ × List ℕ)
copy_short keys zero i buf = some (0, buf)
copy_short keys (suc rounds) i buf = do
  c ← get_elem? keys i
  stored ← store buf i c
  if c == 0 then some (i + 1, stored) else copy_short keys rounds (i + 1) stored

-- The loop for greater counts, by the rounds left.
unfoldable pub copy_long : List ℕ → ℕ → ℕ → List ℕ → Option (ℕ × List ℕ)
copy_long keys zero i buf = do stored ← store buf i 0; some (i, stored)
copy_long keys (suc rounds) i buf = do
  c ← get_elem? keys i
  stored ← store buf i c
  copy_long keys rounds (i + 1) stored

-- What follows the wait: the copy and the reset of the line.
unfoldable pub take_line : List ℕ → ℤ → Console → Option (ℤ × List ℕ × Console)
unfolding copy_short copy_long
take_line buf nbytes k =
    let short = copy_short k.keyboard_buffer k.num_chars_typed 0 buf in
    let long = copy_long k.keyboard_buffer k.num_chars_typed 0 buf in
    let emptied = clear_keyboard_buff (record k { enter_pressed_flag = 0 }) in
    do
      (num_bytes_copied, filled) ← if ltb_ℤ nbytes num_chars_kb then short else long
      some (pos num_bytes_copied, filled, emptied)

-- `terminal_read`, with what the buffer holds afterwards; `none` is a null pointer.
unfoldable pub terminal_read :
    List ℕ → Option (List ℕ) → ℤ → Console → Option (ℤ × Option (List ℕ) × Console)
unfolding wait_enter take_line
terminal_read codes none nbytes k = some (nbytes, none, k)
terminal_read codes (some buf) nbytes k =
    let line = do
      entered ← wait_enter codes k
      (ret, filled, s) ← take_line buf nbytes entered
      some (ret, some filled, s)
    in if eqb_ℤ nbytes (pos 0) then some (nbytes, some buf, k) else line
