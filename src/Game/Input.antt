-- ===== src/Game/Input.antt =====
-- mp2_rthakk21/mazegame.c: the directions that the keyboard and the Tux controller ask for, and the time on
-- the controller's displays.
use Prim.Native.Nat.{bit_or}
use ece391_sp.Prelude.{ℕ, ◌*◌, ◌/◌, ◌%◌, List, [], ◌∷◌, Bool, true, ◌&&◌, leb, ◌==◌, if◌then◌else◌}

-- DIR_UP, DIR_RIGHT, DIR_DOWN, DIR_LEFT and DIR_STOP, which is NUM_DIRS
abbrev pub dir_up : ℕ
dir_up = 0

abbrev pub dir_right : ℕ
dir_right = 1

abbrev pub dir_down : ℕ
dir_down = 2

abbrev pub dir_left : ℕ
dir_left = 3

abbrev pub dir_stop : ℕ
dir_stop = 4

-- The keyboard thread: how much of an arrow key's sequence 27, 91, UP to LEFT has come, and the globals
-- that it writes.
pub record Keys : Type 0 where
  pub state : ℕ
  pub next_dir : ℕ
  pub quit_flag : Bool

-- The directions of 65, 66, 67 and 68.
unfoldable pub arrow : ℕ → ℕ → ℕ
arrow key next_dir =
    if key == 65
    then dir_up
    else if key == 66
    then dir_down
    else if key == 67
    then dir_right
    else if key == 68
    then dir_left
    else next_dir

-- One round of the loop, on a key's code. A `char` over 127 is negative, and no arrow either way.
unfoldable pub on_key : ℕ → Keys → Keys
on_key key k =
    if key == 96
    then record k { quit_flag = true }
    else if key == 27
    then record k { state = 1 }
    else if (key == 91) && (k.state == 1)
    then record k { state = 2 }
    else if (leb 65 key && leb key 68) && (k.state == 2)
    then record k { state = 0; next_dir = arrow key k.next_dir }
    else record k { state = 0 }

-- The loop, which `quit_flag` ends; the list holds the keys that it reads until the game is won.
unfoldable pub keyboard_thread : List ℕ → Keys → Keys
keyboard_thread [] k = k
keyboard_thread (key ∷ keys) k =
    let rest = keyboard_thread keys (on_key key k) in if k.quit_flag then k else rest

-- One round of `tux_thread` once a button is pressed: `next_dir` for the button byte.
unfoldable pub tux_direction : ℕ → ℕ → ℕ
tux_direction buttons next_dir =
    if buttons == 0xEF
    then dir_up
    else if buttons == 0xDF
    then dir_down
    else if buttons == 0x7F
    then dir_right
    else if buttons == 0xBF
    then dir_left
    else next_dir

-- The argument of TUX_SET_LED that `tux_clock` computes, from LED_DEFAULT on.
unfoldable pub led_value : ℕ → ℕ
led_value elapsed_time =
    let minute = elapsed_time / 60 in
    let second = elapsed_time % 60 in
    bit_or
      (bit_or (bit_or (bit_or 0x040F0000 (second % 10)) (second / 10 * 16)) (minute % 10 * 256))
      (minute / 10 * 4096)
