-- ===== src/Game/Controller.antt =====
-- mp2_rthakk21: the game's clock on the controller's displays, and the controller's buttons in the game.
use ece391_sp.Prelude.{ℕ, ◌+◌, ◌*◌, ◌/◌, ◌%◌, ◌≡◌, arith, not, get_or, [], ◌∷◌, ◌==◌, if◌then◌else◌}
use ece391_sp.Tux.Driver.{button_byte}
use ece391_sp.Game.Input.{tux_direction, dir_up, dir_right, dir_down, dir_left}

abbrev clock_sum : ℕ → ℕ
clock_sum t = 0x040F0000 + t % 60 % 10 + t % 60 / 10 * 16 + t / 60 % 10 * 256 + t / 60 / 10 * 4096

-- The digit on each display of a time: the seconds' digits, then the minutes', and the point between.
abbrev pub clock_digit : ℕ → ℕ → ℕ × ℕ
clock_digit k t =
    get_or ((t % 60 % 10, 0) ∷ (t % 60 / 10, 0) ∷ (t / 60 % 10, 1) ∷ (t / 60 / 10, 0) ∷ []) k (0, 0)

-- The direction of the button that is pressed alone among the four, each of which is 0 in the packet's
-- last byte when it is pressed, with none of START, A, B and C; any other bytes ask for nothing.
pub pressed_direction :
    (b c d : ℕ)
    → tux_direction (button_byte b c) d ≡ (
        if not (b % 16 == 15)
        then d
        else if c % 16 == 14
        then dir_up
        else if c % 16 == 13
        then dir_left
        else if c % 16 == 11
        then dir_down
        else if c % 16 == 7
        then dir_right
        else d)
unfolding tux_direction button_byte
pressed_direction b c d = ground arith
