-- ===== src/Console/Tests.antt =====
-- Runs of the console of mp3_group_59/student-distrib at concrete inputs.
use Prim.{tt}
use ece391_sp.Prelude.{
  codes, ◌*◌, ℕ, zero, suc, ◌+◌, ◌<◌, ◌≤◌, ◌≡◌, ◌≢◌, refl, arith, ◌⊎◌, List, [], ◌∷◌, ◌++◌, some,
  length, get_elem?, get_or, replicate, true, false, pos,
}
use ece391_sp.Devices.Pic.{Pic}
use ece391_sp.Console.{TerminalStruct, Console, putc, scrolling, cell, put_cell, video}
use ece391_sp.Console.Screen.{IsOnScreen, putc_lem}
use ece391_sp.Console.Keyboard.{choose_char}
use ece391_sp.Console.Terminal.{terminal_write, terminal_switch, back, bytes_4kb}
use ece391_sp.Console.Terminal.Switch.{IsActive, terminal_switch-terminal_switch}
use ece391_sp.Strings.{strlen, itoa, put_digits, strrev, strrev_loop}
use ece391_sp.Strings.Digits.{read_digits}
use ece391_sp.Console.Printf.{printf, convert, puts, word, printf_unsigned}
use ece391_sp.Console.Terminal.Write.{put_all, terminal_write_lem}
use ece391_sp.Console.Terminal.Read.{terminal_read}
use ece391_sp.Console.Terminal.Read.Line.{IsCopied, line_taken, terminal_read_lem}

abbrev quiet : Pic
quiet = record { master_mask = 0xFD; slave_mask = 0xFF; log = [] }

abbrev started : ℕ → TerminalStruct
started id = record {
  video_mem_addr = video + (id + 1) * 4096;
  active = 1;
  saved_buffer = replicate 128 0;
  screen_X = 0;
  screen_Y = 0;
}

-- The console after "ls" and the enter key.
abbrev typed : Console
typed = record {
  screen_x = 0;
  screen_y = 1;
  memory = λ a. 0;
  pic = quiet;
  ctrl_pressed = 0;
  shift_pressed = 0;
  capslock_pressed = 0;
  alt_pressed = 0;
  keyboard_buffer = b'l' ∷ b's' ∷ b'\n' ∷ replicate 125 0;
  num_chars_typed = 3;
  enter_pressed_flag = 1;
  curr_terminal_id = 0;
  terminals = started;
}

putc_lem_example :
    IsOnScreen (putc b'x' typed)
    × (typed.screen_x < 79
        → false ≡ false
        → ((a : ℕ) → (putc b'x' typed).memory a ≡ put_cell (cell 1 0) b'x' typed.memory a)
          × ((putc b'x' typed).screen_x ≡ 1)
          × ((putc b'x' typed).screen_y ≡ 1))
    × ((typed.screen_x ≡ 79) ⊎ (false ≡ true)
        → typed.screen_y < 24
        → ((a : ℕ) → (putc b'x' typed).memory a ≡ typed.memory a)
          × ((putc b'x' typed).screen_x ≡ 0)
          × ((putc b'x' typed).screen_y ≡ 2))
    × ((typed.screen_x ≡ 79) ⊎ (false ≡ true)
        → typed.screen_y ≡ 24
        → putc b'x' typed ≡ scrolling typed)
putc_lem_example = putc_lem b'x' typed (record { column = omega arith; row = omega arith })

capital : choose_char 0 1 0x1E ≡ b'A'
unfolding choose_char
capital = refl

abbrev greeting : List ℕ
greeting = b'h' ∷ b'i' ∷ []

terminal_write_lem_example :
    (2 < 79 → terminal_write (some greeting) (pos 2) typed ≡ some (pos 0, put_all greeting typed))
    × (length greeting ≡ 79
        → terminal_write (some greeting) (pos 2) typed
          ≡ some (pos 79, put_all (greeting ++ (b'\n' ∷ [])) typed))
    × (80 ≤ 2 → terminal_write (some greeting) (pos 2) typed ≡ some (pos 2, put_all greeting typed))
terminal_write_lem_example =
    terminal_write_lem greeting typed ((λ e. omega (arith, e)), ((λ e. omega (arith, e)), tt))

terminal_read_lem_example :
    (out : List ℕ) × (terminal_read [] (some (replicate 200 1)) (pos 128) typed
      ≡ some (pos 3, some out, line_taken typed))
    × IsCopied typed.keyboard_buffer (replicate 200 1) out 0 3
    × (get_elem? out 3 ≡ some 0)
terminal_read_lem_example =
    terminal_read_lem [] (replicate 200 1) 128 typed refl (omega arith) (omega arith) (omega arith)

typed_nonzero : (j : ℕ) → j < 3 → get_or typed.keyboard_buffer j 0 ≢ 0
typed_nonzero zero h e = omega (arith, e)
typed_nonzero (suc zero) h e = omega (arith, e)
typed_nonzero (suc (suc zero)) h e = omega (arith, e)
typed_nonzero (suc (suc (suc j))) h e = omega (arith, h)

active : (id : ℕ) → id < 3 → IsActive typed id
active id h = record { in_range = h; in_use = λ e. omega (arith, e); page = refl }

terminal_switch-terminal_switch_example :
    (k2 : Console) × (terminal_switch true 0 (terminal_switch true 2 typed).1 ≡ (back (pos 0), k2))
    × ((a : ℕ) → video ≤ a → a < video + bytes_4kb → k2.memory a ≡ typed.memory a)
    × (k2.screen_x ≡ typed.screen_x)
    × (k2.screen_y ≡ typed.screen_y)
    × (k2.keyboard_buffer ≡ typed.keyboard_buffer)
    × (k2.curr_terminal_id ≡ typed.curr_terminal_id)
    × (k2.num_chars_typed ≡ 0)
terminal_switch-terminal_switch_example =
    terminal_switch-terminal_switch true true typed 2 (λ e. omega (arith, e))
      (active 0 (omega arith)) (active 2 (omega arith))

-- printf("n %u", 7)
printf_unsigned_example :
    (ds : List ℕ) × (printf
        (b'n' ∷ b' ' ∷ b'%' ∷ b'u' ∷ 0 ∷ [])
        (replicate 64 9)
        (word 7 ∷ [])
        typed
      ≡ some (4, put_all ds (put_all (b'n' ∷ b' ' ∷ []) typed)))
    × (0 < length ds)
    × (read_digits 10 0 ds ≡ 7)
printf_unsigned_example =
    printf_unsigned (b'n' ∷ b' ' ∷ []) [] (replicate 64 9) 7 [] typed
      (
        (λ z. omega (arith, z)),
        (λ z. omega (arith, z)),
        ((λ z. omega (arith, z)), (λ z. omega (arith, z)), tt),
      )
      (omega arith) (omega arith)

-- printf("%#x", 0xE) pads to eight digits.
printf_padded :
    printf (codes "%#x" ++ (0 ∷ [])) (replicate 64 9) (word 14 ∷ []) typed
    ≡ some (3, put_all (codes "0000000E") typed)
unfolding printf convert puts strlen itoa put_digits strrev strrev_loop
printf_padded = refl
