-- ===== src/Console.antt =====
-- The text screen, the keyboard and the terminals of mp3_group_59/student-distrib: the console part of
-- lib.c, keyboard.c and terminal_driver.c. Memory is a function from addresses; a write to an I/O port
-- is an entry of the log of the interrupt controllers.
pub mod Screen
pub mod Keyboard
pub mod Terminal
pub mod Printf
mod Tests
use Prim.Native.Nat.{bit_and}
use ece391_sp.Prelude.{
  ℕ, zero, suc, ◌+◌, ◌-◌, ◌*◌, ◌/◌, ◌%◌, ◌^◌, ◌==◌, ltb, leb, if◌then◌else◌, ◌&&◌, ◌||◌, Bool, true,
  false, List, [], ◌∷◌, ◌++◌, u32_mod,
}
use ece391_sp.Devices.Pic.{Pic, outb}

-- `terminal_t`
pub record TerminalStruct : Type 0 where
  pub video_mem_addr : ℕ
  pub active : ℕ
  pub saved_buffer : List ℕ
  pub screen_X : ℕ
  pub screen_Y : ℕ

-- The globals of the three files. The cursor's coordinates are the words of the two `int` variables.
pub record Console : Type 0 where
  pub screen_x : ℕ
  pub screen_y : ℕ
  pub memory : ℕ → ℕ
  pub pic : Pic
  pub ctrl_pressed : ℕ
  pub shift_pressed : ℕ
  pub capslock_pressed : ℕ
  pub alt_pressed : ℕ
  pub keyboard_buffer : List ℕ
  pub num_chars_typed : ℕ
  pub enter_pressed_flag : ℕ
  pub curr_terminal_id : ℕ
  pub terminals : ℕ → TerminalStruct

abbrev pub video : ℕ
video = 0xB8000

abbrev pub attrib : ℕ
attrib = 0x7

abbrev pub num_cols : ℕ
num_cols = 80

abbrev pub num_rows : ℕ
num_rows = 25

-- The address of the character of a cell; the cell's attribute is the byte after it.
abbrev pub cell : ℕ → ℕ → ℕ
cell y x = (video + (num_cols * y + x) * 2) % u32_mod

-- A character with the attribute at an address.
abbrev pub put_cell : ℕ → ℕ → (ℕ → ℕ) → ℕ → ℕ
put_cell at c memory a = if a == at then c % 256 else if a == at + 1 then attrib else memory a

-- The loop of `clear` and `clear_terminal_vidmem` over the cells below n.
unfoldable pub clear_cells : ℕ → ℕ → (ℕ → ℕ) → ℕ → ℕ
clear_cells base zero memory = memory
clear_cells base (suc i) memory = put_cell (base + i * 2) b' ' (clear_cells base i memory)

-- `clear`
unfoldable pub clear : Console → Console
unfolding clear_cells
clear c = record c { memory = clear_cells video (num_rows * num_cols) c.memory }

-- `clear_terminal_vidmem`
unfoldable pub clear_terminal_vidmem : ℕ → Console → Console
unfolding clear_cells
clear_terminal_vidmem addr c = record c { memory = clear_cells addr (num_rows * num_cols) c.memory }

abbrev pub port_write : ℕ → ℕ → Console → Console
port_write value port c = record c { pic = outb value port c.pic }

-- `set_cursor`
unfoldable pub set_cursor : ℕ → ℕ → Console → Console
set_cursor x y c =
    let position = (num_cols * y + x) % 2 ^ 16 in
    let low = port_write (position % 256) 0x3D5 (port_write 0x0F 0x3D4 c) in
    let high = port_write (position / 256) 0x3D5 (port_write 0x0E 0x3D4 low) in
    record high { screen_x = x; screen_y = y }

-- The body of the loops of `scrolling`.
unfoldable pub scroll_cell : ℕ → ℕ → (ℕ → ℕ) → ℕ → ℕ
scroll_cell j i memory =
    let moved = put_cell (cell (j - 1) i) (memory (cell j i)) memory in
    if j == num_rows - 1 then put_cell (cell j i) b' ' moved else moved

-- The first n rounds of the inner loop, and of the outer loop, which starts at row 1.
unfoldable pub scroll_row : ℕ → ℕ → (ℕ → ℕ) → ℕ → ℕ
scroll_row j zero memory = memory
scroll_row j (suc i) memory = scroll_cell j i (scroll_row j i memory)

unfoldable pub scroll_rows : ℕ → (ℕ → ℕ) → ℕ → ℕ
unfolding scroll_row scroll_cell
scroll_rows zero memory = memory
scroll_rows (suc n) memory = scroll_row (n + 1) num_cols (scroll_rows n memory)

-- `scrolling`
unfoldable pub scrolling : Console → Console
unfolding scroll_rows set_cursor
scrolling c =
    set_cursor 0 (num_rows - 1) (record c { memory = scroll_rows (num_rows - 1) c.memory })

-- `%` of an `int` that is given by its word.
abbrev pub int_mod : ℕ → ℕ → ℕ
int_mod w n = if ltb w (2 ^ 31) then w % n else (u32_mod - (u32_mod - w) % n) % u32_mod

abbrev pub is_newline : ℕ → Bool
is_newline c = c == 10 || c == 13

-- `putc`. After `%= NUM_COLS` the quotient by NUM_COLS is 0.
unfoldable pub putc : ℕ → Console → Console
unfolding set_cursor scrolling
putc ch c =
    let next_line = set_cursor 0 ((c.screen_y + 1) % u32_mod) c in
    let drawn = record c { memory = put_cell (cell c.screen_y c.screen_x) ch c.memory } in
    let next_column =
      set_cursor (int_mod ((c.screen_x + 1) % u32_mod) num_cols) (int_mod c.screen_y num_rows)
        drawn in
    let scrolled = scrolling c in
    if c.screen_x == num_cols - 1 && c.screen_y == num_rows - 1
    then scrolled
    else if c.screen_y == num_rows - 1 && is_newline ch
    then scrolled
    else if c.screen_x == num_cols - 1
    then next_line
    else if is_newline ch
    then next_line
    else next_column
