-- ===== src/Console/Terminal.antt =====
-- The terminals of mp3_group_59/student-distrib/terminal_driver.c: their saved screens, and writing. The
-- reads, which wait for keys, are in Read.
pub mod Read
pub mod Write
pub mod Switch
use ece391_sp.Prelude.{
  ℕ, zero, suc, ◌+◌, ◌-◌, ◌*◌, ◌==◌, ltb, leb, if◌then◌else◌, ◌&&◌, Bool, true, false, List, [],
  ◌∷◌, ◌++◌, Option, none, some, length, take, drop, replicate, ℤ, pos, negsuc, fail,
}
use ece391_sp.Devices.Pic.{send_eoi}
use ece391_sp.Console.{
  TerminalStruct, Console, video, num_cols, clear, clear_terminal_vidmem, set_cursor, putc,
}
use ece391_sp.Console.Keyboard.{clear_keyboard_buff}

abbrev pub num_terminals : ℕ
num_terminals = 3

abbrev pub bytes_4kb : ℕ
bytes_4kb = 4096

-- How control goes on: back to the caller, or into the shell that `system_execute` starts.
pub data Control : Type 0 where
  back : ℤ → Control
  in_shell : Control

abbrev pub put_terminal : ℕ → TerminalStruct → Console → Console
put_terminal id t k = record k { terminals = λ i. if i == id then t else k.terminals i }

-- `memcpy` of memory by the byte, for two ranges apart.
abbrev pub memcpy : ℕ → ℕ → ℕ → (ℕ → ℕ) → ℕ → ℕ
memcpy dest src n memory a =
    if leb dest a && ltb a (dest + n) then memory (src + (a - dest)) else memory a

-- `terminal_init`; the first argument says whether `system_execute("shell")` enters the shell.
unfoldable pub terminal_init : Bool → ℕ → Console → Control × Console
terminal_init shell_starts terminal_id k =
    let addr = video + (terminal_id + 1) * bytes_4kb in
    let old = k.terminals terminal_id in
    let opened =
      put_terminal terminal_id
        (record old { active = 1; screen_X = 0; screen_Y = 0; saved_buffer = k.keyboard_buffer })
        (record k { curr_terminal_id = terminal_id }) in
    let blank = clear_terminal_vidmem addr opened in
    let new = blank.terminals terminal_id in
    let placed = put_terminal terminal_id (record new { video_mem_addr = addr }) blank in
    let told = record placed { pic = send_eoi 1 placed.pic } in
    if ltb (num_terminals - 1) terminal_id
    then (back fail, k)
    else if shell_starts
    then (in_shell, told)
    else (back (pos 0), told)

-- What `terminal_switch` saves of the current terminal before it turns to the other.
unfoldable pub save_terminal : Console → Console
save_terminal k =
    let old = k.terminals k.curr_terminal_id in
    let saved =
      put_terminal k.curr_terminal_id
        (record old {
          screen_X = k.screen_x;
          screen_Y = k.screen_y;
          saved_buffer = k.keyboard_buffer;
        })
        k in
    let emptied = clear_keyboard_buff saved in
    let copied = record emptied {
      memory =
          memcpy ((emptied.terminals k.curr_terminal_id).video_mem_addr) video bytes_4kb
            emptied.memory;
    } in
    set_cursor 0 0 (clear copied)

-- What it restores of a terminal that is active.
unfoldable pub restore_terminal : ℕ → Console → Console
restore_terminal terminal_id k =
    let t = k.terminals terminal_id in
    let shown = record k { memory = memcpy video t.video_mem_addr bytes_4kb k.memory } in
    let placed = set_cursor t.screen_X t.screen_Y shown in
    record placed { keyboard_buffer = t.saved_buffer; curr_terminal_id = terminal_id }

-- `terminal_switch`, which ignores what `terminal_init` returns.
unfoldable pub terminal_switch : Bool → ℕ → Console → Control × Console
unfolding terminal_init
terminal_switch shell_starts terminal_id k =
    let s = save_terminal k in
    let (control, started) = terminal_init shell_starts terminal_id s in
    if terminal_id == k.curr_terminal_id
    then (back (pos 0), k)
    else if (s.terminals terminal_id).active == 0
    then (elim control [ back r ↦ back (pos 0) | in_shell ↦ in_shell ], started)
    else (back (pos 0), restore_terminal terminal_id s)

-- `terminal_open` and `terminal_close`
abbrev pub terminal_open : ℤ
terminal_open = pos 0

abbrev pub terminal_close : ℤ
terminal_close = pos 0

-- The loop of `terminal_write` over the bytes that it shows: whether no zero stopped it, and the console.
unfoldable pub show_chars : List ℕ → Console → Bool × Console
show_chars [] k = (true, k)
show_chars (ch ∷ rest) k =
    let shown = show_chars rest (putc ch k) in if ch == 0 then (false, k) else shown

-- `temp_buffer` before the copy.
abbrev pub temp_buffer : List ℕ
temp_buffer = replicate (num_cols - 1) 0 ++ (b'\n' ∷ [])

-- The loop over the caller's buffer, which only a zero stops before it leaves the object.
unfoldable pub show_buffer : List ℕ → ℕ → Console → Option (ℤ × Console)
unfolding show_chars
show_buffer buf n k =
    let (whole, shown) = show_chars (take n buf) k in
    if whole
    then (if ltb (length buf) n then none else some (pos n, shown))
    else some (pos 0, shown)

-- `terminal_write`; the buffer is `none` for a null pointer, and a read past its object has no result. The
-- copy of a negative count, which is at most NUM_COLS, leaves the temporary buffer.
unfoldable pub terminal_write : Option (List ℕ) → ℤ → Console → Option (ℤ × Console)
unfolding show_buffer
terminal_write none nbytes k = some (pos 0, k)
terminal_write (some buf) (negsuc n) k = none
terminal_write (some buf) (pos n) k =
    let (whole, shown) = show_chars (take n buf ++ drop n temp_buffer) k in
    let long = show_buffer buf n k in
    if n == 0
    then some (pos 0, k)
    else if leb n num_cols
    then (if ltb (length buf) n then none else some (if whole then pos n else pos 0, shown))
    else long
