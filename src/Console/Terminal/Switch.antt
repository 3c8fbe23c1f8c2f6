-- ===== src/Console/Terminal/Switch.antt =====
-- What turning to another terminal and back keeps, in mp3_group_59/student-distrib/terminal_driver.c.
use ece391_sp.Prelude.{
  ℕ, ◌+◌, ◌-◌, ◌*◌, ◌%◌, ◌<◌, ◌≤◌, ◌≡◌, ◌≢◌, refl, sym, ap, ◌∙◌, arith, ltb, leb, ◌==◌,
  if◌then◌else◌, Bool, true, false, ◌&&◌, pos, ◌⊎◌, inr,
}
use ece391_sp.Console.{Console, video, attrib, clear, clear_cells, set_cursor}
use ece391_sp.Console.Screen.{clear_cells_lem}
use ece391_sp.Console.Keyboard.{clear_keyboard_buff}
use ece391_sp.Console.Terminal.{
  back, memcpy, bytes_4kb, num_terminals, save_terminal, restore_terminal, terminal_switch,
}

-- One of the three terminals, in use, whose page of saved video memory is the one that `terminal_init` gives it.
pub record IsActive (k : Console) (id : ℕ) : Type 0 where
  pub in_range : id < num_terminals
  pub in_use : (k.terminals id).active ≢ 0
  pub page : (k.terminals id).video_mem_addr ≡ video + (id + 1) * bytes_4kb

save_terminal-others :
    (k : Console) (id : ℕ)
    → id ≢ k.curr_terminal_id
    → (save_terminal k).terminals id ≡ k.terminals id
unfolding save_terminal set_cursor clear clear_keyboard_buff
save_terminal-others k id ne = ground (arith, ne)

terminal_switch_active :
    (s : Bool) (id : ℕ) (k : Console)
    → id ≢ k.curr_terminal_id
    → (k.terminals id).active ≢ 0
    → terminal_switch s id k ≡ (back (pos 0), restore_terminal id (save_terminal k))
unfolding terminal_switch
terminal_switch_active s id k ne on =
    let other : (id == k.curr_terminal_id) ≡ false = ground (arith, ne) in
    let on' : ((save_terminal k).terminals id).active ≢ 0 =
      λ e. on (ap (λ t. t.active) (sym (save_terminal-others k id ne)) ∙ e) in
    let used : (((save_terminal k).terminals id).active == 0) ≡ false = ground (arith, on') in
    rw (other, used)

-- The memory after a turn from the terminal with one page to the one with another.
abbrev pub turned : ℕ → ℕ → (ℕ → ℕ) → ℕ → ℕ
turned from to memory =
    memcpy video to bytes_4kb (clear_cells video 2000 (memcpy from video bytes_4kb memory))

clear_cells_outside :
    (memory : ℕ → ℕ) (a : ℕ) → video + 4096 ≤ a → clear_cells video 2000 memory a ≡ memory a
clear_cells_outside memory a h = clear_cells_lem video 2000 memory a ∙ beyond
  where
    beyond :
        (if leb video a && ltb a (video + 2000 * 2)
          then (if (a - video) % 2 == 0 then b' ' else attrib)
          else memory a)
        ≡ memory a
    beyond = ground (arith, h)

memcpy_inside :
    (dest src n : ℕ) (memory : ℕ → ℕ) (a : ℕ)
    → dest ≤ a
    → a < dest + n
    → memcpy dest src n memory a ≡ memory (src + (a - dest))
memcpy_inside dest src n memory a lo hi = ground (arith, lo, hi)

memcpy_outside :
    (dest src n : ℕ) (memory : ℕ → ℕ) (a : ℕ)
    → (a < dest) ⊎ (dest + n ≤ a)
    → memcpy dest src n memory a ≡ memory a
memcpy_outside dest src n memory a h = ground (arith, h)

turned-turned :
    (from to : ℕ) (memory : ℕ → ℕ) (a : ℕ)
    → video + 4096 ≤ from
    → video + 4096 ≤ to
    → ((from + 4096 ≤ to) ⊎ (to + 4096 ≤ from))
    → video ≤ a
    → a < video + 4096
    → turned to from (turned from to memory) a ≡ memory a
turned-turned from to memory a hf ht apart lo hi =
    let p = from + (a - video) in
    let far : video + 4096 ≤ p = omega (arith, hf) in
    let away : (p < to) ⊎ (to + 4096 ≤ p) = omega (arith, apart, lo, hi) in
    let saved = memcpy from video 4096 memory in
    let once = turned from to memory in
    memcpy_inside video from 4096 (clear_cells video 2000 (memcpy to video 4096 once)) a lo hi
    ∙ clear_cells_outside (memcpy to video 4096 once) p far
    ∙ memcpy_outside to video 4096 once p away
    ∙ memcpy_outside video to 4096 (clear_cells video 2000 saved) p (inr far)
    ∙ clear_cells_outside saved p far
    ∙ memcpy_inside from video 4096 memory p (omega arith) (omega (arith, hi, lo))
    ∙ ap memory (omega (arith, lo))

-- A turn to an active terminal.
abbrev pub turn : ℕ → Console → Console
turn id k = restore_terminal id (save_terminal k)

self : (id : ℕ) → (id == id) ≡ true
self id = ground arith

memory-turn :
    (k : Console) (id from to : ℕ)
    → id ≢ k.curr_terminal_id
    → (k.terminals k.curr_terminal_id).video_mem_addr ≡ from
    → (k.terminals id).video_mem_addr ≡ to
    → (turn id k).memory ≡ turned from to k.memory
unfolding restore_terminal save_terminal set_cursor clear clear_keyboard_buff
memory-turn k id from to ne pf pt =
    let other : (id == k.curr_terminal_id) ≡ false = ground (arith, ne) in
    rw (other, self k.curr_terminal_id, pf, pt)

-- What a turn leaves of the terminal that it turns from, and in the globals.
terminals-turn :
    (k : Console) (id : ℕ)
    → (turn id k).terminals k.curr_terminal_id ≡ record (k.terminals k.curr_terminal_id) {
      screen_X = k.screen_x;
      screen_Y = k.screen_y;
      saved_buffer = k.keyboard_buffer;
    }
unfolding restore_terminal save_terminal set_cursor clear clear_keyboard_buff
terminals-turn k id = rw (self k.curr_terminal_id)

others-turn :
    (k : Console) (id : ℕ) → id ≢ k.curr_terminal_id → (turn id k).terminals id ≡ k.terminals id
unfolding restore_terminal set_cursor
others-turn k id ne = save_terminal-others k id ne

globals-turn :
    (k : Console) (id : ℕ)
    → ((turn id k).screen_x ≡ ((save_terminal k).terminals id).screen_X)
      × ((turn id k).screen_y ≡ ((save_terminal k).terminals id).screen_Y)
      × ((turn id k).keyboard_buffer ≡ ((save_terminal k).terminals id).saved_buffer)
      × ((turn id k).curr_terminal_id ≡ id)
      × ((turn id k).num_chars_typed ≡ 0)
unfolding restore_terminal save_terminal set_cursor clear clear_keyboard_buff
globals-turn k id = (refl, refl, refl, refl, refl)

memory-turn-turn :
    (k : Console) (id a : ℕ)
    → id ≢ k.curr_terminal_id
    → IsActive k k.curr_terminal_id
    → IsActive k id
    → video ≤ a
    → a < video + bytes_4kb
    → (turn k.curr_terminal_id (turn id k)).memory a ≡ k.memory a
memory-turn-turn k id a ne here there lo hi =
    let k1 = turn id k in
    let from = video + (k.curr_terminal_id + 1) * bytes_4kb in
    let to = video + (id + 1) * bytes_4kb in
    let at : k1.curr_terminal_id ≡ id = (globals-turn k id).3 in
    let ne' : k.curr_terminal_id ≢ k1.curr_terminal_id = λ e. ne (sym (e ∙ at)) in
    let page : (k1.terminals k1.curr_terminal_id).video_mem_addr ≡ to =
      ap (λ t. (k1.terminals t).video_mem_addr) at
      ∙ ap (λ t. t.video_mem_addr) (others-turn k id ne)
      ∙ there.page in
    let page' : (k1.terminals k.curr_terminal_id).video_mem_addr ≡ from =
      ap (λ t. t.video_mem_addr) (terminals-turn k id) ∙ here.page in
    let apart : (from + 4096 ≤ to) ⊎ (to + 4096 ≤ from) = omega (arith, ne) in
    ap (λ m. m a) (memory-turn k1 k.curr_terminal_id to from ne' page page')
    ∙ ap (λ m. turned to from m a) (memory-turn k id from to ne here.page there.page)
    ∙ turned-turned from to k.memory a (omega arith) (omega arith) apart lo hi

-- From an active terminal to another active one and back, each with its own page for saved video memory:
-- the 4 KB of the text screen, the cursor, the line buffer and the current
-- terminal are as before, but no character of the line counts as typed any more.
pub terminal_switch-terminal_switch :
    (s s' : Bool) (k : Console) (id : ℕ)
    → id ≢ k.curr_terminal_id
    → IsActive k k.curr_terminal_id
    → IsActive k id
    → (k2 : Console) × (terminal_switch s' k.curr_terminal_id (terminal_switch s id k).1
        ≡ (back (pos 0), k2))
      × ((a : ℕ) → video ≤ a → a < video + bytes_4kb → k2.memory a ≡ k.memory a)
      × (k2.screen_x ≡ k.screen_x)
      × (k2.screen_y ≡ k.screen_y)
      × (k2.keyboard_buffer ≡ k.keyboard_buffer)
      × (k2.curr_terminal_id ≡ k.curr_terminal_id)
      × (k2.num_chars_typed ≡ 0)
terminal_switch-terminal_switch s s' k id ne here there =
    let k1 = turn id k in
    let at : k1.curr_terminal_id ≡ id = (globals-turn k id).3 in
    let ne' : k.curr_terminal_id ≢ k1.curr_terminal_id = λ e. ne (sym (e ∙ at)) in
    let kept = terminals-turn k id in
    let back_kept = save_terminal-others k1 k.curr_terminal_id ne' ∙ kept in
    let fields = globals-turn k1 k.curr_terminal_id in
    let run : terminal_switch s' k.curr_terminal_id (terminal_switch s id k).1
        ≡ (back (pos 0), turn k.curr_terminal_id k1) =
      ap (λ r. terminal_switch s' k.curr_terminal_id r.1)
        (terminal_switch_active s id k ne there.in_use)
      ∙ terminal_switch_active s' k.curr_terminal_id k1 ne'
          (λ e. here.in_use (sym (ap (λ t. t.active) kept) ∙ e)) in
    (
      turn k.curr_terminal_id k1,
      run,
      (λ a lo hi. memory-turn-turn k id a ne here there lo hi),
      fields.0 ∙ ap (λ t. t.screen_X) back_kept,
      fields.1 ∙ ap (λ t. t.screen_Y) back_kept,
      fields.2 ∙ ap (λ t. t.saved_buffer) back_kept,
      fields.3,
      fields.4,
    )
