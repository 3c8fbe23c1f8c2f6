-- ===== src/Console/Screen.antt =====
-- What the console functions of mp3_group_59/student-distrib/lib.c do to the screen.
use ece391_sp.Prelude.{
  ℕ, zero, suc, ◌+◌, ◌-◌, ◌*◌, ◌%◌, ◌<◌, ◌≡◌, refl, arith, ◌==◌, ltb, leb, if◌then◌else◌, ◌&&◌,
  true, false, u32_mod, ◌⊎◌, inl, inr, ap,
}
use ece391_sp.Console.{
  Console, clear_cells, clear, set_cursor, scrolling, putc, video, attrib, num_cols, num_rows, cell,
  put_cell, is_newline,
}

-- The cursor is on the screen.
pub record IsOnScreen (c : Console) : Type 0 where
  pub column : c.screen_x < num_cols
  pub row : c.screen_y < num_rows

pub clear_cells_lem :
    (base n : ℕ) (memory : ℕ → ℕ) (a : ℕ)
    → clear_cells base n memory a ≡ (
        if leb base a && ltb a (base + n * 2)
        then (if (a - base) % 2 == 0 then b' ' else attrib)
        else memory a)
unfolding clear_cells
clear_cells_lem base zero memory a = ground arith
clear_cells_lem base (suc n) memory a = ground (arith, clear_cells_lem base n memory a)

-- `clear` fills the 4,000 bytes of the screen with spaces that have the attribute, and leaves all other
-- memory and the cursor.
clear_lem :
    (c : Console) (a : ℕ)
    → ((clear c).memory a ≡ (
        if leb video a && ltb a (video + 4000)
        then (if (a - video) % 2 == 0 then b' ' else attrib)
        else c.memory a))
      × ((clear c).screen_x ≡ c.screen_x)
      × ((clear c).screen_y ≡ c.screen_y)
unfolding clear
clear_lem c a = (clear_cells_lem video 2000 c.memory a, refl, refl)

scrolling_cursor : (c : Console) → ((scrolling c).screen_x ≡ 0) × ((scrolling c).screen_y ≡ 24)
unfolding scrolling set_cursor
scrolling_cursor c = (refl, refl)

putc_next_line :
    (ch : ℕ) (c : Console)
    → (c.screen_x ≡ 79) ⊎ (is_newline ch ≡ true)
    → c.screen_y < 24
    → putc ch c ≡ set_cursor 0 (c.screen_y + 1) c
unfolding putc
putc_next_line ch c e y =
    let wrap : (c.screen_y + 1) % u32_mod ≡ c.screen_y + 1 = omega arith in
    elim e [ inl x ↦ at_end wrap x | inr n ↦ at_break wrap n ]
  where
    at_end :
        (c.screen_y + 1) % u32_mod ≡ c.screen_y + 1
        → c.screen_x ≡ 79
        → putc ch c ≡ set_cursor 0 (c.screen_y + 1) c
    at_end w x = ground (arith, ap (λ r. set_cursor 0 r c) w)

    at_break :
        (c.screen_y + 1) % u32_mod ≡ c.screen_y + 1
        → is_newline ch ≡ true
        → putc ch c ≡ set_cursor 0 (c.screen_y + 1) c
    at_break w n = ground (arith, ap (λ r. set_cursor 0 r c) w)

putc_scrolls :
    (ch : ℕ) (c : Console)
    → (c.screen_x ≡ 79) ⊎ (is_newline ch ≡ true)
    → c.screen_y ≡ 24
    → putc ch c ≡ scrolling c
unfolding putc
putc_scrolls ch c e y = elim e [ inl x ↦ ground arith | inr n ↦ ground arith ]

-- With the cursor on the screen, `putc` leaves it there. A character other than a line break at a column
-- below 79 is put at the cursor with the attribute, no other byte changes, and the cursor is one column
-- further. At column 79, or for a line break, on a row below 24, nothing is put and the cursor is at the
-- start of the next row. On row 24 those scroll.
pub putc_lem :
    (ch : ℕ) (c : Console)
    → IsOnScreen c
    → IsOnScreen (putc ch c)
      × (c.screen_x < 79
          → is_newline ch ≡ false
          → ((a : ℕ) → (putc ch c).memory a ≡ put_cell (cell c.screen_y c.screen_x) ch c.memory a)
            × ((putc ch c).screen_x ≡ c.screen_x + 1)
            × ((putc ch c).screen_y ≡ c.screen_y))
      × ((c.screen_x ≡ 79) ⊎ (is_newline ch ≡ true)
          → c.screen_y < 24
          → ((a : ℕ) → (putc ch c).memory a ≡ c.memory a)
            × ((putc ch c).screen_x ≡ 0)
            × ((putc ch c).screen_y ≡ c.screen_y + 1))
      × ((c.screen_x ≡ 79) ⊎ (is_newline ch ≡ true) → c.screen_y ≡ 24 → putc ch c ≡ scrolling c)
unfolding putc set_cursor
putc_lem ch c v = (
  record {
    column = ground (arith, v.column, (scrolling_cursor c).0);
    row = ground (arith, v.row, (scrolling_cursor c).1);
  },
  (λ x n. ((λ a. ground arith), ground arith, ground arith)),
  (λ e y.
      let next = putc_next_line ch c e y in
      ((λ a. ap (λ k. k.memory a) next), ap (λ k. k.screen_x) next, ap (λ k. k.screen_y) next)),
  putc_scrolls ch c,
)
