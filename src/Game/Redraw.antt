-- ===== src/Game/Redraw.antt =====
-- mp2_rthakk21/modex.c: what `draw_horiz_line` and `draw_vert_line` leave in the build buffer.
use mathlib.Core.Option
use ece391_sp.Prelude.{
  length, get_elem?, ◌≢◌, false, true, ℕ, zero, suc, ◌+◌, ◌-◌, ◌*◌, ◌/◌, ◌%◌, ◌≡◌, ◌≤◌, ◌<◌, refl,
  ap, ◌∙◌, inl, inr, arith, List, [], ◌∷◌, Bool-cases, ◌==◌, Option, some, ℤ, sym, negsuc, pos, leb,
  fail,
}
use ece391_sp.Game.Level.{scroll_x_dim, scroll_y_dim}
use ece391_sp.Game.Spots.{poke-ne, poke_self}
use ece391_sp.Game.Paint.{Screen, poke, pixel_place, scroll_x_width, scroll_size}
use ece391_sp.Game.Lines.{write_horiz, write_vert, draw_horiz_line, draw_vert_line}

-- The pixels of a line from a place on, each written where `pixel_place` has it.
unfoldable pub put_row : ℕ → ℕ → ℕ → List ℕ → (ℕ → ℕ) → ℕ → ℕ
put_row img3 x y [] build = build
put_row img3 x y (v ∷ buf) build =
    put_row img3 (x + 1) y buf (poke build (img3 + pixel_place x y) v)

unfoldable pub put_column : ℕ → ℕ → ℕ → List ℕ → (ℕ → ℕ) → ℕ → ℕ
put_column img3 x y [] build = build
put_column img3 x y (v ∷ buf) build =
    put_column img3 x (y + 1) buf (poke build (img3 + pixel_place x y) v)

write_horiz_at :
    (img3 x y addr p_off : ℕ) (buf : List ℕ) (build : ℕ → ℕ)
    → addr ≡ img3 + x / 4 + y * scroll_x_width
    → p_off ≡ 3 - x % 4
    → write_horiz (length buf) buf addr p_off build ≡ some (put_row img3 x y buf build)
unfolding write_horiz put_row
write_horiz_at img3 x y addr p_off [] build ea ep = refl
write_horiz_at img3 x y addr p_off (v ∷ buf) build ea ep =
    let here : addr + p_off * scroll_size ≡ img3 + pixel_place x y = omega (arith, ea, ep) in
    let write : (poke build (addr + p_off * scroll_size) v)
        ≡ (poke build (img3 + pixel_place x y) v) =
      ap (λ at. poke build at v) here in
    elim (Bool-cases (p_off == 0)) [
      | inl last ↦
          let zero_off : p_off ≡ 0 = ground (arith, last) in
          rw last (
            ap (λ b. write_horiz (length buf) buf (addr + 1) 3 b) write
            ∙ write_horiz_at img3 (x + 1) y (addr + 1) 3 buf _ (omega (arith, ea, ep, zero_off))
                (omega (arith, ep, zero_off)))
      | inr more ↦
          let some_off : 0 < p_off = ground (arith, more) in
          rw more (
            ap (λ b. write_horiz (length buf) buf addr (p_off - 1) b) write
            ∙ write_horiz_at img3 (x + 1) y addr (p_off - 1) buf _ (omega (arith, ea, ep, some_off))
                (omega (arith, ep, some_off)))
    ]

write_vert_at :
    (img3 x y addr p_off : ℕ) (buf : List ℕ) (build : ℕ → ℕ)
    → addr ≡ img3 + x / 4 + y * scroll_x_width
    → p_off ≡ 3 - x % 4
    → write_vert (length buf) buf addr p_off build ≡ some (put_column img3 x y buf build)
unfolding write_vert put_column
write_vert_at img3 x y addr p_off [] build ea ep = refl
write_vert_at img3 x y addr p_off (v ∷ buf) build ea ep =
    let here : addr + p_off * scroll_size ≡ img3 + pixel_place x y = omega (arith, ea, ep) in
    ap (λ at. write_vert (length buf) buf (addr + scroll_x_width) p_off (poke build at v)) here
    ∙ write_vert_at img3 x (y + 1) (addr + scroll_x_width) p_off buf _ (omega (arith, ea)) ep

-- The build buffer `after` has a row's picture from the place (x, y) on, and is `before` elsewhere.
pub record IsRow (img3 x y : ℕ) (buf : List ℕ) (before after : ℕ → ℕ) : Type 0 where
  pub drawn : (i v : ℕ) → get_elem? buf i ≡ some v → after (img3 + pixel_place (x + i) y) ≡ v
  pub kept :
      (a : ℕ) → ((i : ℕ) → i < length buf → a ≢ img3 + pixel_place (x + i) y) → after a ≡ before a

pub record IsColumn (img3 x y : ℕ) (buf : List ℕ) (before after : ℕ → ℕ) : Type 0 where
  pub drawn : (i v : ℕ) → get_elem? buf i ≡ some v → after (img3 + pixel_place x (y + i)) ≡ v
  pub kept :
      (a : ℕ) → ((i : ℕ) → i < length buf → a ≢ img3 + pixel_place x (y + i)) → after a ≡ before a

put_row_far :
    (img3 x y a : ℕ) (buf : List ℕ) (build : ℕ → ℕ)
    → ((d : ℕ) → d < length buf → a ≢ img3 + pixel_place (x + d) y)
    → put_row img3 x y buf build a ≡ build a
unfolding put_row
put_row_far img3 x y a [] build far = refl
put_row_far img3 x y a (v ∷ buf) build far =
    let e : x + 0 ≡ x = omega arith in
    put_row_far img3 (x + 1) y a buf _ (λ d below.
      let f : x + suc d ≡ x + 1 + d = omega arith in rw f at (far (suc d) (omega (arith, below))))
    ∙ poke-ne build (img3 + pixel_place x y) v a (rw e at (far 0 (omega arith)))

columns_apart :
    (img3 x y d : ℕ) → d < 320 → img3 + pixel_place x y ≢ img3 + pixel_place (x + 1 + d) y
columns_apart img3 x y d h e = omega (arith, h, e)

put_row_get :
    (img3 x y : ℕ) (buf : List ℕ) (build : ℕ → ℕ) (i v : ℕ)
    → length buf ≤ 320
    → get_elem? buf i ≡ some v
    → put_row img3 x y buf build (img3 + pixel_place (x + i) y) ≡ v
unfolding put_row
put_row_get img3 x y [] build i v short at = absurd (ground (arith, at))
put_row_get img3 x y (w ∷ buf) build zero v short at =
    let e : x + 0 ≡ x = omega arith in
    let same : w ≡ v = ap (λ o. Option.get_or o w) at in
    rw e (
      put_row_far img3 (x + 1) y (img3 + pixel_place x y) buf _
        (λ d below. columns_apart img3 x y d (omega (arith, below, short)))
      ∙ poke_self build (img3 + pixel_place x y) w
      ∙ same)
put_row_get img3 x y (w ∷ buf) build (suc i) v short at =
    let f : x + suc i ≡ x + 1 + i = omega arith in
    rw f (put_row_get img3 (x + 1) y buf _ i v (omega (arith, short)) at)

put_column_far :
    (img3 x y a : ℕ) (buf : List ℕ) (build : ℕ → ℕ)
    → ((d : ℕ) → d < length buf → a ≢ img3 + pixel_place x (y + d))
    → put_column img3 x y buf build a ≡ build a
unfolding put_column
put_column_far img3 x y a [] build far = refl
put_column_far img3 x y a (v ∷ buf) build far =
    let e : y + 0 ≡ y = omega arith in
    put_column_far img3 x (y + 1) a buf _ (λ d below.
      let f : y + suc d ≡ y + 1 + d = omega arith in rw f at (far (suc d) (omega (arith, below))))
    ∙ poke-ne build (img3 + pixel_place x y) v a (rw e at (far 0 (omega arith)))

put_column_get :
    (img3 x y : ℕ) (buf : List ℕ) (build : ℕ → ℕ) (i v : ℕ)
    → get_elem? buf i ≡ some v
    → put_column img3 x y buf build (img3 + pixel_place x (y + i)) ≡ v
unfolding put_column
put_column_get img3 x y [] build i v at = absurd (ground (arith, at))
put_column_get img3 x y (w ∷ buf) build zero v at =
    let e : y + 0 ≡ y = omega arith in
    let same : w ≡ v = ap (λ o. Option.get_or o w) at in
    rw e (
      put_column_far img3 x (y + 1) (img3 + pixel_place x y) buf _ (λ d below e. omega (arith, e))
      ∙ poke_self build (img3 + pixel_place x y) w
      ∙ same)
put_column_get img3 x y (w ∷ buf) build (suc i) v at =
    let f : y + suc i ≡ y + 1 + i = omega arith in rw f (put_column_get img3 x (y + 1) buf _ i v at)

-- Not a number of a line of `dim` lines.
abbrev pub IsOutside : ℤ → ℕ → Type 0
IsOutside z dim = (n : ℕ) → z ≡ pos n → dim ≤ n

module _ (horiz_line_fn vert_line_fn : ℕ → ℕ → Option (List ℕ)) (s : Screen) where
  draw_horiz_line_outside :
      (z : ℤ)
      → IsOutside z scroll_y_dim
      → draw_horiz_line horiz_line_fn vert_line_fn z s ≡ some (fail, s)
  unfolding draw_horiz_line
  draw_horiz_line_outside (negsuc m) out = refl
  draw_horiz_line_outside (pos m) out =
      let past : leb scroll_y_dim m ≡ true = ground (arith, out m refl) in rw past refl

  draw_vert_line_outside :
      (z : ℤ)
      → IsOutside z scroll_x_dim
      → draw_vert_line horiz_line_fn vert_line_fn z s ≡ some (fail, s)
  unfolding draw_vert_line
  draw_vert_line_outside (negsuc m) out = refl
  draw_vert_line_outside (pos m) out =
      let past : leb scroll_x_dim m ≡ true = ground (arith, out m refl) in rw past refl

module _ (horiz_line_fn vert_line_fn : ℕ → ℕ → Option (List ℕ)) (s : Screen) where
  -- Where a callback fills the whole array, of 320 pixels for a row and of 182 for a column, a line in
  -- the window is drawn: 0 is returned, all pixels of its picture stand in the build buffer where the
  -- drawing of blocks has them, and the rest of the buffer is as before. A line outside the window,
  -- before its first or behind its last, is refused with -1, and nothing changes.
  pub draw_line_lem :
      (n : ℕ) (row column : List ℕ)
      → horiz_line_fn s.show_x (n + s.show_y) ≡ some row
      → vert_line_fn (n + s.show_x) s.show_y ≡ some column
      → length row ≡ scroll_x_dim
      → length column ≡ scroll_y_dim
      → (n < scroll_y_dim
          → (build : ℕ → ℕ) × (draw_horiz_line horiz_line_fn vert_line_fn (pos n) s
              ≡ some (pos 0, record s { build = build }))
            × IsRow s.img3 s.show_x (n + s.show_y) row s.build build)
        × (n < scroll_x_dim
            → (build : ℕ → ℕ) × (draw_vert_line horiz_line_fn vert_line_fn (pos n) s
                ≡ some (pos 0, record s { build = build }))
              × IsColumn s.img3 (n + s.show_x) s.show_y column s.build build)
        × ((z : ℤ)
            → IsOutside z scroll_y_dim
            → draw_horiz_line horiz_line_fn vert_line_fn z s ≡ some (fail, s))
        × ((z : ℤ)
            → IsOutside z scroll_x_dim
            → draw_vert_line horiz_line_fn vert_line_fn z s ≡ some (fail, s))
  unfolding draw_horiz_line draw_vert_line
  draw_line_lem n row column er ec lr lc = (
    (λ below.
        let inside : leb scroll_y_dim n ≡ false = ground (arith, below) in
        (
          put_row s.img3 s.show_x (n + s.show_y) row s.build,
          rw
              (
                inside,
                er,
                sym lr,
                write_horiz_at s.img3 s.show_x (n + s.show_y) _ _ row s.build refl refl,
              )
              refl,
          record {
            drawn = λ i v at.
                put_row_get s.img3 s.show_x (n + s.show_y) row s.build i v (omega (arith, lr)) at;
            kept = λ a far. put_row_far s.img3 s.show_x (n + s.show_y) a row s.build far;
          },
        )),
    (λ below.
        let inside : leb scroll_x_dim n ≡ false = ground (arith, below) in
        (
          put_column s.img3 (n + s.show_x) s.show_y column s.build,
          rw
              (
                inside,
                ec,
                sym lc,
                write_vert_at s.img3 (n + s.show_x) s.show_y _ _ column s.build refl refl,
              )
              refl,
          record {
            drawn = λ i v at. put_column_get s.img3 (n + s.show_x) s.show_y column s.build i v at;
            kept = λ a far. put_column_far s.img3 (n + s.show_x) s.show_y a column s.build far;
          },
        )),
    draw_horiz_line_outside horiz_line_fn vert_line_fn s,
    draw_vert_line_outside horiz_line_fn vert_line_fn s,
  )
