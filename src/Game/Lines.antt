-- ===== src/Game/Lines.antt =====
-- mp2_rthakk21/modex.c: the drawing of the lines that panning brings into the window.
use ece391_sp.Prelude.{
  ℕ, zero, suc, ◌+◌, ◌-◌, ◌*◌, ◌/◌, ◌%◌, List, [], ◌∷◌, ◌==◌, if◌then◌else◌, Option, none, some,
  ◌>>=◌, ℤ, pos, negsuc, leb, fail,
}
use ece391_sp.Game.Level.{scroll_x_dim, scroll_y_dim}
use ece391_sp.Game.Paint.{Screen, poke, scroll_x_width, scroll_size}

-- The loop of `draw_horiz_line` from the address and the plane on, by the rounds left; `buf` is what is
-- left of the array, and a read behind its end is `none`.
unfoldable pub write_horiz : ℕ → List ℕ → ℕ → ℕ → (ℕ → ℕ) → Option (ℕ → ℕ)
write_horiz zero buf addr p_off build = some build
write_horiz (suc rounds) [] addr p_off build = none
write_horiz (suc rounds) (v ∷ buf) addr p_off build =
    let build' = poke build (addr + p_off * scroll_size) v in
    let wrapped = write_horiz rounds buf (addr + 1) 3 build' in
    let further = write_horiz rounds buf addr (p_off - 1) build' in
    if p_off == 0 then wrapped else further

-- The loop of `draw_vert_line`.
unfoldable pub write_vert : ℕ → List ℕ → ℕ → ℕ → (ℕ → ℕ) → Option (ℕ → ℕ)
write_vert zero buf addr p_off build = some build
write_vert (suc rounds) [] addr p_off build = none
write_vert (suc rounds) (v ∷ buf) addr p_off build =
    write_vert rounds buf (addr + scroll_x_width) p_off (poke build (addr + p_off * scroll_size) v)

-- The callbacks that `set_mode_X` is given fill the array `buf` with a line's picture from a place on.
module _ (horiz_line_fn vert_line_fn : ℕ → ℕ → Option (List ℕ)) where
  unfoldable pub draw_horiz_line : ℤ → Screen → Option (ℤ × Screen)
  draw_horiz_line (negsuc y) s = some (fail, s)
  draw_horiz_line (pos y) s =
      let drawn = do
        buf ← horiz_line_fn s.show_x (y + s.show_y)
        let addr = s.img3 + s.show_x / 4 + (y + s.show_y) * scroll_x_width
        build ← write_horiz scroll_x_dim buf addr (3 - s.show_x % 4) s.build
        some (pos 0, record s { build = build })
      in if leb scroll_y_dim y then some (fail, s) else drawn

  unfoldable pub draw_vert_line : ℤ → Screen → Option (ℤ × Screen)
  draw_vert_line (negsuc x) s = some (fail, s)
  draw_vert_line (pos x) s =
      let drawn = do
        buf ← vert_line_fn (x + s.show_x) s.show_y
        let addr = s.img3 + (x + s.show_x) / 4 + s.show_y * scroll_x_width
        build ← write_vert scroll_y_dim buf addr (3 - (x + s.show_x) % 4) s.build
        some (pos 0, record s { build = build })
      in if leb scroll_x_dim x then some (fail, s) else drawn
