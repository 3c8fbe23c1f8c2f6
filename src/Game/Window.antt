-- ===== src/Game/Window.antt =====
-- mp2_rthakk21/mazegame.c: the player's steps of a pixel, and the window on the maze that follows them.
use ece391_sp.Prelude.{ℕ, ◌+◌, ◌-◌, ◌*◌, ◌%◌, List, [], ◌∷◌, ◌&&◌, ltb, if◌then◌else◌, u32_mod}
use ece391_sp.Game.Level.{LevelInfo, show_min, scroll_x_dim, scroll_y_dim, block_dim, pan_border}

-- A line of the window that is drawn, by its number in the window.
pub data Line : Type 0 where
  horiz_line vert_line : ℕ → Line

-- A call of `set_view_window` with the line drawn after it.
pub record Pan : Type 0 where
  pub to_x : ℕ
  pub to_y : ℕ
  pub line : Line

-- The window's place, which `game_info` has as `unsigned int`s, the maze's dimensions, and the calls that
-- have moved the window, the last one first.
pub record View : Type 0 where
  pub maze_x_dim : ℕ
  pub maze_y_dim : ℕ
  pub map_x : ℕ
  pub map_y : ℕ
  pub pans : List Pan

-- `prepare_maze_level` on the window; the whole of it is drawn after.
unfoldable pub first_view : LevelInfo → View
first_view i = record {
  maze_x_dim = i.maze_x_dim;
  maze_y_dim = i.maze_y_dim;
  map_x = show_min;
  map_y = show_min;
  pans = [];
}

abbrev pan : ℕ → ℕ → Line → View → View
pan x y line v = record v {
  map_x = x;
  map_y = y;
  pans = record { to_x = x; to_y = y; line = line } ∷ v.pans;
}

-- The comparisons are of `unsigned int`s, to which the player's place is converted.
abbrev pred : ℕ → ℕ
pred n = (n + u32_mod - 1) % u32_mod

unfoldable pub move_up : ℕ → View → ℕ × View
move_up ypos v =
    let y = pred ypos in
    if ltb y (v.map_y + block_dim * pan_border) && ltb show_min v.map_y
    then (y, pan v.map_x (v.map_y - 1) (horiz_line 0) v)
    else (y, v)

unfoldable pub move_right : ℕ → View → ℕ × View
move_right xpos v =
    let x = (xpos + 1) % u32_mod in
    if ltb (v.map_x + scroll_x_dim - block_dim * (pan_border + 1)) x
      && ltb (v.map_x + scroll_x_dim) ((2 * v.maze_x_dim + 1) * block_dim - show_min)
    then (x, pan (v.map_x + 1) v.map_y (vert_line (scroll_x_dim - 1)) v)
    else (x, v)

unfoldable pub move_down : ℕ → View → ℕ × View
move_down ypos v =
    let y = (ypos + 1) % u32_mod in
    if ltb (v.map_y + scroll_y_dim - block_dim * (pan_border + 1)) y
      && ltb (v.map_y + scroll_y_dim) ((2 * v.maze_y_dim + 1) * block_dim - show_min)
    then (y, pan v.map_x (v.map_y + 1) (horiz_line (scroll_y_dim - 1)) v)
    else (y, v)

unfoldable pub move_left : ℕ → View → ℕ × View
move_left xpos v =
    let x = pred xpos in
    if ltb x (v.map_x + block_dim * pan_border) && ltb show_min v.map_x
    then (x, pan (v.map_x - 1) v.map_y (vert_line 0) v)
    else (x, v)
