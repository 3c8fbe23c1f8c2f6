-- ===== src/Game/Visible.antt =====
-- mp2_rthakk21/mazegame.c: the window stays in the maze and keeps the player in sight.
use ece391_sp.Prelude.{ℕ, ◌+◌, ◌-◌, ◌*◌, ◌≡◌, ◌≤◌, ◌<◌, ◌⊎◌, arith}
use ece391_sp.Game.Level.{
  level_info, level_info-IsLevel, show_min, scroll_x_dim, scroll_y_dim, block_dim, pan_border,
}
use ece391_sp.Game.Window.{View, first_view, move_up, move_right, move_down, move_left}

-- One axis of the window: `size` pixels from `map` on, of a maze of `total` pixels, with the player at `at`.
-- The window lies in the maze without its border, and is panned so that the player is `pan_border` blocks
-- from the window's edge, or the edge is the maze's.
pub record IsAxis (map size total at : ℕ) : Type 0 where
  pub low : show_min ≤ map
  pub high : map + size + show_min ≤ total
  pub from_low : (map + block_dim * pan_border ≤ at) ⊎ (map ≡ show_min)
  pub from_high : (at + block_dim * (pan_border + 1) ≤ map + size) ⊎ (map + size + show_min ≡ total)

abbrev pub total_x : View → ℕ
total_x v = (2 * v.maze_x_dim + 1) * block_dim

abbrev pub total_y : View → ℕ
total_y v = (2 * v.maze_y_dim + 1) * block_dim

-- The player's block lies in the maze within its outer walls.
pub record IsView (v : View) (x y : ℕ) : Type 0 where
  pub x_dim : v.maze_x_dim ≤ 50
  pub y_dim : v.maze_y_dim ≤ 30
  pub x_axis : IsAxis v.map_x scroll_x_dim (total_x v) x
  pub y_axis : IsAxis v.map_y scroll_y_dim (total_y v) y
  pub x_in : (block_dim ≤ x) × (x + 2 * block_dim ≤ total_x v)
  pub y_in : (block_dim ≤ y) × (y + 2 * block_dim ≤ total_y v)

-- The player's block lies in the window.
pub record IsSeen (v : View) (x y : ℕ) : Type 0 where
  pub left : v.map_x ≤ x
  pub right : x + block_dim ≤ v.map_x + scroll_x_dim
  pub top : v.map_y ≤ y
  pub bottom : y + block_dim ≤ v.map_y + scroll_y_dim

axis_seen :
    (map size total at : ℕ)
    → 132 ≤ size
    → IsAxis map size total at
    → (block_dim ≤ at) × (at + 2 * block_dim ≤ total)
    → (map ≤ at) × (at + block_dim ≤ map + size)
axis_seen map size total at big a p = ground (arith, a.from_low, a.from_high)

-- A window so placed shows the whole of the player's block.
pub IsView-IsSeen : {v : View} (x y : ℕ) → IsView v x y → IsSeen v x y
IsView-IsSeen {v} x y w =
    let (l, r) = axis_seen v.map_x scroll_x_dim (total_x v) x (omega arith) w.x_axis w.x_in in
    let (t, b) = axis_seen v.map_y scroll_y_dim (total_y v) y (omega arith) w.y_axis w.y_in in
    record { left = l; right = r; top = t; bottom = b }

-- At a level's start, with the player at (1, 1).
pub first_view-IsView :
    (number : ℕ) → 1 ≤ number → IsView (first_view (level_info number)) block_dim block_dim
unfolding first_view
first_view-IsView number h = let l = level_info-IsLevel number h in ground (arith, l)

-- A step to the right that the maze has room for, and so on.
pub move_right-IsView :
    {v : View} (x y : ℕ)
    → IsView v x y
    → x + 2 * block_dim < total_x v
    → ((move_right x v).0 ≡ x + 1) × IsView (move_right x v).1 (x + 1) y
unfolding move_right
move_right-IsView x y w free = ground arith

pub move_left-IsView :
    {v : View} (x y : ℕ)
    → IsView v x y
    → block_dim < x
    → ((move_left x v).0 ≡ x - 1) × IsView (move_left x v).1 (x - 1) y
unfolding move_left
move_left-IsView x y w free = ground arith

pub move_down-IsView :
    {v : View} (x y : ℕ)
    → IsView v x y
    → y + 2 * block_dim < total_y v
    → ((move_down y v).0 ≡ y + 1) × IsView (move_down y v).1 x (y + 1)
unfolding move_down
move_down-IsView x y w free = ground arith

pub move_up-IsView :
    {v : View} (x y : ℕ)
    → IsView v x y
    → block_dim < y
    → ((move_up y v).0 ≡ y - 1) × IsView (move_up y v).1 x (y - 1)
unfolding move_up
move_up-IsView x y w free = ground arith

-- No step changes the maze's dimensions.
pub move-dims :
    (at : ℕ) (v : View)
    → ((move_up at v).1.maze_x_dim ≡ v.maze_x_dim)
      × ((move_up at v).1.maze_y_dim ≡ v.maze_y_dim)
      × ((move_right at v).1.maze_x_dim ≡ v.maze_x_dim)
      × ((move_right at v).1.maze_y_dim ≡ v.maze_y_dim)
      × ((move_down at v).1.maze_x_dim ≡ v.maze_x_dim)
      × ((move_down at v).1.maze_y_dim ≡ v.maze_y_dim)
      × ((move_left at v).1.maze_x_dim ≡ v.maze_x_dim)
      × ((move_left at v).1.maze_y_dim ≡ v.maze_y_dim)
unfolding move_up move_right move_down move_left
move-dims at v = ground arith
