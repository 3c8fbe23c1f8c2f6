-- ===== src/Game/Level.antt =====
-- mp2_rthakk21/mazegame.c: the parameters of a level.
use ece391_sp.Prelude.{
  ℕ, ◌+◌, ◌-◌, ◌*◌, ◌/◌, ◌≤◌, ltb, if◌then◌else◌, ℤ, pos_part, sub_ℕ, ltb_ℤ, arith,
}
pub use ece391_sp.Maze.{block_dim}
pub use ece391_sp.Maze.Lines.{scroll_x_dim, scroll_y_dim}

abbrev pub show_min : ℕ
show_min = 6

abbrev pub pan_border : ℕ
pan_border = 5

abbrev pub max_level : ℕ
max_level = 10

abbrev pub maze_min_x_dim : ℕ
maze_min_x_dim = (scroll_x_dim + (block_dim - 1) + 2 * show_min) / (2 * block_dim)

abbrev pub maze_min_y_dim : ℕ
maze_min_y_dim = (scroll_y_dim + (block_dim - 1) + 2 * show_min) / (2 * block_dim)

-- `game_info_t`, less the view's place.
pub record LevelInfo : Type 0 where
  pub number : ℕ
  pub maze_x_dim : ℕ
  pub maze_y_dim : ℕ
  pub initial_fruit_count : ℕ
  pub time_to_first_fruit : ℕ
  pub time_between_fruits : ℕ
  pub tick_usec : ℕ

abbrev at_most : ℕ → ℕ → ℕ
at_most bound n = if ltb bound n then bound else n

abbrev at_least : ℕ → ℤ → ℕ
at_least bound z = if ltb_ℤ z bound then bound else pos_part z

-- The parameters that `prepare_maze_level` sets, for a level from 1 on.
unfoldable pub level_info : ℕ → LevelInfo
level_info number =
    let level = number - 1 in
    record {
      number = number;
      maze_x_dim = at_most 50 (maze_min_x_dim + 2 * level);
      maze_y_dim = at_most 30 (maze_min_y_dim + 2 * level);
      initial_fruit_count = at_most 6 (1 + level / 2);
      time_to_first_fruit = at_least 120 (sub_ℕ 300 (30 * level));
      time_between_fruits = at_least 60 (sub_ℕ 300 (60 * level));
      tick_usec = at_least 5000 (sub_ℕ 20000 (1750 * level));
    }

-- The ranges that the comments over `game_info_t` give, and a maze that fills the window.
pub record IsLevel (i : LevelInfo) : Type 0 where
  pub x_range : (14 ≤ i.maze_x_dim) × (i.maze_x_dim ≤ 50)
  pub y_range : (8 ≤ i.maze_y_dim) × (i.maze_y_dim ≤ 30)
  pub fruit_range : (1 ≤ i.initial_fruit_count) × (i.initial_fruit_count ≤ 6)
  pub first_range : (120 ≤ i.time_to_first_fruit) × (i.time_to_first_fruit ≤ 300)
  pub between_range : (60 ≤ i.time_between_fruits) × (i.time_between_fruits ≤ 300)
  pub tick_range : (5000 ≤ i.tick_usec) × (i.tick_usec ≤ 20000)
  pub x_fills : show_min + scroll_x_dim + show_min ≤ (2 * i.maze_x_dim + 1) * block_dim
  pub y_fills : show_min + scroll_y_dim + show_min ≤ (2 * i.maze_y_dim + 1) * block_dim

-- From level 1 on, every level's parameters are in the ranges that the structure's comments give, and its
-- maze fills the window.
pub level_info-IsLevel : (number : ℕ) → 1 ≤ number → IsLevel (level_info number)
unfolding level_info
level_info-IsLevel number h = ground arith
