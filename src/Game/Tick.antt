-- ===== src/Game/Tick.antt =====
-- mp2_rthakk21/mazegame.c: the round of `rtc_thread`'s inner loop that one tick runs, on the state that the
-- thread shares with the others. The status bar, the palette and the video memory are not part of it.
use ece391_sp.Prelude.{
  ℕ, ◌-◌, ◌/◌, List, [], ◌∷◌, Bool, true, not, ◌&&◌, ◌||◌, Option, some, ltb, ◌==◌, if◌then◌else◌,
  get_or, ℤ, pos, inc, dec, ◌>>=◌,
}
use ece391_sp.Maze.{Maze, check_for_fruit, unveil_space, check_for_win, find_open_directions}
use ece391_sp.Game.Level.{block_dim}
use ece391_sp.Game.Window.{View, move_up, move_right, move_down, move_left}
use ece391_sp.Game.Input.{dir_up, dir_right, dir_down, dir_left, dir_stop}

-- A picture of the player that is shown: its place and the direction that it faces.
pub record Frame : Type 0 where
  pub at_x : ℕ
  pub at_y : ℕ
  pub facing : ℕ

pub record Play : Type 0 where
  pub maze : Maze
  pub view : View
  pub play_x : ℕ
  pub play_y : ℕ
  pub dir : ℕ
  pub last_dir : ℕ
  pub next_dir : ℕ
  pub move_cnt : ℕ
  pub goto_next_level : Bool
  pub frames : List Frame

-- The squares that `unveil_around_player` unveils, in order.
abbrev pub around : ℤ → ℤ → List (ℤ × ℤ)
around x y =
    (dec x, dec y)
    ∷ (dec x, y)
    ∷ (dec x, inc y)
    ∷ (x, dec y)
    ∷ (x, y)
    ∷ (x, inc y)
    ∷ (inc x, dec y)
    ∷ (inc x, y)
    ∷ (inc x, inc y)
    ∷ (x, dec (dec y))
    ∷ (inc (inc x), y)
    ∷ (x, inc (inc y))
    ∷ (dec (dec x), y)
    ∷ []

unfoldable pub unveil_all : List (ℤ × ℤ) → Maze → Option Maze
unveil_all [] m = some m
unveil_all ((x, y) ∷ squares) m = do m1 ← unveil_space x y m; unveil_all squares m1

-- Whether the player wins, beside the maze.
unfoldable pub unveil_around_player : ℕ → ℕ → Maze → Option (ℕ × Maze)
unveil_around_player play_x play_y m = do
  let x = pos (play_x / block_dim)
  let y = pos (play_y / block_dim)
  (f, m1) ← check_for_fruit x y m
  m2 ← unveil_all (around x y) m1
  won ← check_for_win x y m2
  some (won, m2)

abbrev pub is_backwards : ℕ → ℕ → Bool
is_backwards dir next_dir =
    ((dir == dir_up) && (next_dir == dir_down))
    || ((dir == dir_down) && (next_dir == dir_up))
    || ((dir == dir_left) && (next_dir == dir_right))
    || ((dir == dir_right) && (next_dir == dir_left))

-- A player that is asked to turn back does so between two squares as well. BLOCK_X_DIM and BLOCK_Y_DIM are
-- the same, and `move_cnt` is not over them.
unfoldable pub turn_back : Play → Play
turn_back p =
    if not (p.next_dir == p.dir) && is_backwards p.dir p.next_dir
    then record p {
      move_cnt = (if ltb 0 p.move_cnt then block_dim - p.move_cnt else p.move_cnt);
      dir = p.next_dir;
    }
    else p

-- The direction from a square, for the ones that are open. `beyond` is the word after the four of `open`,
-- which is read when `next_dir` is DIR_STOP.
unfoldable pub steer : List Bool → Bool → Play → Play
steer open_dirs beyond p =
    let dir = if get_or open_dirs p.next_dir beyond then p.next_dir else p.dir in
    if dir == dir_stop
    then record p { dir = dir }
    else if get_or open_dirs dir beyond
    then record p { dir = dir; move_cnt = block_dim }
    else record p { dir = dir_stop }

-- What happens at a square of the maze, if the player is at one.
unfoldable pub at_square : Bool → Play → Option Play
at_square beyond p =
    let reached = do
      (won, m) ← unveil_around_player p.play_x p.play_y p.maze
      open_dirs ← find_open_directions (p.play_x / block_dim) (p.play_y / block_dim) m
      let on = steer open_dirs beyond (record p { maze = m })
      some (if not (won == 0) then record p { maze = m; goto_next_level = true } else on)
    in if p.move_cnt == 0 then reached else some p

abbrev pub show_player : Play → Play
show_player p = record p {
  frames = record { at_x = p.play_x; at_y = p.play_y; facing = p.last_dir } ∷ p.frames;
}

-- The switch on `dir`.
unfoldable pub step : Play → Play
step p =
    let (up, view_up) = move_up p.play_y p.view in
    let (right, view_right) = move_right p.play_x p.view in
    let (down, view_down) = move_down p.play_y p.view in
    let (left, view_left) = move_left p.play_x p.view in
    if p.dir == dir_up
    then record p { play_y = up; view = view_up }
    else if p.dir == dir_right
    then record p { play_x = right; view = view_right }
    else if p.dir == dir_down
    then record p { play_y = down; view = view_down }
    else if p.dir == dir_left
    then record p { play_x = left; view = view_left }
    else p

-- The motion of a pixel, if there is one.
unfoldable pub walk : Play → Play
walk p =
    if p.dir == dir_stop
    then p
    else show_player (step (record p { last_dir = p.dir; move_cnt = p.move_cnt - 1 }))

-- One tick. A level that is won ends the round at once.
unfoldable pub tick : Bool → Play → Option Play
tick beyond p = do
  p1 ← at_square beyond (turn_back p)
  some (if p1.goto_next_level then p1 else walk (show_player p1))
