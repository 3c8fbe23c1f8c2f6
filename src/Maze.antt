-- ===== src/Maze.antt =====
-- The squares of the maze game, mp2_rthakk21/maze.c: what a square shows, and what the player's moves do to
-- it. Blocks are numbered as in blocks.h, and a call of `draw_full_block` is an entry of a log.
pub mod Bounds
pub mod Fruits
pub mod Eat
pub mod Play
pub mod Lines
pub mod Mark
mod Tests
use ece391_sp.Prelude.{
  ℕ, ◌+◌, ◌-◌, ◌*◌, ◌/◌, ◌%◌, ◌==◌, ltb, if◌then◌else◌, Bool, true, false, not, ◌&&◌, ◌||◌, Option,
  none, some, List, [], ◌∷◌, get_elem?, set, drop, ℤ, pos, negsuc, inc, dec, eqb_ℤ,
}
use ece391_sp.Strings.{◌>>=◌}

-- A block drawn at a pixel of the map.
pub record Draw : Type 0 where
  pub pixel_x : ℕ
  pub pixel_y : ℕ
  pub block : ℕ

-- The globals of maze.c, and the blocks drawn, the last one first.
pub record Maze : Type 0 where
  pub squares : List ℕ
  pub x_dim : ℕ
  pub y_dim : ℕ
  pub n_fruits : ℤ
  pub exit_x : ℕ
  pub exit_y : ℕ
  pub drawn : List Draw

-- The bits of a square: MAZE_WALL is 1, MAZE_FRUIT the three bits from 2 on, MAZE_EXIT 16 and MAZE_REACH 128.
abbrev pub wall : ℕ → ℕ
wall c = c % 2

abbrev pub fruit : ℕ → ℕ
fruit c = c / 2 % 8

abbrev pub exit_bit : ℕ → ℕ
exit_bit c = c / 16 % 2

abbrev pub reach : ℕ → ℕ
reach c = c / 128 % 2

abbrev pub without_fruit : ℕ → ℕ
without_fruit c = c - fruit c * 2

abbrev pub with_reach : ℕ → ℕ
with_reach c = if reach c == 0 then c + 128 else c

-- `MAZE_INDEX`
abbrev pub maze_index : Maze → ℕ → ℕ → ℕ
maze_index m a b = a + (b + 1) * m.x_dim * 2

abbrev pub square : Maze → ℕ → ℕ → Option ℕ
square m x y = get_elem? m.squares (maze_index m x y)

-- The squares above and to the left, which for y = 0 and x = 0 are in the row above the maze and at the end
-- of the row before.
abbrev pub square_up : Maze → ℕ → ℕ → Option ℕ
square_up m x y = get_elem? m.squares (x + y * m.x_dim * 2)

abbrev pub square_left : Maze → ℕ → ℕ → Option ℕ
square_left m x y =
    if maze_index m x y == 0 then none else get_elem? m.squares (maze_index m x y - 1)

abbrev pub put_square : Maze → ℕ → ℕ → ℕ → Maze
put_square m x y c = record m { squares = set m.squares (maze_index m x y) c }

abbrev pub block_empty : ℕ
block_empty = 16

abbrev pub block_shadow : ℕ
block_shadow = 17

abbrev pub block_player_up : ℕ
block_player_up = 18

abbrev pub block_player_mask_up : ℕ
block_player_mask_up = 22

abbrev pub block_fruit_1 : ℕ
block_fruit_1 = 26

abbrev pub block_fruit_shadow : ℕ
block_fruit_shadow = 33

abbrev pub block_exit : ℕ
block_exit = 34

abbrev pub num_blocks : ℕ
num_blocks = 35

abbrev pub num_fruit_types : ℕ
num_fruit_types = 7

-- The walls around a square, as a number of four bits.
unfoldable pub wall_pattern : Maze → ℕ → ℕ → Option ℕ
wall_pattern m x y = do
  up ← square_up m x y
  right ← square m (x + 1) y
  down ← square m x (y + 1)
  left ← square_left m x y
  some (wall up + wall right * 2 + wall down * 4 + wall left * 8)

-- `find_block`, by the block's number.
unfoldable pub find_block : Maze → ℕ → ℕ → Option ℕ
find_block m x y = do
  c ← square m x y
  if eqb_ℤ m.n_fruits (pos 0) && exit_bit c == 1
      then some block_exit
      else if reach c == 0
      then some (if fruit c == 0 then block_shadow else block_fruit_shadow)
      else if not (fruit c == 0)
      then some (block_fruit_1 + fruit c - 1)
      else if wall c == 0
      then some block_empty
      else wall_pattern m x y

abbrev pub block_dim : ℕ
block_dim = 12

-- A square drawn again.
abbrev pub redraw : ℕ → ℕ → Maze → Option Maze
redraw x y m = do
  b ← find_block m x y
  some (record m {
    drawn = record { pixel_x = x * block_dim; pixel_y = y * block_dim; block = b } ∷ m.drawn;
  })

-- `unveil_space`
unfoldable pub unveil_space : ℤ → ℤ → Maze → Option Maze
unveil_space (negsuc x) y m = some m
unveil_space (pos x) (negsuc y) m = some m
unveil_space (pos x) (pos y) m =
    let seen = do
      c ← square m x y
      if reach c == 0 then redraw x y (put_square m x y (with_reach c)) else some m
    in if ltb (2 * m.x_dim) x || ltb (2 * m.y_dim) y then some m else seen

-- What `check_for_fruit` does with a square: the fruit found and the maze after it.
unfoldable pub eat : ℕ → ℕ → Maze → Option (ℕ × Maze)
eat x y m = do
  c ← square m x y
  let eaten = put_square m x y (without_fruit c)
  let m1 = record eaten { n_fruits = dec m.n_fruits }
  let shown = do
    m2 ← if eqb_ℤ m1.n_fruits (pos 0) then redraw m1.exit_x m1.exit_y m1 else some m1
    m3 ← redraw x y m2
    some (fruit c, m3)
  if fruit c == 0 then some (0, m) else shown

unfoldable pub check_for_fruit : ℤ → ℤ → Maze → Option (ℕ × Maze)
unfolding eat
check_for_fruit (negsuc x) y m = some (0, m)
check_for_fruit (pos x) (negsuc y) m = some (0, m)
check_for_fruit (pos x) (pos y) m =
    if not (ltb x (2 * m.x_dim)) || not (ltb y (2 * m.y_dim)) then some (0, m) else eat x y m

-- `check_for_win`
unfoldable pub check_for_win : ℤ → ℤ → Maze → Option ℕ
check_for_win (negsuc x) y m = some 0
check_for_win (pos x) (negsuc y) m = some 0
check_for_win (pos x) (pos y) m =
    let exit = do c ← square m x y; some (exit_bit c)
    in if not (ltb x (2 * m.x_dim)) || not (ltb y (2 * m.y_dim))
      then some 0
      else if eqb_ℤ m.n_fruits (pos 0)
      then exit
      else some 0

-- The loop of `_add_a_fruit` over the values that `random` gives: the place and the values that are left.
unfoldable pub pick_place : List ℕ → Maze → Option (ℕ × ℕ × List ℕ)
pick_place (a ∷ b ∷ randoms) m =
    let x = a % m.x_dim * 2 + 1 in
    let y = b % m.y_dim * 2 + 1 in
    let later = pick_place randoms m in
    square m x y >>= (λ c. if fruit c == 0 then some (x, y, randoms) else later)
pick_place _ m = none

-- `_add_a_fruit`. The place picked has no fruit, so that the bits of the new one are added.
unfoldable pub add_fruit : Bool → List ℕ → Maze → Option (Maze × List ℕ)
unfolding pick_place
add_fruit show randoms m = do
  (x, y, rest) ← pick_place randoms m
  kind ← get_elem? rest 0
  c ← square m x y
  let added = put_square m x y (c + (kind % num_fruit_types + 1) * 2)
  let m1 = record added { n_fruits = inc m.n_fruits }
  m2 ← if show then redraw x y m1 else some m1
  some (m2, drop 1 rest)

-- `add_a_fruit`
unfoldable pub add_a_fruit : List ℕ → Maze → Option (ℤ × Maze)
unfolding add_fruit
add_a_fruit randoms m = do
  (m1, rest) ← add_fruit true randoms m
  m2 ← if eqb_ℤ m1.n_fruits (pos 1) then redraw m1.exit_x m1.exit_y m1 else some m1
  some (m2.n_fruits, m2)

-- `find_open_directions`, for up, right, down and left.
unfoldable pub find_open_directions : ℕ → ℕ → Maze → Option (List Bool)
find_open_directions x y m = do
  up ← square_up m x y
  right ← square m (x + 1) y
  down ← square m x (y + 1)
  left ← square_left m x y
  some ((wall up == 0) ∷ (wall right == 0) ∷ (wall down == 0) ∷ (wall left == 0) ∷ [])

-- `get_player_block` and `get_player_mask`
abbrev pub get_player_block : ℕ → ℕ
get_player_block cur_dir = block_player_up + cur_dir

abbrev pub get_player_mask : ℕ → ℕ
get_player_mask cur_dir = block_player_mask_up + cur_dir
