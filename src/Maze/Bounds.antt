-- ===== src/Maze/Bounds.antt =====
-- The accesses to the array of squares in mp2_rthakk21/maze.c.
use native.Mathlib.Nat
use ece391_sp.Prelude.{
  ℕ, zero, suc, ◌+◌, ◌-◌, ◌*◌, ◌<◌, ◌≤◌, ◌≡◌, refl, arith, some, List, [], ◌∷◌, length, get_elem?,
  if◌then◌else◌, ◌==◌, Bool, true, false, ◌&&◌, not, eqb_ℤ, pos,
}
use ece391_sp.Maze.{
  Maze, maze_index, square, square_up, square_left, wall, fruit, reach, exit_bit, block_empty,
  block_shadow, block_fruit_shadow, block_fruit_1, block_exit, wall_pattern, find_block, num_blocks,
}

abbrev pub maze_bytes : ℕ
maze_bytes = 6301

-- The dimensions that `make_maze` accepts, up to its least ones, and an array of 2 * 50 * (2 * 30 + 3) + 1.
pub record IsMaze (m : Maze) : Type 0 where
  pub wide : 0 < m.x_dim
  pub x_max : m.x_dim ≤ 50
  pub high : 0 < m.y_dim
  pub y_max : m.y_dim ≤ 30
  pub sized : length m.squares ≡ maze_bytes
  pub exit_inside : (m.exit_x ≤ 2 * m.x_dim) × (m.exit_y ≤ 2 * m.y_dim)

get_elem?-inside : (xs : List ℕ) (i : ℕ) → i < length xs → (c : ℕ) × (get_elem? xs i ≡ some c)
get_elem?-inside [] i h = absurd (omega (arith, h))
get_elem?-inside (x ∷ xs) zero h = (x, refl)
get_elem?-inside (x ∷ xs) (suc i) h = get_elem?-inside xs i (omega (arith, h))

-- The start of a row.
row : (m : Maze) (r k : ℕ) → IsMaze m → r ≤ k → r * m.x_dim ≤ k * 50
row m r k i h = Nat.mul-le-mul h i.x_max

row_pos : (m : Maze) (y : ℕ) → IsMaze m → 0 < (y + 1) * m.x_dim
row_pos m y i = Nat.mul-pos (omega arith) i.wide

at :
    (m : Maze) (index : ℕ)
    → IsMaze m
    → index ≤ 6300
    → (c : ℕ) × (get_elem? m.squares index ≡ some c)
at m index i h = get_elem?-inside m.squares index (omega (arith, i.sized, h))

-- All five squares that a block's picture depends on lie inside the array, also for a block on the right or
-- bottom boundary.
pub record IsStencil (m : Maze) (x y : ℕ) : Type 0 where
  pub here : (c : ℕ) × (square m x y ≡ some c)
  pub up : (c : ℕ) × (square_up m x y ≡ some c)
  pub right : (c : ℕ) × (square m (x + 1) y ≡ some c)
  pub down : (c : ℕ) × (square m x (y + 1) ≡ some c)
  pub left : (c : ℕ) × (square_left m x y ≡ some c)

pub inside-IsStencil :
    (m : Maze) (x y : ℕ) → IsMaze m → x ≤ 2 * m.x_dim → y ≤ 2 * m.y_dim → IsStencil m x y
inside-IsStencil m x y i hx hy =
    let r0 = row m y 60 i (omega (arith, hy, i.y_max)) in
    let r1 = row m (y + 1) 61 i (omega (arith, hy, i.y_max)) in
    let r2 = row m (y + 1 + 1) 62 i (omega (arith, hy, i.y_max)) in
    let p = row_pos m y i in
    record {
      here = at m (maze_index m x y) i (omega (arith, r1, hx, i.x_max));
      up = at m (x + y * m.x_dim * 2) i (omega (arith, r0, hx, i.x_max));
      right = at m (maze_index m (x + 1) y) i (omega (arith, r1, hx, i.x_max));
      down = at m (maze_index m x (y + 1)) i (omega (arith, r2, hx, i.x_max));
      left =
          let ne : (maze_index m x y == 0) ≡ false = ground (arith, p) in
          let (c, e) = at m (maze_index m x y - 1) i (omega (arith, r1, hx, i.x_max)) in
          (c, rw ne e);
    }

wall_pattern_lem :
    (m : Maze) (x y : ℕ) → IsStencil m x y → (p : ℕ) × (wall_pattern m x y ≡ some p) × (p < 16)
unfolding wall_pattern
wall_pattern_lem m x y s =
    let (a, ea) = s.up in
    let (b, eb) = s.right in
    let (c, ec) = s.down in
    let (d, ed) = s.left in
    (wall a + wall b * 2 + wall c * 4 + wall d * 8, rw (ea, eb, ec, ed) refl, omega arith)

-- The choice of the block, by the tests in their order.
choice_lem :
    (is_exit hidden plain passage : Bool) (f p : ℕ)
    → f < 8
    → p < 16
    → (b : ℕ) × ((if is_exit
          then some block_exit
          else if hidden
          then some (if plain then block_shadow else block_fruit_shadow)
          else if not plain
          then some (block_fruit_1 + f - 1)
          else if passage
          then some block_empty
          else some p)
        ≡ some b)
      × (b < num_blocks)
choice_lem true hidden plain passage f p hf hp = (_, refl, omega arith)
choice_lem false true true passage f p hf hp = (_, refl, omega arith)
choice_lem false true false passage f p hf hp = (_, refl, omega arith)
choice_lem false false false passage f p hf hp = (_, refl, omega (arith, hf))
choice_lem false false true true f p hf hp = (_, refl, omega arith)
choice_lem false false true false f p hf hp = (p, refl, omega (arith, hp))

-- For every square of the maze, its right and bottom boundaries included, the picture is found without an
-- access outside the array, and is one of the blocks.
pub find_block_lem :
    (m : Maze) (x y : ℕ)
    → IsMaze m
    → x ≤ 2 * m.x_dim
    → y ≤ 2 * m.y_dim
    → (b : ℕ) × (find_block m x y ≡ some b) × (b < num_blocks)
unfolding find_block
find_block_lem m x y i hx hy =
    let s = inside-IsStencil m x y i hx hy in
    let (c, e) = s.here in
    let (p, pattern, small) = wall_pattern_lem m x y s in
    rw (e, pattern)
      (choice_lem (eqb_ℤ m.n_fruits (pos 0) && exit_bit c == 1) (reach c == 0) (fruit c == 0)
        (wall c == 0) (fruit c) p (omega arith) small)
