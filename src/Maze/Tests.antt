-- ===== src/Maze/Tests.antt =====
-- Runs on a maze of 2 by 2 squares with one fruit, beside the exit.
use mathlib.Core.Option
use ece391_sp.Prelude.{
  ◌⊎◌, inl, inr, ap, sym, ◌∙◌, ◌==◌, ◌||◌, Bool, true, ℕ, ◌+◌, ◌*◌, ◌≡◌, refl, arith, some, [], ◌∷◌,
  ◌++◌, replicate, get_elem?, pos,
}
use ece391_sp.Maze.{
  Maze, square, fruit, exit_bit, find_block, wall_pattern, eat, check_for_fruit, check_for_win,
}
use ece391_sp.Maze.Bounds.{IsMaze}
use ece391_sp.Maze.Fruits.{IsCounted}
use ece391_sp.Maze.Play.{new, later, visit, check_for_win-Played}
use ece391_sp.Maze.Mark.{mark_maze_area, mark_loop, explore, look}
use ece391_sp.Maze.Mark.Reach.{IsLattice, IsOpenSquare, unseen, mark_maze_area_lem}
use ece391_sp.Maze.Lines.{
  fill_horiz_buffer, fill_vert_buffer, each_pixel, pixel_at, scroll_x_dim, scroll_y_dim,
  fill_buffer_lem,
}

-- Fruit 3 at (1, 1) and the exit at (3, 1); all else is wall.
abbrev start : Maze
start = record {
  squares = replicate 9 1 ++ (6 ∷ 1 ∷ 16 ∷ replicate 6289 1);
  x_dim = 2;
  y_dim = 2;
  n_fruits = pos 1;
  exit_x = 3;
  exit_y = 1;
  drawn = [];
}

start-IsMaze : IsMaze start
start-IsMaze = record {
  wide = omega arith;
  x_max = omega arith;
  high = omega arith;
  y_max = omega arith;
  sized = refl;
  exit_inside = (omega arith, omega arith);
}

start-IsCounted : IsCounted start
start-IsCounted = refl

eaten : (m' : Maze) × (check_for_fruit (pos 1) (pos 1) start ≡ some (3, m'))
unfolding check_for_fruit eat find_block wall_pattern
eaten = (_, refl)

won : check_for_win (pos 3) (pos 1) eaten.0 ≡ some 1
unfolding check_for_win eaten
won = refl

check_for_win-Played_example :
    ((a b c : ℕ) × (pos 3 ≡ pos a)
      × (pos 1 ≡ pos b)
      × (square eaten.0 a b ≡ some c)
      × (exit_bit c ≡ 1))
    × ((i c : ℕ) → get_elem? eaten.0.squares i ≡ some c → fruit c ≡ 0)
check_for_win-Played_example =
    check_for_win-Played start eaten.0 (pos 3) (pos 1) start-IsCounted
      (later new (visit (pos 1) (pos 1) 3 eaten.1)) won

abbrev picture : ℕ → ℕ → ℕ → ℕ
picture block row column = block * 144 + row * 12 + column

fill_buffer_lem_example :
    (fill_horiz_buffer picture start 5 7
      ≡ each_pixel (λ x'. pixel_at picture start x' 7) scroll_x_dim 5)
    × (fill_vert_buffer picture start 5 7
        ≡ each_pixel (λ y'. pixel_at picture start 5 y') scroll_y_dim 7)
fill_buffer_lem_example = fill_buffer_lem picture start 5 7

-- Two lattice points, 9 and 11, with an open square between them.
abbrev corridor : Maze
corridor = record start { squares = replicate 9 1 ++ (0 ∷ 0 ∷ 0 ∷ replicate 18 1) }

abbrev in_corridor : ℕ → Bool
in_corridor i = i == 9 || i == 11

ends : (i : ℕ) → in_corridor i ≡ true → (i ≡ 9) ⊎ (i ≡ 11)
ends i h = ground arith

closed : (i : ℕ) → get_elem? corridor.squares i ≡ some 1 → IsOpenSquare corridor.squares i → ⊥
closed i h (c, at, free) =
    let same : c ≡ 1 = ap (λ o. Option.get_or o c) (sym at ∙ h) in omega (arith, same, free)

corridor-IsLattice : IsLattice 2 corridor.squares in_corridor
corridor-IsLattice = record {
  inside = λ i p. elim (ends i p) [
    | inl e ↦ (omega (arith, e), omega (arith, e), omega (arith, e), omega (arith, e))
    | inr e ↦ (omega (arith, e), omega (arith, e), omega (arith, e), omega (arith, e))
  ];
  up = λ i p. elim (ends i p) [
    | inl e ↦ rw e (λ o. absurd (closed 5 refl o))
    | inr e ↦ rw e (λ o. absurd (closed 7 refl o))
  ];
  right = λ i p. elim (ends i p) [
    | inl e ↦ rw e (λ o. refl)
    | inr e ↦ rw e (λ o. absurd (closed 12 refl o))
  ];
  down = λ i p. elim (ends i p) [
    | inl e ↦ rw e (λ o. absurd (closed 13 refl o))
    | inr e ↦ rw e (λ o. absurd (closed 15 refl o))
  ];
  left = λ i p. elim (ends i p) [
    | inl e ↦ rw e (λ o. absurd (closed 8 refl o))
    | inr e ↦ rw e (λ o. (omega arith, refl))
  ];
}

mark_maze_area_lem_example :
    (marked : ℕ) × (m' : Maze) × (mark_maze_area 3 1 1 corridor ≡ some (marked, m'))
    × (marked + unseen in_corridor 0 m'.squares ≡ 2)
mark_maze_area_lem_example =
    mark_maze_area_lem 3 1 1 0 corridor in_corridor corridor-IsLattice (omega arith) (omega arith)
      refl refl refl

two_marked : (m' : Maze) × (mark_maze_area 3 1 1 corridor ≡ some (2, m'))
unfolding mark_maze_area mark_loop explore look
two_marked = (_, refl)
