-- ===== src/Game/Tests.antt =====
-- Runs of the maze game's model: a first level with two open squares.
use ece391_sp.Prelude.{
  fail, ◌<◌, pos, List, ℤ, zero, suc, ℕ, ◌+◌, ◌*◌, ◌/◌, ◌%◌, ◌≡◌, refl, ap, sym, ◌∙◌, arith, some,
  [], ◌∷◌, set, get_elem?, map, replicate, Bool, true, false, not, ◌&&◌, ◌||◌, ltb, ◌==◌, Option,
  none, pos, checked, checked-true,
}
use ece391_sp.Maze.{Maze, maze_index, wall}
use ece391_sp.Maze.Bounds.{IsMaze}
use ece391_sp.Maze.Fruits.{IsCounted}
use ece391_sp.Game.Level.{level_info}
use ece391_sp.Game.Visible.{IsSeen, IsView-IsSeen, first_view-IsView}
use ece391_sp.Game.Window.{first_view}
use ece391_sp.Game.Paint.{Screen, draw_full_block, draw_mask_block}
use ece391_sp.Game.Lines.{draw_horiz_line, draw_vert_line}
use ece391_sp.Game.Redraw.{IsRow, IsColumn, IsOutside, draw_line_lem}
use ece391_sp.Game.Undraw.{draw_full_block-draw_mask_block}
use ece391_sp.Game.Input.{keyboard_thread, tux_direction, dir_left, dir_stop}
use ece391_sp.Game.Around.{IsWalled}
use ece391_sp.Game.Tick.{Play}
use ece391_sp.Game.Steer.{IsGame}
use ece391_sp.Game.Run.{
  ticked, typed, pressed, start_level, start_level-IsGame, run, run-IsGame, IsOffWalls,
}
use ece391_sp.Game.Keys.{last_arrow, keyboard_thread_lem}
use ece391_sp.Game.Controller.{pressed_direction}
use ece391_sp.Tux.Driver.{button_byte}

-- Squares (1, 1) and (2, 1) are open, all others walls.
abbrev small : Maze
small = record {
  squares = set (set (replicate 6301 1) 57 0) 58 0;
  x_dim = 14;
  y_dim = 8;
  n_fruits = pos 0;
  exit_x = 28;
  exit_y = 1;
  drawn = [];
}

small-IsMaze : IsMaze small
small-IsMaze = record {
  wide = omega arith;
  x_max = omega arith;
  high = omega arith;
  y_max = omega arith;
  sized = refl;
  exit_inside = (omega arith, omega arith);
}

abbrev is_zero : Option ℕ → Bool
is_zero none = false
is_zero (some n) = n == 0

-- A square is a wall or inside.
abbrev wall_at : ℕ → ℕ → Bool
wall_at a b =
    not (is_zero (get_elem? (map wall small.squares) (maze_index small a b)))
    || ((ltb 0 a && ltb a 28) && (ltb 0 b && ltb b 16))

abbrev wall_test : ℕ → Bool
wall_test n = wall_at (n % 29) (n / 29)

wall_table : checked wall_test 493 ≡ true
unfolding checked
wall_table = refl

small-IsWalled : IsWalled small
small-IsWalled a b ha hb o =
    let n = a + 29 * b in
    let ea : n % 29 ≡ a = omega (arith, ha) in
    let eb : n / 29 ≡ b = omega (arith, ha) in
    let holds : wall_at a b ≡ true =
      ap (λ k. wall_at k b) (sym ea)
      ∙ ap (wall_at (n % 29)) (sym eb)
      ∙ checked-true wall_test 493 n (omega (arith, ha, hb)) wall_table in
    let passage : is_zero (get_elem? (map wall small.squares) (maze_index small a b)) ≡ true =
      ap is_zero o in
    ground (arith, holds, passage)

small-IsCounted : IsCounted small
small-IsCounted = refl

level_1 : (14 ≡ (level_info 1).maze_x_dim) × (8 ≡ (level_info 1).maze_y_dim)
unfolding level_info
level_1 = (refl, refl)

start_level-IsGame_example : (p : Play) × (start_level 1 small ≡ some p) × IsGame p
start_level-IsGame_example =
    start_level-IsGame 1 small (omega arith) small-IsMaze small-IsWalled small-IsCounted level_1.0
      level_1.1 refl

-- To the right, two pixels, and back.
run-IsGame_example :
    (q : Play) × (run
        (typed 67 2 ∷ ticked true ∷ ticked true ∷ pressed 0xBF ∷ ticked true ∷ [])
        start_level-IsGame_example.0
      ≡ some q)
    × IsGame q
    × IsOffWalls q
    × IsSeen q.view q.play_x q.play_y
run-IsGame_example =
    run-IsGame (typed 67 2 ∷ ticked true ∷ ticked true ∷ pressed 0xBF ∷ ticked true ∷ [])
      start_level-IsGame_example.0 start_level-IsGame_example.2

-- Up, and then the left arrow.
keyboard_thread_lem_example :
    (keyboard_thread
      (65 ∷ 27 ∷ 91 ∷ 68 ∷ 96 ∷ 27 ∷ [])
      (record { state = 0; next_dir = dir_stop; quit_flag = false })).next_dir
    ≡ last_arrow 0 0 (65 ∷ 27 ∷ 91 ∷ 68 ∷ 96 ∷ 27 ∷ []) dir_stop
keyboard_thread_lem_example =
    keyboard_thread_lem (65 ∷ 27 ∷ 91 ∷ 68 ∷ 96 ∷ 27 ∷ [])
      (record { state = 0; next_dir = dir_stop; quit_flag = false }) refl refl

pressed_direction_example : tux_direction (button_byte 0xFF 0xFD) dir_stop ≡ dir_left
pressed_direction_example = pressed_direction 0xFF 0xFD dir_stop

abbrev picture : Screen
picture = record { build = λ a. a % 256; img3 = 10000; show_x = 6; show_y = 6 }

first-IsSeen : IsSeen (first_view (level_info 1)) 12 12
first-IsSeen = IsView-IsSeen 12 12 (first_view-IsView 1 (omega arith))

-- The player on the square (1, 1) of the first level.
draw_full_block-draw_mask_block_example :
    (olds : List ℕ) × (s1 s2 : Screen) × (draw_mask_block 12 12
        (replicate 144 7)
        (replicate 144 1)
        picture
      ≡ some (olds, s1))
    × (draw_full_block 12 12 olds s1 ≡ some s2)
    × ((a : ℕ) → s2.build a ≡ a % 256)
unfolding first_view
draw_full_block-draw_mask_block_example =
    draw_full_block-draw_mask_block picture (first_view (level_info 1)) 12 12 (replicate 144 7)
      (replicate 144 1) refl refl first-IsSeen (omega arith) (omega arith)

-- Pixels whose colours count on from a number, a row of them, and a column.
abbrev ramp : ℕ → ℕ → List ℕ
ramp zero from = []
ramp (suc n) from = from ∷ ramp n (from + 1)

abbrev row_at : ℕ → ℕ → Option (List ℕ)
row_at x y = some (ramp 320 x)

abbrev column_at : ℕ → ℕ → Option (List ℕ)
column_at x y = some (ramp 182 y)

-- Line 3 of the window, and lines outside it.
draw_line_lem_example :
    (3 < 182
      → (build : ℕ → ℕ) × (draw_horiz_line row_at column_at (pos 3) picture
          ≡ some (pos 0, record picture { build = build }))
        × IsRow 10000 6 9 (ramp 320 6) (λ a. a % 256) build)
    × (3 < 320
        → (build : ℕ → ℕ) × (draw_vert_line row_at column_at (pos 3) picture
            ≡ some (pos 0, record picture { build = build }))
          × IsColumn 10000 9 6 (ramp 182 6) (λ a. a % 256) build)
    × ((z : ℤ)
        → IsOutside z 182
        → draw_horiz_line row_at column_at z picture ≡ some (fail, picture))
    × ((z : ℤ) → IsOutside z 320 → draw_vert_line row_at column_at z picture ≡ some (fail, picture))
draw_line_lem_example =
    draw_line_lem row_at column_at picture 3 (ramp 320 6) (ramp 182 6) refl refl refl refl
