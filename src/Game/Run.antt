-- ===== src/Game/Run.antt =====
-- mp2_rthakk21/mazegame.c: levels of the game, from their start on and with the other threads' inputs
-- between the ticks.
use ece391_sp.Prelude.{
  ℕ, ◌+◌, ◌*◌, ◌/◌, ◌≡◌, ◌≤◌, ◌<◌, inl, inr, refl, sym, ◌∙◌, arith, List, [], ◌∷◌, Bool, false,
  some, Option, ◌>>=◌, if◌then◌else◌, Bool-cases,
}
use native.Mathlib.Decide.{dec_lt}
use ece391_sp.Maze.{Maze}
use ece391_sp.Maze.Bounds.{IsMaze}
use ece391_sp.Maze.Fruits.{IsCounted}
use ece391_sp.Game.Level.{level_info, block_dim}
use ece391_sp.Game.Window.{first_view}
use ece391_sp.Game.Visible.{IsSeen, IsView-IsSeen, first_view-IsView}
use ece391_sp.Game.Input.{Keys, arrow, on_key, tux_direction, dir_up, dir_stop}
use ece391_sp.Game.Around.{
  IsOpen, IsWalled, IsSame-IsOpen, IsSame-IsWalled, unveil_around_player_lem,
}
use ece391_sp.Game.Grid.{Place, on_square, going_up, going_down, going_left, going_right}
use ece391_sp.Game.Tick.{Play, tick, unveil_around_player, show_player}
use ece391_sp.Game.Steer.{IsGame}
use ece391_sp.Game.Motion.{tick-IsGame}

-- The values at a level's start, with the player shown.
abbrev first_play : ℕ → Maze → Play
first_play level m = show_player (record {
  maze = m;
  view = first_view (level_info level);
  play_x = block_dim;
  play_y = block_dim;
  dir = dir_stop;
  last_dir = dir_up;
  next_dir = dir_stop;
  move_cnt = 0;
  goto_next_level = false;
  frames = [];
})

-- The start of a level, in the maze that `make_maze` has made for it.
unfoldable pub start_level : ℕ → Maze → Option Play
start_level level m = do
  (won, m1) ← unveil_around_player block_dim block_dim m
  some (first_play level m1)

-- The loop over the ticks that have come, each with the word after `open` that it reads.
unfoldable pub run_ticks : List Bool → Play → Option Play
run_ticks [] p = some p
run_ticks (beyond ∷ ticks) p = do
  q ← tick beyond p
  if q.goto_next_level then some q else run_ticks ticks q

-- What happens to the shared state: ticks, keys and buttons, in any order.
pub data Event : Type 0 where
  ticked : Bool → Event
  typed : ℕ → ℕ → Event
  pressed : ℕ → Event

-- A key comes with the keyboard thread's state.
unfoldable pub next : Event → Play → Option Play
next (ticked beyond) p = tick beyond p
next (typed key state) p =
    let keys : Keys = record { state = state; next_dir = p.next_dir; quit_flag = false } in
    some (record p { next_dir = (on_key key keys).next_dir })
next (pressed buttons) p = some (record p { next_dir = tux_direction buttons p.next_dir })

unfoldable pub run : List Event → Play → Option Play
run [] p = some p
run (e ∷ es) p = do q ← next e p; run es q

-- The player's block lies on squares that are no walls, every pixel of it.
pub IsOffWalls : Play → Type 0
IsOffWalls p =
    (i j : ℕ)
    → p.play_x ≤ i
    → i < p.play_x + block_dim
    → p.play_y ≤ j
    → j < p.play_y + block_dim
    → IsOpen p.maze (i / block_dim) (j / block_dim)

at_quotients :
    (m : Maze) (a b i j : ℕ)
    → i / block_dim ≡ a
    → j / block_dim ≡ b
    → IsOpen m a b
    → IsOpen m (i / block_dim) (j / block_dim)
at_quotients m a b i j ei ej o = rw (ei, ej) o

Place-IsOffWalls : (p : Play) → Place p.maze p.dir p.move_cnt p.play_x p.play_y → IsOffWalls p
unfolding IsOffWalls
Place-IsOffWalls p (on_square a b e ex ey o) i j li hi lj hj =
    at_quotients p.maze a b i j (omega (arith, ex, li, hi)) (omega (arith, ey, lj, hj)) o
Place-IsOffWalls p (going_up a b e small ex ey o n) i j li hi lj hj =
    elim (dec_lt j (block_dim * (b + 1))) [
      | yes low ↦
          at_quotients p.maze a b i j (omega (arith, ex, li, hi)) (omega (arith, ey, lj, hj, low)) o
      | no high ↦
          at_quotients p.maze a (b + 1) i j (omega (arith, ex, li, hi))
            (omega (arith, ey, lj, hj, high, small)) n
    ]
Place-IsOffWalls p (going_down a b e small ex ey o n) i j li hi lj hj =
    elim (dec_lt j (block_dim * (b + 1))) [
      | yes low ↦
          at_quotients p.maze a b i j (omega (arith, ex, li, hi))
            (omega (arith, ey, lj, hj, low, small)) o
      | no high ↦
          at_quotients p.maze a (b + 1) i j (omega (arith, ex, li, hi))
            (omega (arith, ey, lj, hj, high)) n
    ]
Place-IsOffWalls p (going_left a b e small ex ey o n) i j li hi lj hj =
    elim (dec_lt i (block_dim * (a + 1))) [
      | yes low ↦
          at_quotients p.maze a b i j (omega (arith, ex, li, hi, low)) (omega (arith, ey, lj, hj)) o
      | no high ↦
          at_quotients p.maze (a + 1) b i j (omega (arith, ex, li, hi, high, small))
            (omega (arith, ey, lj, hj)) n
    ]
Place-IsOffWalls p (going_right a b e small ex ey o n) i j li hi lj hj =
    elim (dec_lt i (block_dim * (a + 1))) [
      | yes low ↦
          at_quotients p.maze a b i j (omega (arith, ex, li, hi, low, small))
            (omega (arith, ey, lj, hj)) o
      | no high ↦
          at_quotients p.maze (a + 1) b i j (omega (arith, ex, li, hi, high))
            (omega (arith, ey, lj, hj)) n
    ]

on_key_dir : (key : ℕ) (k : Keys) → k.next_dir ≤ 4 → (on_key key k).next_dir ≤ 4
unfolding on_key arrow
on_key_dir key k h = ground (arith, h)

tux_direction_dir : (buttons d : ℕ) → d ≤ 4 → tux_direction buttons d ≤ 4
unfolding tux_direction
tux_direction_dir buttons d h = ground (arith, h)

asked-IsGame : (p : Play) (d : ℕ) → d ≤ 4 → IsGame p → IsGame (record p { next_dir = d })
asked-IsGame p d h g = record {
  maze_valid = g.maze_valid;
  walled = g.walled;
  counted = g.counted;
  placed = g.placed;
  view_valid = g.view_valid;
  same_width = g.same_width;
  same_height = g.same_height;
  dir_valid = g.dir_valid;
  next_valid = h;
}

next-IsGame : (e : Event) (p : Play) → IsGame p → (q : Play) × (next e p ≡ some q) × IsGame q
unfolding next
next-IsGame (ticked beyond) p g = tick-IsGame beyond p g
next-IsGame (typed key state) p g = (_, refl, asked-IsGame p _ (on_key_dir key _ g.next_valid) g)
next-IsGame (pressed buttons) p g =
    (_, refl, asked-IsGame p _ (tux_direction_dir buttons p.next_dir g.next_valid) g)

-- In a game in progress any sequence of ticks, keys and buttons runs without an access outside the maze's
-- array. The game is in progress after it, no pixel of the player's block lies on a wall, and the whole of
-- the block is in the window.
pub run-IsGame :
    (es : List Event) (p : Play)
    → IsGame p
    → (q : Play) × (run es p ≡ some q) × IsGame q × IsOffWalls q × IsSeen q.view q.play_x q.play_y
unfolding run
run-IsGame [] p g =
    (p, refl, g, Place-IsOffWalls p g.placed, IsView-IsSeen p.play_x p.play_y g.view_valid)
run-IsGame (e ∷ es) p g =
    let (q, runs, g1) = next-IsGame e p g in
    let (r, rest, g2, off, seen) = run-IsGame es q g1 in (r, rw runs rest, g2, off, seen)

-- The ticks that have come run, up to the one that wins the level.
pub run_ticks-IsGame :
    (ticks : List Bool) (p : Play) → IsGame p → (q : Play) × (run_ticks ticks p ≡ some q) × IsGame q
unfolding run_ticks
run_ticks-IsGame [] p g = (p, refl, g)
run_ticks-IsGame (beyond ∷ ticks) p g =
    let (q, e, g1) = tick-IsGame beyond p g in
    elim (Bool-cases q.goto_next_level) [
      | inl won ↦ (q, rw (e, won), g1)
      | inr on ↦ let (r, rest, g2) = run_ticks-IsGame ticks q g1 in (r, rw (e, on) rest, g2)
    ]

-- A level starts, from level 1 on, with the player on the square (1, 1) of a maze of the level's
-- dimensions, if that square is open and the maze is walled and its fruits are counted.
pub start_level-IsGame :
    (level : ℕ) (m : Maze)
    → 1 ≤ level
    → IsMaze m
    → IsWalled m
    → IsCounted m
    → m.x_dim ≡ (level_info level).maze_x_dim
    → m.y_dim ≡ (level_info level).maze_y_dim
    → IsOpen m 1 1
    → (p : Play) × (start_level level m ≡ some p) × IsGame p
unfolding start_level first_view
start_level-IsGame level m h i w c ex ey o =
    let (pa, ha, pb, hb) = w 1 1 (omega (arith, i.wide)) (omega (arith, i.high)) o in
    let (won, m1, e, s, c1) =
      unveil_around_player_lem block_dim block_dim m i c (omega (arith, ha)) (omega (arith, hb)) in
    (
      first_play level m1,
      rw e refl,
      record {
        maze_valid = s.valid;
        walled = IsSame-IsWalled s w;
        counted = c1;
        placed = on_square 1 1 refl refl refl (IsSame-IsOpen 1 1 s o);
        view_valid = first_view-IsView level h;
        same_width = sym ex ∙ sym s.width;
        same_height = sym ey ∙ sym s.height;
        dir_valid = omega arith;
        next_valid = omega arith;
      },
    )
