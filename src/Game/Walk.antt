-- ===== src/Game/Walk.antt =====
-- mp2_rthakk21/mazegame.c: a pixel's motion keeps the invariant of a game in progress.
use ece391_sp.Prelude.{
  ℕ, ◌+◌, ◌-◌, ◌*◌, ◌≡◌, ◌≢◌, ◌<◌, ◌⊎◌, inl, inr, ◌∙◌, arith, ◌∷◌, ◌==◌, Bool-cases,
}
use ece391_sp.Game.Level.{block_dim}
use ece391_sp.Game.Window.{View, move_up, move_right, move_down, move_left}
use ece391_sp.Game.Visible.{
  IsView, total_x, total_y, move_up-IsView, move_right-IsView, move_down-IsView, move_left-IsView,
  move-dims,
}
use ece391_sp.Game.Input.{dir_up, dir_right, dir_down, dir_left, dir_stop}
use ece391_sp.Game.Around.{IsOpen}
use ece391_sp.Game.Grid.{Place, on_square, going_up, going_down, going_left, going_right}
use ece391_sp.Game.Tick.{Play, step, walk}
use ece391_sp.Game.Steer.{IsGame, IsReady, inside, drawn-IsGame}

-- A pixel further in the player's direction, and that there is room for it.
module _ (p : Play) (g : IsGame p) (more : 0 < p.move_cnt) where
  abbrev Free : (a b : ℕ) → Type 0
  Free a b = (0 < a) × (a < 2 * p.maze.x_dim) × (0 < b) × (b < 2 * p.maze.y_dim)

  free :
      (a b : ℕ)
      → block_dim * a < total_x p.view
      → block_dim * b < total_y p.view
      → IsOpen p.maze a b
      → Free a b
  free a b hx hy o = inside p.maze p.view a b g.walled g.same_width g.same_height hx hy o

  up_place :
      p.dir ≡ dir_up
      → Place p.maze p.dir p.move_cnt p.play_x p.play_y
      → Place p.maze p.dir (p.move_cnt - 1) p.play_x (p.play_y - 1) × (block_dim < p.play_y)
  up_place d (on_square a b e ex ey o) = absurd (omega (arith, more, e))
  up_place d (going_up a b e small ex ey o n) =
      let (_, _, pb, _) =
        free a b (omega (arith, ex, g.view_valid.x_in)) (omega (arith, ey, g.view_valid.y_in)) o in
      (
        going_up a b e (omega (arith, small)) ex (omega (arith, ey, more)) o n,
        omega (arith, ey, more, pb),
      )
  up_place d (going_down a b e small ex ey o n) = absurd (omega (arith, d, e))
  up_place d (going_left a b e small ex ey o n) = absurd (omega (arith, d, e))
  up_place d (going_right a b e small ex ey o n) = absurd (omega (arith, d, e))

  left_place :
      p.dir ≡ dir_left
      → Place p.maze p.dir p.move_cnt p.play_x p.play_y
      → Place p.maze p.dir (p.move_cnt - 1) (p.play_x - 1) p.play_y × (block_dim < p.play_x)
  left_place d (on_square a b e ex ey o) = absurd (omega (arith, more, e))
  left_place d (going_left a b e small ex ey o n) =
      let (pa, _, _, _) =
        free a b (omega (arith, ex, g.view_valid.x_in)) (omega (arith, ey, g.view_valid.y_in)) o in
      (
        going_left a b e (omega (arith, small)) (omega (arith, ex, more)) ey o n,
        omega (arith, ex, more, pa),
      )
  left_place d (going_down a b e small ex ey o n) = absurd (omega (arith, d, e))
  left_place d (going_up a b e small ex ey o n) = absurd (omega (arith, d, e))
  left_place d (going_right a b e small ex ey o n) = absurd (omega (arith, d, e))

  down_place :
      p.dir ≡ dir_down
      → Place p.maze p.dir p.move_cnt p.play_x p.play_y
      → Place p.maze p.dir (p.move_cnt - 1) p.play_x (p.play_y + 1)
        × (p.play_y + 2 * block_dim < total_y p.view)
  down_place d (on_square a b e ex ey o) = absurd (omega (arith, more, e))
  down_place d (going_down a b e small ex ey o n) =
      let (_, _, _, hb) =
        free a (b + 1) (omega (arith, ex, g.view_valid.x_in))
          (omega (arith, ey, small, g.view_valid.y_in)) n in
      (
        going_down a b e (omega (arith, small)) ex (omega (arith, ey, more)) o n,
        omega (arith, ey, more, hb, g.same_height),
      )
  down_place d (going_up a b e small ex ey o n) = absurd (omega (arith, d, e))
  down_place d (going_left a b e small ex ey o n) = absurd (omega (arith, d, e))
  down_place d (going_right a b e small ex ey o n) = absurd (omega (arith, d, e))

  right_place :
      p.dir ≡ dir_right
      → Place p.maze p.dir p.move_cnt p.play_x p.play_y
      → Place p.maze p.dir (p.move_cnt - 1) (p.play_x + 1) p.play_y
        × (p.play_x + 2 * block_dim < total_x p.view)
  right_place d (on_square a b e ex ey o) = absurd (omega (arith, more, e))
  right_place d (going_right a b e small ex ey o n) =
      let (_, ha, _, _) =
        free (a + 1) b (omega (arith, ex, small, g.view_valid.x_in))
          (omega (arith, ey, g.view_valid.y_in)) n in
      (
        going_right a b e (omega (arith, small)) (omega (arith, ex, more)) ey o n,
        omega (arith, ex, more, ha, g.same_width),
      )
  right_place d (going_up a b e small ex ey o n) = absurd (omega (arith, d, e))
  right_place d (going_left a b e small ex ey o n) = absurd (omega (arith, d, e))
  right_place d (going_down a b e small ex ey o n) = absurd (omega (arith, d, e))

  -- Another place and another window.
  relocate :
      (x y cnt : ℕ) (v : View)
      → Place p.maze p.dir cnt x y
      → IsView v x y
      → v.maze_x_dim ≡ p.view.maze_x_dim
      → v.maze_y_dim ≡ p.view.maze_y_dim
      → IsGame (record p { play_x = x; play_y = y; move_cnt = cnt; view = v })
  relocate x y cnt v here seen ex ey = record {
    maze_valid = g.maze_valid;
    walled = g.walled;
    counted = g.counted;
    placed = here;
    view_valid = seen;
    same_width = ex ∙ g.same_width;
    same_height = ey ∙ g.same_height;
    dir_valid = g.dir_valid;
    next_valid = g.next_valid;
  }

  abbrev further : Play
  further = record p { move_cnt = p.move_cnt - 1 }

  runs_up :
      p.dir ≡ dir_up
      → step further ≡ record further {
        play_y = (move_up p.play_y p.view).0;
        view = (move_up p.play_y p.view).1;
      }
  unfolding step
  runs_up d = rw d

  stepped_up : p.dir ≡ dir_up → IsGame (step further)
  stepped_up d =
      let (here, room) = up_place d g.placed in
      let (e, seen) = move_up-IsView p.play_x p.play_y g.view_valid room in
      let dims = move-dims p.play_y p.view in
      rw (runs_up d, e)
        (relocate (p.play_x) (p.play_y - 1) (p.move_cnt - 1) (move_up p.play_y p.view).1 here seen
          dims.0 dims.1)

  runs_right :
      p.dir ≡ dir_right
      → step further ≡ record further {
        play_x = (move_right p.play_x p.view).0;
        view = (move_right p.play_x p.view).1;
      }
  unfolding step
  runs_right d = rw d

  stepped_right : p.dir ≡ dir_right → IsGame (step further)
  stepped_right d =
      let (here, room) = right_place d g.placed in
      let (e, seen) = move_right-IsView p.play_x p.play_y g.view_valid room in
      let dims = move-dims p.play_x p.view in
      rw (runs_right d, e)
        (relocate (p.play_x + 1) (p.play_y) (p.move_cnt - 1) (move_right p.play_x p.view).1 here
          seen dims.2 dims.3)

  runs_down :
      p.dir ≡ dir_down
      → step further ≡ record further {
        play_y = (move_down p.play_y p.view).0;
        view = (move_down p.play_y p.view).1;
      }
  unfolding step
  runs_down d = rw d

  stepped_down : p.dir ≡ dir_down → IsGame (step further)
  stepped_down d =
      let (here, room) = down_place d g.placed in
      let (e, seen) = move_down-IsView p.play_x p.play_y g.view_valid room in
      let dims = move-dims p.play_y p.view in
      rw (runs_down d, e)
        (relocate (p.play_x) (p.play_y + 1) (p.move_cnt - 1) (move_down p.play_y p.view).1 here seen
          dims.4 dims.5)

  runs_left :
      p.dir ≡ dir_left
      → step further ≡ record further {
        play_x = (move_left p.play_x p.view).0;
        view = (move_left p.play_x p.view).1;
      }
  unfolding step
  runs_left d = rw d

  stepped_left : p.dir ≡ dir_left → IsGame (step further)
  stepped_left d =
      let (here, room) = left_place d g.placed in
      let (e, seen) = move_left-IsView p.play_x p.play_y g.view_valid room in
      let dims = move-dims p.play_x p.view in
      rw (runs_left d, e)
        (relocate (p.play_x - 1) (p.play_y) (p.move_cnt - 1) (move_left p.play_x p.view).1 here seen
          dims.6 dims.7)

  dir-cases :
      p.dir ≢ dir_stop
      → (p.dir ≡ dir_up) ⊎ (p.dir ≡ dir_right) ⊎ (p.dir ≡ dir_down) ⊎ (p.dir ≡ dir_left)
  dir-cases moving = ground (arith, g.dir_valid, moving)

  stepped : p.dir ≢ dir_stop → IsGame (step further)
  stepped moving = elim (dir-cases moving) [
    | inl d ↦ stepped_up d
    | inr (inl d) ↦ stepped_right d
    | inr (inr (inl d)) ↦ stepped_down d
    | inr (inr (inr d)) ↦ stepped_left d
  ]

pub walk-IsGame : (p : Play) → IsGame p → IsReady p → IsGame (walk p)
unfolding walk
walk-IsGame p g ready = elim (Bool-cases (p.dir == dir_stop)) [
  | inl stop ↦ rw stop g
  | inr moving ↦
      let more : 0 < p.move_cnt = ground (arith, ready, moving) in
      let q : Play = step (record p { last_dir = p.dir; move_cnt = p.move_cnt - 1 }) in
      let g' : IsGame q =
        stepped (record p { last_dir = p.dir }) (drawn-IsGame p p.dir p.frames g) more
          (λ e. ground (arith, moving, e)) in
      rw moving (
        drawn-IsGame q q.last_dir
          (record { at_x = q.play_x; at_y = q.play_y; facing = q.last_dir } ∷ q.frames) g')
]
