-- ===== src/Game/Motion.antt =====
-- mp2_rthakk21/mazegame.c: every tick of the game keeps the player on the grid, out of the walls and in
-- sight.
use ece391_sp.Prelude.{
  ℕ, ◌-◌, ◌*◌, ◌/◌, ◌≡◌, ◌⊎◌, inl, inr, refl, ap, ◌∙◌, arith, List, Bool, true, false, not, ◌&&◌,
  ◌==◌, if◌then◌else◌, ltb, some, Bool-cases,
}
use ece391_sp.Maze.{Maze, find_open_directions}
use ece391_sp.Game.Level.{block_dim}
use ece391_sp.Game.Around.{
  IsOpen, IsSame-IsOpen, unveil_around_player_lem, find_open_directions_lem,
}
use ece391_sp.Game.Grid.{arrived, turned}
use ece391_sp.Game.Tick.{
  Play, is_backwards, turn_back, steer, at_square, walk, tick, show_player, unveil_around_player,
}
use ece391_sp.Game.Steer.{IsGame, IsReady, redirect, inside, steer_lem, with_maze, drawn-IsGame}
use ece391_sp.Game.Walk.{walk-IsGame}

module _ (beyond : Bool) (p : Play) (g : IsGame p) where
  abbrev Reached : Type 0
  Reached =
      (q : Play) × (at_square beyond p ≡ some q)
      × IsGame q
      × ((q.goto_next_level ≡ true) ⊎ IsReady q)

  at_square_runs :
      (won : ℕ) (m : Maze) (open_dirs : List Bool)
      → (p.move_cnt == 0) ≡ true
      → unveil_around_player p.play_x p.play_y p.maze ≡ some (won, m)
      → find_open_directions (p.play_x / block_dim) (p.play_y / block_dim) m ≡ some open_dirs
      → at_square beyond p
        ≡ some (
            if not (won == 0)
            then record p { maze = m; goto_next_level = true }
            else steer open_dirs beyond (record p { maze = m }))
  unfolding at_square
  at_square_runs won m open_dirs arrives e f = rw (arrives, e, f)

  reached_square :
      (a b : ℕ)
      → p.move_cnt ≡ 0
      → p.play_x ≡ block_dim * a
      → p.play_y ≡ block_dim * b
      → IsOpen p.maze a b
      → Reached
  reached_square a b still ex ey o =
      let (pa, ha, pb, hb) =
        inside p.maze p.view a b g.walled g.same_width g.same_height
          (omega (arith, ex, g.view_valid.x_in)) (omega (arith, ey, g.view_valid.y_in)) o in
      let qx : p.play_x / block_dim ≡ a = omega (arith, ex) in
      let qy : p.play_y / block_dim ≡ b = omega (arith, ey) in
      let (won, m, e, s, c) =
        unveil_around_player_lem p.play_x p.play_y p.maze g.maze_valid g.counted
          (omega (arith, qx, ha)) (omega (arith, qy, hb)) in
      let (open_dirs, f, dirs) =
        find_open_directions_lem m a b s.valid pa (omega (arith, ha, s.width)) pb
          (omega (arith, hb, s.height)) in
      let at_quotients =
        ap (λ k. find_open_directions k (p.play_y / block_dim) m) qx
        ∙ ap (λ k. find_open_directions a k m) qy
        ∙ f in
      let arrives : (p.move_cnt == 0) ≡ true = ground (arith, still) in
      elim (Bool-cases (won == 0)) [
        | inr wins ↦ (
          record p { maze = m; goto_next_level = true },
          at_square_runs won m open_dirs arrives e at_quotients ∙ rw wins,
          with_maze p g m true s c,
          inl refl,
        )
        | inl plays ↦
            let (g', ready) =
              steer_lem open_dirs beyond (record p { maze = m })
                (with_maze p g m p.goto_next_level s c) a b still ex ey (IsSame-IsOpen a b s o)
                dirs in
            (
              steer open_dirs beyond (record p { maze = m }),
              at_square_runs won m open_dirs arrives e at_quotients ∙ rw plays,
              g',
              inr ready,
            )
      ]

  at_square_lem : Reached
  unfolding at_square
  at_square_lem = elim (Bool-cases (p.move_cnt == 0)) [
    | inl arrives ↦
        let still : p.move_cnt ≡ 0 = ground (arith, arrives) in
        let (a, b, ex, ey, o) = arrived still g.placed in reached_square a b still ex ey o
    | inr between ↦ (p, rw between refl, g, inr (inr (ground (arith, between))))
  ]

still-IsReady :
    (q : Play) → (q.goto_next_level ≡ true) ⊎ IsReady q → q.goto_next_level ≡ false → IsReady q
still-IsReady q (inl won) on = absurd (ground (arith, won, on))
still-IsReady q (inr ready) on = ready

turn_back-IsGame : (p : Play) → IsGame p → IsGame (turn_back p)
unfolding turn_back
turn_back-IsGame p g =
    elim (Bool-cases (not (p.next_dir == p.dir) && is_backwards p.dir p.next_dir)) [
      | inl turns ↦ rw turns (
          redirect p g p.next_dir (if ltb 0 p.move_cnt then block_dim - p.move_cnt else p.move_cnt)
            g.next_valid (turned p.next_dir (ground (arith, turns)) g.placed))
      | inr straight ↦ rw straight g
    ]

-- A tick of a game in progress returns, without an access outside the maze's array, and leaves a game in
-- progress: the player is on the grid of squares, on or between squares that are no walls, wholly in the
-- window, which lies in the maze, and the fruits are counted. `beyond` may be any value.
pub tick-IsGame :
    (beyond : Bool) (p : Play) → IsGame p → (q : Play) × (tick beyond p ≡ some q) × IsGame q
unfolding tick
tick-IsGame beyond p g =
    let (q, e, g2, ready) = at_square_lem beyond (turn_back p) (turn_back-IsGame p g) in
    elim (Bool-cases q.goto_next_level) [
      | inl won ↦ (q, rw (e, won), g2)
      | inr on ↦ (
        walk (show_player q),
        rw (e, on),
        walk-IsGame (show_player q) (drawn-IsGame q q.last_dir (show_player q).frames g2)
            (still-IsReady q ready on),
      )
    ]
