-- ===== src/Game/Steer.antt =====
-- mp2_rthakk21/mazegame.c: the invariant of a game in progress, and the choice of a direction at a square.
use ece391_sp.Prelude.{
  ℕ, zero, suc, ◌+◌, ◌-◌, ◌*◌, ◌≡◌, ◌≢◌, ◌≤◌, ◌<◌, ◌⊎◌, inl, inr, refl, sym, ◌∙◌, arith, List, [],
  ◌∷◌, length, Bool, true, false, ◌==◌, if◌then◌else◌, get_or, Bool-cases,
}
use ece391_sp.Maze.{Maze}
use ece391_sp.Maze.Bounds.{IsMaze}
use ece391_sp.Maze.Fruits.{IsCounted}
use ece391_sp.Game.Level.{block_dim}
use ece391_sp.Game.Window.{View}
use ece391_sp.Game.Visible.{IsView, total_x, total_y}
use ece391_sp.Game.Input.{dir_stop}
use ece391_sp.Game.Around.{IsOpen, IsWalled, IsSame-IsWalled, Directions}
use ece391_sp.Game.Walls.{IsSame}
use ece391_sp.Game.Grid.{
  Place, IsPlaced, IsSame-Place, on_square, going_up, going_down, going_left, going_right,
}
use ece391_sp.Game.Tick.{Frame, Play, steer}

-- A game in progress.
pub record IsGame (p : Play) : Type 0 where
  pub maze_valid : IsMaze p.maze
  pub walled : IsWalled p.maze
  pub counted : IsCounted p.maze
  pub placed : IsPlaced p
  pub view_valid : IsView p.view p.play_x p.play_y
  pub same_width : p.view.maze_x_dim ≡ p.maze.x_dim
  pub same_height : p.view.maze_y_dim ≡ p.maze.y_dim
  pub dir_valid : p.dir ≤ 4
  pub next_valid : p.next_dir ≤ 4

get_or_inside :
    (xs : List Bool) (i : ℕ) (b d : Bool) → i < length xs → get_or xs i b ≡ get_or xs i d
get_or_inside [] i b d h = absurd (omega (arith, h))
get_or_inside (x ∷ xs) zero b d h = refl
get_or_inside (x ∷ xs) (suc i) b d h = get_or_inside xs i b d (omega (arith, h))

-- From a square to the next one in an open direction.
going :
    {m : Maze} {open_dirs : List Bool} (d a b : ℕ)
    → d < 4
    → get_or open_dirs d false ≡ true
    → Directions m a b open_dirs
    → 0 < a
    → 0 < b
    → IsOpen m a b
    → Place m d block_dim (block_dim * a) (block_dim * b)
going {m} zero a b h free dirs pa pb o =
    let e : b - 1 + 1 ≡ b = omega arith in
    going_up a (b - 1) refl (omega arith) refl (omega arith) (dirs.up free) (rw e o)
going {m} (suc zero) a b h free dirs pa pb o =
    going_right a b refl (omega arith) (omega arith) refl o (dirs.right free)
going {m} (suc (suc zero)) a b h free dirs pa pb o =
    going_down a b refl (omega arith) refl (omega arith) o (dirs.down free)
going {m} (suc (suc (suc zero))) a b h free dirs pa pb o =
    let e : a - 1 + 1 ≡ a = omega arith in
    going_left (a - 1) b refl (omega arith) (omega arith) refl (dirs.left free) (rw e o)
going (suc (suc (suc (suc d)))) a b h free dirs pa pb o = absurd (omega (arith, h))

-- The player stands still or has a pixel to go.
abbrev pub IsReady : Play → Type 0
IsReady p = (p.dir ≡ dir_stop) ⊎ (0 < p.move_cnt)

-- The squares that the player stands on lie within the maze's outer walls.
pub inside :
    (m : Maze) (v : View) (a b : ℕ)
    → IsWalled m
    → v.maze_x_dim ≡ m.x_dim
    → v.maze_y_dim ≡ m.y_dim
    → block_dim * a < total_x v
    → block_dim * b < total_y v
    → IsOpen m a b
    → (0 < a) × (a < 2 * m.x_dim) × (0 < b) × (b < 2 * m.y_dim)
inside m v a b w ex ey hx hy o = w a b (omega (arith, ex, hx)) (omega (arith, ey, hy)) o

-- Another direction and number of pixels to go, for the place where the player is.
pub redirect :
    (p : Play) (g : IsGame p) (d cnt : ℕ)
    → d ≤ 4
    → Place p.maze d cnt p.play_x p.play_y
    → IsGame (record p { dir = d; move_cnt = cnt })
redirect p g d cnt h here = record {
  maze_valid = g.maze_valid;
  walled = g.walled;
  counted = g.counted;
  placed = here;
  view_valid = g.view_valid;
  same_width = g.same_width;
  same_height = g.same_height;
  dir_valid = h;
  next_valid = g.next_valid;
}

module _ (open_dirs : List Bool) (beyond : Bool) (p : Play) (g : IsGame p) where
  module _ (a b : ℕ) (still : p.move_cnt ≡ 0) (ex : p.play_x ≡ block_dim * a)
      (ey : p.play_y ≡ block_dim * b) (o : IsOpen p.maze a b)
      (dirs : Directions p.maze a b open_dirs) where
    abbrev wanted : ℕ
    wanted = if get_or open_dirs p.next_dir beyond then p.next_dir else p.dir

    wanted_le : wanted ≤ 4
    wanted_le = ground (arith, g.dir_valid, g.next_valid)

    stopped : (d : ℕ) → Place p.maze d p.move_cnt p.play_x p.play_y
    stopped d = on_square a b still ex ey o

    started :
        (d : ℕ)
        → d < 4
        → get_or open_dirs d beyond ≡ true
        → Place p.maze d block_dim p.play_x p.play_y
    started d below free =
        let (pa, _, pb, _) =
          inside p.maze p.view a b g.walled g.same_width g.same_height
            (omega (arith, ex, g.view_valid.x_in)) (omega (arith, ey, g.view_valid.y_in)) o in
        rw (ex, ey)
          (going d a b below
            (get_or_inside open_dirs d false beyond (omega (arith, below, dirs.four)) ∙ free) dirs
            pa pb o)

    not_stop : (wanted == dir_stop) ≡ false → wanted ≢ 4
    not_stop h e = ground (arith, h, e)

    pub steer_lem : IsGame (steer open_dirs beyond p) × IsReady (steer open_dirs beyond p)
    unfolding steer
    steer_lem = elim (Bool-cases (wanted == dir_stop)) [
      | inl stop ↦
          rw stop
            (redirect p g wanted p.move_cnt wanted_le (stopped wanted), inl (ground (arith, stop)))
      | inr go ↦ elim (Bool-cases (get_or open_dirs wanted beyond)) [
        | inl free ↦
            let below : wanted < 4 = omega (arith, wanted_le, not_stop go) in
            rw (go, free)
              (
                redirect p g wanted block_dim wanted_le (started wanted below free),
                inr (omega arith),
              )
        | inr blocked ↦
            rw (go, blocked)
              (redirect p g dir_stop p.move_cnt (omega arith) (stopped dir_stop), inl refl)
      ]
    ]

-- The same game in a maze with the same walls.
pub with_maze :
    (p : Play) (g : IsGame p) (m : Maze) (won : Bool)
    → IsSame p.maze m
    → IsCounted m
    → IsGame (record p { maze = m; goto_next_level = won })
with_maze p g m won s c = record {
  maze_valid = s.valid;
  walled = IsSame-IsWalled s g.walled;
  counted = c;
  placed = IsSame-Place s g.placed;
  view_valid = g.view_valid;
  same_width = g.same_width ∙ sym s.width;
  same_height = g.same_height ∙ sym s.height;
  dir_valid = g.dir_valid;
  next_valid = g.next_valid;
}

-- Pictures and the last direction are no part of the invariant.
pub drawn-IsGame :
    (p : Play) (last : ℕ) (frames : List Frame)
    → IsGame p
    → IsGame (record p { last_dir = last; frames = frames })
drawn-IsGame p last frames g = record {
  maze_valid = g.maze_valid;
  walled = g.walled;
  counted = g.counted;
  placed = g.placed;
  view_valid = g.view_valid;
  same_width = g.same_width;
  same_height = g.same_height;
  dir_valid = g.dir_valid;
  next_valid = g.next_valid;
}
