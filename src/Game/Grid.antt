-- ===== src/Game/Grid.antt =====
-- mp2_rthakk21/mazegame.c: the player moves on the maze's grid, never into a wall, and stays in sight.
use ece391_sp.Prelude.{
  ℕ, ◌+◌, ◌-◌, ◌*◌, ◌≡◌, ◌≤◌, ◌<◌, ◌⊎◌, inl, inr, refl, arith, true, if◌then◌else◌, ltb, Bool-cases,
}
use ece391_sp.Maze.{Maze}
use ece391_sp.Game.Level.{block_dim}
use ece391_sp.Game.Input.{dir_up, dir_right, dir_down, dir_left}
use ece391_sp.Game.Around.{IsOpen, IsSame-IsOpen}
use ece391_sp.Game.Walls.{IsSame}
use ece391_sp.Game.Tick.{Play, is_backwards}

-- Where the player may be: on a square that is open, or `cnt` pixels from the one of two neighbours, both
-- open, that its direction points to.
pub data Place (m : Maze) (dir cnt x y : ℕ) : Type 0 where
  on_square :
      (a b : ℕ)
      → cnt ≡ 0
      → x ≡ block_dim * a
      → y ≡ block_dim * b
      → IsOpen m a b
      → Place m dir cnt x y
  going_up :
      (a b : ℕ)
      → dir ≡ dir_up
      → cnt ≤ block_dim
      → x ≡ block_dim * a
      → y ≡ block_dim * b + cnt
      → IsOpen m a b
      → IsOpen m a (b + 1)
      → Place m dir cnt x y
  going_down :
      (a b : ℕ)
      → dir ≡ dir_down
      → cnt ≤ block_dim
      → x ≡ block_dim * a
      → y + cnt ≡ block_dim * (b + 1)
      → IsOpen m a b
      → IsOpen m a (b + 1)
      → Place m dir cnt x y
  going_left :
      (a b : ℕ)
      → dir ≡ dir_left
      → cnt ≤ block_dim
      → x ≡ block_dim * a + cnt
      → y ≡ block_dim * b
      → IsOpen m a b
      → IsOpen m (a + 1) b
      → Place m dir cnt x y
  going_right :
      (a b : ℕ)
      → dir ≡ dir_right
      → cnt ≤ block_dim
      → x + cnt ≡ block_dim * (a + 1)
      → y ≡ block_dim * b
      → IsOpen m a b
      → IsOpen m (a + 1) b
      → Place m dir cnt x y

-- Between two squares a player turns back to the one that it came from.
turned_up :
    {m : Maze} {cnt x y : ℕ}
    → 0 < cnt
    → Place m dir_up cnt x y
    → Place m dir_down (block_dim - cnt) x y
turned_up more (on_square a b e ex ey o) = absurd (omega (arith, more, e))
turned_up more (going_up a b e small ex ey o p) =
    going_down a b refl (omega arith) ex (omega (arith, ey, small)) o p
turned_up more (going_down a b e small ex ey o p) = absurd (omega (arith, e))
turned_up more (going_left a b e small ex ey o p) = absurd (omega (arith, e))
turned_up more (going_right a b e small ex ey o p) = absurd (omega (arith, e))

turned_down :
    {m : Maze} {cnt x y : ℕ}
    → 0 < cnt
    → Place m dir_down cnt x y
    → Place m dir_up (block_dim - cnt) x y
turned_down more (on_square a b e ex ey o) = absurd (omega (arith, more, e))
turned_down more (going_down a b e small ex ey o p) =
    going_up a b refl (omega arith) ex (omega (arith, ey, small)) o p
turned_down more (going_up a b e small ex ey o p) = absurd (omega (arith, e))
turned_down more (going_left a b e small ex ey o p) = absurd (omega (arith, e))
turned_down more (going_right a b e small ex ey o p) = absurd (omega (arith, e))

turned_left :
    {m : Maze} {cnt x y : ℕ}
    → 0 < cnt
    → Place m dir_left cnt x y
    → Place m dir_right (block_dim - cnt) x y
turned_left more (on_square a b e ex ey o) = absurd (omega (arith, more, e))
turned_left more (going_left a b e small ex ey o p) =
    going_right a b refl (omega arith) (omega (arith, ex, small)) ey o p
turned_left more (going_up a b e small ex ey o p) = absurd (omega (arith, e))
turned_left more (going_down a b e small ex ey o p) = absurd (omega (arith, e))
turned_left more (going_right a b e small ex ey o p) = absurd (omega (arith, e))

turned_right :
    {m : Maze} {cnt x y : ℕ}
    → 0 < cnt
    → Place m dir_right cnt x y
    → Place m dir_left (block_dim - cnt) x y
turned_right more (on_square a b e ex ey o) = absurd (omega (arith, more, e))
turned_right more (going_right a b e small ex ey o p) =
    going_left a b refl (omega arith) (omega (arith, ex, small)) ey o p
turned_right more (going_up a b e small ex ey o p) = absurd (omega (arith, e))
turned_right more (going_down a b e small ex ey o p) = absurd (omega (arith, e))
turned_right more (going_left a b e small ex ey o p) = absurd (omega (arith, e))

-- With no pixel left to go the player is on a square.
pub arrived :
    {m : Maze} {dir cnt x y : ℕ}
    → cnt ≡ 0
    → Place m dir cnt x y
    → (a b : ℕ) × (x ≡ block_dim * a) × (y ≡ block_dim * b) × IsOpen m a b
arrived none_left (on_square a b e ex ey o) = (a, b, ex, ey, o)
arrived none_left (going_up a b e small ex ey o p) = (a, b, ex, omega (arith, ey, none_left), o)
arrived none_left (going_down a b e small ex ey o p) =
    (a, b + 1, ex, omega (arith, ey, none_left), p)
arrived none_left (going_left a b e small ex ey o p) = (a, b, omega (arith, ex, none_left), ey, o)
arrived none_left (going_right a b e small ex ey o p) =
    (a + 1, b, omega (arith, ex, none_left), ey, p)

-- Another maze with the same walls has the same places.
pub IsSame-Place :
    {m m' : Maze} {dir cnt x y : ℕ} → IsSame m m' → Place m dir cnt x y → Place m' dir cnt x y
IsSame-Place s (on_square a b e ex ey o) = on_square a b e ex ey (IsSame-IsOpen a b s o)
IsSame-Place s (going_up a b e small ex ey o p) =
    going_up a b e small ex ey (IsSame-IsOpen a b s o) (IsSame-IsOpen a (b + 1) s p)
IsSame-Place s (going_down a b e small ex ey o p) =
    going_down a b e small ex ey (IsSame-IsOpen a b s o) (IsSame-IsOpen a (b + 1) s p)
IsSame-Place s (going_left a b e small ex ey o p) =
    going_left a b e small ex ey (IsSame-IsOpen a b s o) (IsSame-IsOpen (a + 1) b s p)
IsSame-Place s (going_right a b e small ex ey o p) =
    going_right a b e small ex ey (IsSame-IsOpen a b s o) (IsSame-IsOpen (a + 1) b s p)

abbrev pub IsPlaced : Play → Type 0
IsPlaced p = Place p.maze p.dir p.move_cnt p.play_x p.play_y

backwards-cases :
    (dir next_dir : ℕ)
    → is_backwards dir next_dir ≡ true
    → ((dir ≡ dir_up) × (next_dir ≡ dir_down))
      ⊎ ((dir ≡ dir_down) × (next_dir ≡ dir_up))
      ⊎ ((dir ≡ dir_left) × (next_dir ≡ dir_right))
      ⊎ ((dir ≡ dir_right) × (next_dir ≡ dir_left))
backwards-cases dir next_dir h = ground (arith, h)

-- Turning back keeps the player on the grid.
pub turned :
    {m : Maze} {dir cnt x y : ℕ} (next_dir : ℕ)
    → is_backwards dir next_dir ≡ true
    → Place m dir cnt x y
    → Place m next_dir (if ltb 0 cnt then block_dim - cnt else cnt) x y
turned {m} {dir} {cnt} {x} {y} next_dir h here = elim (Bool-cases (ltb 0 cnt)) [
  | inr at ↦
      let (a, b, ex, ey, o) = arrived (ground (arith, at)) here in
      rw at (on_square a b (ground (arith, at)) ex ey o)
  | inl moving ↦
      let more : 0 < cnt = ground (arith, moving) in
      rw moving (elim (backwards-cases dir next_dir h) [
        | inl (e, f) ↦ rw f (turned_up more (rw e at here))
        | inr (inl (e, f)) ↦ rw f (turned_down more (rw e at here))
        | inr (inr (inl (e, f))) ↦ rw f (turned_left more (rw e at here))
        | inr (inr (inr (e, f))) ↦ rw f (turned_right more (rw e at here))
      ])
]
