-- ===== src/Game/Around.antt =====
-- mp2_rthakk21/mazegame.c: `unveil_around_player` and the directions open from a square.
use ece391_sp.Prelude.{
  ℕ, zero, suc, ◌+◌, ◌-◌, ◌*◌, ◌/◌, ◌<◌, ◌≤◌, ◌≡◌, inl, inr, refl, ap, sym, ◌∙◌, arith, some, List,
  [], ◌∷◌, get_elem?, get_or, map, ◌==◌, ltb, Bool, Bool-cases, if-cases, true, false, not, ◌||◌, ℤ,
  eqb_ℤ, pos, length,
}
use ece391_sp.Maze.{
  Maze, maze_index, square_up, square_left, wall, exit_bit, check_for_win, find_open_directions,
}
use ece391_sp.Maze.Bounds.{IsMaze, inside-IsStencil}
use ece391_sp.Maze.Fruits.{IsCounted, unveil_space-IsCounted, check_for_fruit-IsCounted}
use ece391_sp.Game.Level.{block_dim}
use ece391_sp.Game.Tick.{around, unveil_all, unveil_around_player}
use ece391_sp.Game.Walls.{
  IsSame, IsSame-refl, IsSame-trans, unveil_space_lem, check_for_fruit-IsSame,
}

-- A square that a player may stand on.
abbrev pub IsOpen : Maze → ℕ → ℕ → Type 0
IsOpen m a b = get_elem? (map wall m.squares) (maze_index m a b) ≡ some 0

-- The outer squares are walls.
abbrev pub IsWalled : Maze → Type 0
IsWalled m =
    (a b : ℕ)
    → a ≤ 2 * m.x_dim
    → b ≤ 2 * m.y_dim
    → IsOpen m a b
    → (0 < a) × (a < 2 * m.x_dim) × (0 < b) × (b < 2 * m.y_dim)

pub IsSame-IsOpen : {m m' : Maze} (a b : ℕ) → IsSame m m' → IsOpen m a b → IsOpen m' a b
IsSame-IsOpen a b s open_here = rw (s.walls, s.width) open_here

pub IsSame-IsWalled : {m m' : Maze} → IsSame m m' → IsWalled m → IsWalled m'
IsSame-IsWalled {m} {m'} s w a b ha hb open_here =
    let back : IsOpen m a b = rw (sym s.walls, sym s.width) open_here in
    let inside = w a b (omega (arith, ha, s.width)) (omega (arith, hb, s.height)) back in
    omega (arith, inside, s.width, s.height)

unveil_all_lem :
    (squares : List (ℤ × ℤ)) (m : Maze)
    → IsMaze m
    → IsCounted m
    → (m' : Maze) × (unveil_all squares m ≡ some m') × IsSame m m' × IsCounted m'
unfolding unveil_all
unveil_all_lem [] m i c = (m, refl, IsSame-refl i, c)
unveil_all_lem ((x, y) ∷ squares) m i c =
    let (m1, e1, s1) = unveil_space_lem x y m i in
    let (m2, e2, s2, c2) =
      unveil_all_lem squares m1 s1.valid (unveil_space-IsCounted x y m m1 e1 c) in
    (m2, rw e1 e2, IsSame-trans s1 s2, c2)

check_for_win_lem :
    (x y : ℕ) (m : Maze) → IsMaze m → (w : ℕ) × (check_for_win (pos x) (pos y) m ≡ some w)
unfolding check_for_win
check_for_win_lem x y m i =
    elim (Bool-cases (not (ltb x (2 * m.x_dim)) || not (ltb y (2 * m.y_dim)))) [
      | inl out ↦ (0, rw out refl)
      | inr inside ↦ elim (Bool-cases (eqb_ℤ m.n_fruits (pos 0))) [
        | inr left ↦ (0, rw (inside, left) refl)
        | inl none_left ↦
            let hx : x ≤ 2 * m.x_dim = ground (arith, inside) in
            let hy : y ≤ 2 * m.y_dim = ground (arith, inside) in
            let (c, at) = (inside-IsStencil m x y i hx hy).here in
            (exit_bit c, rw (inside, none_left, at) refl)
      ]
    ]

-- With the player on a square of the maze, the squares around are unveiled without an access outside the
-- array, no wall changes, and the fruits are counted as before.
pub unveil_around_player_lem :
    (play_x play_y : ℕ) (m : Maze)
    → IsMaze m
    → IsCounted m
    → play_x / block_dim < 2 * m.x_dim
    → play_y / block_dim < 2 * m.y_dim
    → (won : ℕ) × (m' : Maze) × (unveil_around_player play_x play_y m ≡ some (won, m'))
      × IsSame m m'
      × IsCounted m'
unfolding unveil_around_player
unveil_around_player_lem play_x play_y m i c hx hy =
    let x = play_x / block_dim in
    let y = play_y / block_dim in
    let (f, m1, e1, s1) = check_for_fruit-IsSame x y m i hx hy in
    let (m2, e2, s2, c2) =
      unveil_all_lem (around (pos x) (pos y)) m1 s1.valid
        (check_for_fruit-IsCounted (pos x) (pos y) f m m1 e1 c) in
    let (w, e3) = check_for_win_lem x y m2 s2.valid in
    (w, m2, rw (e1, e2, e3), IsSame-trans s1 s2, c2)

get_elem?-map :
    (xs : List ℕ) (i c : ℕ) → get_elem? xs i ≡ some c → get_elem? (map wall xs) i ≡ some (wall c)
get_elem?-map [] i c at = absurd (ground (arith, at))
get_elem?-map (x ∷ xs) zero c at =
    let same : x ≡ c = ground (arith, at) in ap (λ k. some (wall k)) same
get_elem?-map (x ∷ xs) (suc i) c at = get_elem?-map xs i c at

open_up :
    (m : Maze) (a b u : ℕ) → 0 < b → square_up m a b ≡ some u → wall u ≡ 0 → IsOpen m a (b - 1)
open_up m a b u pb eu free =
    let e : b - 1 + 1 ≡ b = omega arith in
    rw e (get_elem?-map m.squares (a + b * m.x_dim * 2) u eu ∙ ap some free)

open_left :
    (m : Maze) (a b l : ℕ) → 0 < a → square_left m a b ≡ some l → wall l ≡ 0 → IsOpen m (a - 1) b
open_left m a b l pa el free =
    let e : maze_index m a b - 1 ≡ maze_index m (a - 1) b = omega arith in
    elim (if-cases (maze_index m a b == 0) _ _ _ el) [
      | inl (first, ran) ↦ absurd (ground (arith, ran))
      | inr (later, at) ↦
          ap (get_elem? (map wall m.squares)) (sym e)
          ∙ get_elem?-map m.squares (maze_index m a b - 1) l at
          ∙ ap some free
    ]

-- What `find_open_directions` says of the squares next to one.
pub record Directions (m : Maze) (a b : ℕ) (open_dirs : List Bool) : Type 0 where
  pub up : get_or open_dirs 0 false ≡ true → IsOpen m a (b - 1)
  pub right : get_or open_dirs 1 false ≡ true → IsOpen m (a + 1) b
  pub down : get_or open_dirs 2 false ≡ true → IsOpen m a (b + 1)
  pub left : get_or open_dirs 3 false ≡ true → IsOpen m (a - 1) b
  pub four : length open_dirs ≡ 4

pub find_open_directions_lem :
    (m : Maze) (a b : ℕ)
    → IsMaze m
    → 0 < a
    → a ≤ 2 * m.x_dim
    → 0 < b
    → b ≤ 2 * m.y_dim
    → (open_dirs : List Bool) × (find_open_directions a b m ≡ some open_dirs)
      × Directions m a b open_dirs
unfolding find_open_directions
find_open_directions_lem m a b i pa ha pb hb =
    let s = inside-IsStencil m a b i ha hb in
    let (u, eu) = s.up in
    let (r, er) = s.right in
    let (d, ed) = s.down in
    let (l, el) = s.left in
    (
      (wall u == 0) ∷ (wall r == 0) ∷ (wall d == 0) ∷ (wall l == 0) ∷ [],
      rw (eu, er, ed, el) refl,
      record {
        up = λ h. open_up m a b u pb eu (ground (arith, h));
        right = λ h.
            get_elem?-map m.squares (maze_index m (a + 1) b) r er ∙ ap some (ground (arith, h));
        down = λ h.
            get_elem?-map m.squares (maze_index m a (b + 1)) d ed ∙ ap some (ground (arith, h));
        left = λ h. open_left m a b l pa el (ground (arith, h));
        four = refl;
      },
    )
