-- ===== src/Game/Walls.antt =====
-- mp2_rthakk21/maze.c: what the calls that follow the player leave alone, the walls above all.
use ece391_sp.Prelude.{
  ℕ, zero, suc, ◌*◌, ◌<◌, ◌≤◌, ◌≡◌, inl, inr, refl, ap, sym, ◌∙◌, arith, some, List, [], ◌∷◌,
  get_elem?, set, map, if◌then◌else◌, ◌==◌, ltb, Bool, Bool-cases, true, ◌||◌, ℤ, eqb_ℤ, pos,
  negsuc, dec,
}
use ece391_sp.Maze.{
  Maze, Draw, maze_index, square, put_square, wall, fruit, reach, without_fruit, with_reach,
  unveil_space, check_for_fruit, eat,
}
use ece391_sp.Maze.Bounds.{IsMaze, inside-IsStencil}
use ece391_sp.Maze.Eat.{redraw_lem, perhaps_redraw_lem, changed-IsMaze}

-- A maze of the same size with the same walls.
pub record IsSame (m m' : Maze) : Type 0 where
  pub valid : IsMaze m'
  pub walls : map wall m'.squares ≡ map wall m.squares
  pub width : m'.x_dim ≡ m.x_dim
  pub height : m'.y_dim ≡ m.y_dim

pub IsSame-refl : {m : Maze} → IsMaze m → IsSame m m
IsSame-refl i = record { valid = i; walls = refl; width = refl; height = refl }

pub IsSame-trans : {m m1 m2 : Maze} → IsSame m m1 → IsSame m1 m2 → IsSame m m2
IsSame-trans s t = record {
  valid = t.valid;
  walls = t.walls ∙ s.walls;
  width = t.width ∙ s.width;
  height = t.height ∙ s.height;
}

map-set :
    (xs : List ℕ) (i c v : ℕ)
    → get_elem? xs i ≡ some c
    → wall v ≡ wall c
    → map wall (set xs i v) ≡ map wall xs
map-set [] i c v at e = refl
map-set (x ∷ xs) zero c v at e =
    let same : x ≡ c = ground (arith, at) in ap (λ w. w ∷ map wall xs) (e ∙ ap wall (sym same))
map-set (x ∷ xs) (suc i) c v at e = ap (λ l. wall x ∷ l) (map-set xs i c v at e)

with_reach-wall : (c : ℕ) → wall (with_reach c) ≡ wall c
with_reach-wall c = ground arith

without_fruit-wall : (c : ℕ) → wall (without_fruit c) ≡ wall c
without_fruit-wall c = omega arith

changed-IsSame :
    (m : Maze) (x y c v : ℕ) (n : ℤ) (d : List Draw)
    → IsMaze m
    → square m x y ≡ some c
    → wall v ≡ wall c
    → IsSame m (let changed = put_square m x y v in record changed { n_fruits = n; drawn = d })
changed-IsSame m x y c v n d i at e = record {
  valid = changed-IsMaze m x y v n d i;
  walls = map-set m.squares (maze_index m x y) c v at e;
  width = refl;
  height = refl;
}

if_true : {A : Type 0} (b : Bool) (x y : A) → b ≡ true → (if b then x else y) ≡ x
if_true b x y e = rw e

-- Unveiling a square ends and changes no wall, wherever the square is.
pub unveil_space_lem :
    (x y : ℤ) (m : Maze) → IsMaze m → (m' : Maze) × (unveil_space x y m ≡ some m') × IsSame m m'
unfolding unveil_space
unveil_space_lem (negsuc x) y m i = (m, refl, IsSame-refl i)
unveil_space_lem (pos x) (negsuc y) m i = (m, refl, IsSame-refl i)
unveil_space_lem (pos x) (pos y) m i =
    elim (Bool-cases (ltb (2 * m.x_dim) x || ltb (2 * m.y_dim) y)) [
      | inl out ↦ (m, rw out refl, IsSame-refl i)
      | inr inside ↦
          let hx : x ≤ 2 * m.x_dim = ground (arith, inside) in
          let hy : y ≤ 2 * m.y_dim = ground (arith, inside) in
          let (c, at) = (inside-IsStencil m x y i hx hy).here in
          elim (Bool-cases (reach c == 0)) [
            | inl new ↦
                let v = with_reach c in
                let (d, drawn) =
                  redraw_lem x y (put_square m x y v) (changed-IsMaze m x y v m.n_fruits m.drawn i)
                    hx hy in
                (
                  _,
                  rw (inside, at) (if_true (reach c == 0) _ _ new ∙ drawn),
                  changed-IsSame m x y c v m.n_fruits d i at (with_reach-wall c),
                )
            | inr seen ↦ (m, rw (inside, at, seen) refl, IsSame-refl i)
          ]
    ]

-- Eating changes no wall.
pub check_for_fruit-IsSame :
    (x y : ℕ) (m : Maze)
    → IsMaze m
    → x < 2 * m.x_dim
    → y < 2 * m.y_dim
    → (f : ℕ) × (m' : Maze) × (check_for_fruit (pos x) (pos y) m ≡ some (f, m')) × IsSame m m'
unfolding check_for_fruit eat
check_for_fruit-IsSame x y m i hx hy =
    let (c, at) = (inside-IsStencil m x y i (omega (arith, hx)) (omega (arith, hy))).here in
    let right : ltb x (2 * m.x_dim) ≡ true = ground (arith, hx) in
    let above : ltb y (2 * m.y_dim) ≡ true = ground (arith, hy) in
    elim (Bool-cases (fruit c == 0)) [
      | inl free ↦ (0, m, rw (right, above, at, free) refl, IsSame-refl i)
      | inr some_fruit ↦
          let v = without_fruit c in
          let n = dec m.n_fruits in
          let eaten = put_square m x y v in
          let m1 : Maze = record eaten { n_fruits = n } in
          let (d2, exit) =
            perhaps_redraw_lem (eqb_ℤ n (pos 0)) m.exit_x m.exit_y m1
              (changed-IsMaze m x y v n m.drawn i) i.exit_inside.0 i.exit_inside.1 in
          let m2 : Maze = record m1 { drawn = d2 } in
          let (d3, drawn) =
            redraw_lem x y m2 (changed-IsMaze m x y v n d2 i) (omega (arith, hx))
              (omega (arith, hy)) in
          (
            fruit c,
            _,
            rw (right, above, at, some_fruit, exit, drawn) refl,
            changed-IsSame m x y c v n d3 i at (without_fruit-wall c),
          )
    ]
