-- ===== src/Maze/Eat.antt =====
-- `check_for_fruit` of mp2_rthakk21/maze.c on a square inside the maze.
use ece391_sp.Prelude.{
  ℕ, ◌*◌, ◌<◌, ◌≤◌, ◌≡◌, inl, inr, refl, ap, sym, ◌∙◌, arith, some, List, length-set,
  get_elem?-set_self, length-get, ◌∷◌, if◌then◌else◌, ◌==◌, ltb, Bool, Bool-cases, true, false, ℤ,
  eqb_ℤ, pos, dec,
}
use ece391_sp.Maze.{
  Maze, Draw, maze_index, square, put_square, fruit, without_fruit, redraw, eat, check_for_fruit,
  block_dim,
}
use ece391_sp.Maze.Bounds.{IsMaze, find_block_lem, inside-IsStencil}

pub redraw_lem :
    (x y : ℕ) (m : Maze)
    → IsMaze m
    → x ≤ 2 * m.x_dim
    → y ≤ 2 * m.y_dim
    → (d : List Draw) × (redraw x y m ≡ some (record m { drawn = d }))
redraw_lem x y m i hx hy =
    let (b, found, small) = find_block_lem m x y i hx hy in
    (
      record { pixel_x = x * block_dim; pixel_y = y * block_dim; block = b } ∷ m.drawn,
      rw found refl,
    )

pub perhaps_redraw_lem :
    (b : Bool) (x y : ℕ) (m : Maze)
    → IsMaze m
    → x ≤ 2 * m.x_dim
    → y ≤ 2 * m.y_dim
    → (d : List Draw) × ((if b then redraw x y m else some m) ≡ some (record m { drawn = d }))
perhaps_redraw_lem true x y m i hx hy = redraw_lem x y m i hx hy
perhaps_redraw_lem false x y m i hx hy = (m.drawn, refl)

pub changed-IsMaze :
    (m : Maze) (x y c : ℕ) (n : ℤ) (d : List Draw)
    → IsMaze m
    → IsMaze (let changed = put_square m x y c in record changed { n_fruits = n; drawn = d })
changed-IsMaze m x y c n d i = record {
  wide = i.wide;
  x_max = i.x_max;
  high = i.high;
  y_max = i.y_max;
  sized = length-set m.squares (maze_index m x y) c ∙ i.sized;
  exit_inside = i.exit_inside;
}

-- On any square left of the right and above the bottom boundary, `check_for_fruit` ends, and returns the
-- number of the fruit there, from 1 to 7, or 0. The maze is then a maze as before and the square has no
-- fruit: a second check returns 0 and changes nothing.
pub check_for_fruit_lem :
    (x y : ℕ) (m : Maze)
    → IsMaze m
    → x < 2 * m.x_dim
    → y < 2 * m.y_dim
    → (c : ℕ) × (m' : Maze) × (square m x y ≡ some c)
      × (check_for_fruit (pos x) (pos y) m ≡ some (fruit c, m'))
      × (fruit c < 8)
      × IsMaze m'
      × (check_for_fruit (pos x) (pos y) m' ≡ some (0, m'))
unfolding check_for_fruit eat
check_for_fruit_lem x y m i hx hy =
    let (c, at) = (inside-IsStencil m x y i (omega (arith, hx)) (omega (arith, hy))).here in
    let right : ltb x (2 * m.x_dim) ≡ true = ground (arith, hx) in
    let above : ltb y (2 * m.y_dim) ≡ true = ground (arith, hy) in
    elim (Bool-cases (fruit c == 0)) [
      | inl free ↦
          let none_here : fruit c ≡ 0 = ground (arith, free) in
          (
            c,
            m,
            at,
            rw (right, above, at, free) (ap (λ f. some (f, m)) (sym none_here)),
            omega arith,
            i,
            rw (right, above, at, free) refl,
          )
      | inr some_fruit ↦
          let eaten = put_square m x y (without_fruit c) in
          let m1 : Maze = record eaten { n_fruits = dec m.n_fruits } in
          let i1 : IsMaze m1 = changed-IsMaze m x y (without_fruit c) (dec m.n_fruits) m.drawn i in
          let (d2, exit) =
            perhaps_redraw_lem (eqb_ℤ m1.n_fruits (pos 0)) m.exit_x m.exit_y m1 i1 i.exit_inside.0
              i.exit_inside.1 in
          let m2 : Maze = record m1 { drawn = d2 } in
          let i2 : IsMaze m2 = changed-IsMaze m x y (without_fruit c) (dec m.n_fruits) d2 i in
          let (d3, drawn) = redraw_lem x y m2 i2 (omega (arith, hx)) (omega (arith, hy)) in
          let m3 : Maze = record m1 { drawn = d3 } in
          let now : square m3 x y ≡ some (without_fruit c) =
            get_elem?-set_self m.squares (maze_index m x y) (without_fruit c)
              (length-get m.squares (maze_index m x y) at) in
          let gone : (fruit (without_fruit c) == 0) ≡ true = ground arith in
          (
            c,
            m3,
            at,
            rw (right, above, at, some_fruit, exit, drawn) refl,
            omega arith,
            changed-IsMaze m x y (without_fruit c) (dec m.n_fruits) d3 i,
            rw (right, above, now, gone) refl,
          )
    ]
