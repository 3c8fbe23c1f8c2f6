-- ===== src/Maze/Play.antt =====
-- Games on the maze of mp2_rthakk21/maze.c: the calls that mazegame.c makes, one after another.
use ece391_sp.Prelude.{
  ℕ, ◌*◌, ◌≡◌, inl, inr, refl, ap, sym, ◌∙◌, arith, some, List, get_elem?, ltb, Bool, true, ◌||◌,
  not, ℤ, eqb_ℤ, pos, negsuc, bind-some, if-cases,
}
use ece391_sp.Maze.{
  Maze, square, fruit, exit_bit, unveil_space, check_for_fruit, check_for_win, add_fruit,
  add_a_fruit,
}
use ece391_sp.Maze.Fruits.{
  fruits, IsCounted, fruits_none, same, unveil_space-IsCounted, check_for_fruit-IsCounted,
  add_fruit-IsCounted, add_a_fruit-IsCounted,
}

pub data Move (m m' : Maze) : Type 0 where
  unveil : (x y : ℤ) → unveil_space x y m ≡ some m' → Move m m'
  visit : (x y : ℤ) (f : ℕ) → check_for_fruit x y m ≡ some (f, m') → Move m m'
  place :
      (show : Bool) (randoms rest : List ℕ) → add_fruit show randoms m ≡ some (m', rest) → Move m m'
  grow : (randoms : List ℕ) (n : ℤ) → add_a_fruit randoms m ≡ some (n, m') → Move m m'

pub data Played (m : Maze) : Maze → Type 0 where
  new : Played m m
  later : {m1 m2 : Maze} → Played m m1 → Move m1 m2 → Played m m2

Move-IsCounted : (m m' : Maze) → Move m m' → IsCounted m → IsCounted m'
Move-IsCounted m m' (unveil x y h) c = unveil_space-IsCounted x y m m' h c
Move-IsCounted m m' (visit x y f h) c = check_for_fruit-IsCounted x y f m m' h c
Move-IsCounted m m' (place show randoms rest h) c = add_fruit-IsCounted show randoms rest m m' h c
Move-IsCounted m m' (grow randoms n h) c = add_a_fruit-IsCounted randoms n m m' h c

-- If `n_fruits` is the number of squares with a fruit at the start of a game, it is so after any sequence of
-- unveiled squares, squares checked for a fruit and fruits added.
Played-IsCounted : (m m' : Maze) → Played m m' → IsCounted m → IsCounted m'
Played-IsCounted m m' new c = c
Played-IsCounted m m' (later p move) c = Move-IsCounted _ _ move (Played-IsCounted _ _ p c)

win_square :
    (x y : ℤ) (m : Maze)
    → check_for_win x y m ≡ some 1
    → (a b c : ℕ) × (x ≡ pos a)
      × (y ≡ pos b)
      × (m.n_fruits ≡ pos 0)
      × (square m a b ≡ some c)
      × (exit_bit c ≡ 1)
unfolding check_for_win
win_square (negsuc x) y m h = absurd (ground (arith, h))
win_square (pos x) (negsuc y) m h = absurd (ground (arith, h))
win_square (pos x) (pos y) m h =
    elim (if-cases (not (ltb x (2 * m.x_dim)) || not (ltb y (2 * m.y_dim))) _ _ _ h) [
      | inl (out, ran) ↦ absurd (ground (arith, ran))
      | inr (inside, ran) ↦ elim (if-cases (eqb_ℤ m.n_fruits (pos 0)) _ _ _ ran) [
        | inr (left, lost) ↦ absurd (ground (arith, lost))
        | inl (none_left, exit) ↦
            let (c, at, e) = bind-some (square m x y) _ 1 exit in
            (x, y, c, refl, refl, zero_fruits m.n_fruits none_left, at, same (exit_bit c) 1 e)
      ]
    ]
  where
    zero_fruits : (n : ℤ) → eqb_ℤ n (pos 0) ≡ true → n ≡ pos 0
    zero_fruits (pos n) e = ap pos (ground (arith, e))
    zero_fruits (negsuc n) e = absurd (ground (arith, e))

-- In a game that began with a right count, `check_for_win` returns 1 only on the exit's square and with no
-- fruit left anywhere in the maze.
pub check_for_win-Played :
    (m m' : Maze) (x y : ℤ)
    → IsCounted m
    → Played m m'
    → check_for_win x y m' ≡ some 1
    → ((a b c : ℕ) × (x ≡ pos a) × (y ≡ pos b) × (square m' a b ≡ some c) × (exit_bit c ≡ 1))
      × ((i c : ℕ) → get_elem? m'.squares i ≡ some c → fruit c ≡ 0)
check_for_win-Played m m' x y c played won =
    let (a, b, s, ex, ey, empty, at, exit) = win_square x y m' won in
    let counted = Played-IsCounted m m' played c in
    let none_left : fruits m'.squares ≡ 0 = pos_zero (sym counted ∙ empty) in
    ((a, b, s, ex, ey, at, exit), λ i c at'. fruits_none m'.squares i c none_left at')
  where
    pos_zero : {n : ℕ} → pos n ≡ pos 0 → n ≡ 0
    pos_zero e = ground (arith, e)
