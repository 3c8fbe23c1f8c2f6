-- ===== src/Maze/Fruits.antt =====
-- The number of fruits in mp2_rthakk21/maze.c: `n_fruits` counts the squares that hold one, whatever the
-- player does, so that the maze is won only when none is left.
use mathlib.Core.Option
use ece391_sp.Prelude.{
  ℕ, zero, suc, ◌+◌, ◌*◌, ◌%◌, ◌≡◌, inl, inr, ap, sym, ◌∙◌, arith, some, List, [], ◌∷◌, get_elem?,
  set, drop, if◌then◌else◌, ◌==◌, ltb, Bool, true, false, ◌||◌, not, ℤ, eqb_ℤ, pos, negsuc, inc,
  dec, bind-some, if-cases,
}
use ece391_sp.Maze.{
  Maze, maze_index, square, put_square, fruit, reach, without_fruit, with_reach, find_block, redraw,
  unveil_space, eat, check_for_fruit, pick_place, add_fruit, add_a_fruit, num_fruit_types,
}

abbrev pub has_fruit : ℕ → ℕ
has_fruit c = if fruit c == 0 then 0 else 1

-- The squares that hold a fruit.
abbrev pub fruits : List ℕ → ℕ
fruits [] = 0
fruits (c ∷ cs) = has_fruit c + fruits cs

abbrev pub IsCounted : Maze → Type 0
IsCounted m = m.n_fruits ≡ pos (fruits m.squares)

fruits-set :
    (cs : List ℕ) (i c c' : ℕ)
    → get_elem? cs i ≡ some c
    → fruits (set cs i c') + has_fruit c ≡ fruits cs + has_fruit c'
fruits-set [] i c c' h = absurd (ground (arith, h))
fruits-set (x ∷ cs) zero c c' h =
    let same : x ≡ c = ap (λ o. Option.get_or o x) h in rw same (omega arith)
fruits-set (x ∷ cs) (suc i) c c' h = omega (arith, fruits-set cs i c c' h)

pub fruits_none : (cs : List ℕ) (i c : ℕ) → fruits cs ≡ 0 → get_elem? cs i ≡ some c → fruit c ≡ 0
fruits_none cs i c h at =
    let counted : has_fruit c ≡ 0 = omega (arith, fruits-set cs i c 0 at, h) in
    ground (arith, counted)

with_reach_fruit : (c : ℕ) → has_fruit (with_reach c) ≡ has_fruit c
with_reach_fruit c = ground arith

without_fruit_lem : (c : ℕ) → has_fruit (without_fruit c) ≡ 0
without_fruit_lem c = ground arith

added_fruit : (c k : ℕ) → (fruit c == 0) ≡ true → has_fruit (c + (k % num_fruit_types + 1) * 2) ≡ 1
added_fruit c k h = ground (arith, h)

pub same {ℓ} : {A : Type ℓ} (a b : A) → some a ≡ some b → a ≡ b
same a b h = ap (λ o. Option.get_or o a) h

-- A drawing changes only the log.
redraw-IsCounted : (x y : ℕ) (m m' : Maze) → redraw x y m ≡ some m' → IsCounted m → IsCounted m'
redraw-IsCounted x y m m' h c =
    let (b, found, e) = bind-some (find_block m x y) _ m' h in rw (sym (same _ m' e)) c

perhaps_redrawn :
    (x y : ℕ) (m m' : Maze) (b : Bool)
    → (if b then redraw x y m else some m) ≡ some m'
    → IsCounted m
    → IsCounted m'
perhaps_redrawn x y m m' true h c = redraw-IsCounted x y m m' h c
perhaps_redrawn x y m m' false h c = rw (sym (same m m' h)) c

pub unveil_space-IsCounted :
    (x y : ℤ) (m m' : Maze) → unveil_space x y m ≡ some m' → IsCounted m → IsCounted m'
unfolding unveil_space
unveil_space-IsCounted (negsuc x) y m m' h c = rw (sym (same m m' h)) c
unveil_space-IsCounted (pos x) (negsuc y) m m' h c = rw (sym (same m m' h)) c
unveil_space-IsCounted (pos x) (pos y) m m' h c =
    elim (if-cases (ltb (2 * m.x_dim) x || ltb (2 * m.y_dim) y) _ _ _ h) [
      | inl (out, ran) ↦ rw (sym (same m m' ran)) c
      | inr (inside, ran) ↦
          let (s, at, rest) = bind-some (square m x y) _ m' ran in
          elim (if-cases (reach s == 0) _ _ _ rest) [
            | inl (new, drawn) ↦ redraw-IsCounted x y (put_square m x y (with_reach s)) m' drawn (
                c
                ∙ ap pos (
                    omega (
                      arith,
                      fruits-set m.squares (maze_index m x y) s (with_reach s) at,
                      with_reach_fruit s,
                    )))
            | inr (seen, stays) ↦ rw (sym (same m m' stays)) c
          ]
    ]

-- A fruit that is eaten is one less.
fewer :
    (m : Maze) (x y s : ℕ)
    → IsCounted m
    → square m x y ≡ some s
    → (fruit s == 0) ≡ false
    → IsCounted (
        let eaten = put_square m x y (without_fruit s) in
        record eaten { n_fruits = dec m.n_fruits })
fewer m x y s c at some_fruit =
    let now = fruits (set m.squares (maze_index m x y) (without_fruit s)) in
    let one : has_fruit s ≡ 1 = ground (arith, some_fruit) in
    let more : fruits m.squares ≡ suc now = omega (
      arith,
      fruits-set m.squares (maze_index m x y) s (without_fruit s) at,
      without_fruit_lem s,
      one,
    ) in
    ap dec (c ∙ ap pos more)

eat-IsCounted : (x y f : ℕ) (m m' : Maze) → eat x y m ≡ some (f, m') → IsCounted m → IsCounted m'
unfolding eat
eat-IsCounted x y f m m' h c =
    let (s, at, rest) = bind-some (square m x y) _ (f, m') h in
    elim (if-cases (fruit s == 0) _ _ _ rest) [
      | inl (none_here, stays) ↦
          let e : m ≡ m' = ap (λ (r : ℕ × Maze). r.1) (same (0, m) (f, m') stays) in rw (sym e) c
      | inr (some_fruit, ran) ↦
          let m1 : Maze =
            (let eaten = put_square m x y (without_fruit s) in
              record eaten { n_fruits = dec m.n_fruits }) in
          let c1 : IsCounted m1 = fewer m x y s c at some_fruit in
          let (m2, exit, rest2) =
            bind-some (if eqb_ℤ m1.n_fruits (pos 0) then redraw m1.exit_x m1.exit_y m1 else some m1)
              _ (f, m') ran in
          let (m3, drawn, last) = bind-some (redraw x y m2) _ (f, m') rest2 in
          let c2 : IsCounted m2 =
            perhaps_redrawn m1.exit_x m1.exit_y m1 m2 (eqb_ℤ m1.n_fruits (pos 0)) exit c1 in
          let e : m3 ≡ m' = ap (λ (r : ℕ × Maze). r.1) (same (fruit s, m3) (f, m') last) in
          rw (sym e) (redraw-IsCounted x y m2 m3 drawn c2)
    ]

pub check_for_fruit-IsCounted :
    (x y : ℤ) (f : ℕ) (m m' : Maze)
    → check_for_fruit x y m ≡ some (f, m')
    → IsCounted m
    → IsCounted m'
unfolding check_for_fruit
check_for_fruit-IsCounted (negsuc x) y f m m' h c =
    let e : m ≡ m' = ap (λ (r : ℕ × Maze). r.1) (same (0, m) (f, m') h) in rw (sym e) c
check_for_fruit-IsCounted (pos x) (negsuc y) f m m' h c =
    let e : m ≡ m' = ap (λ (r : ℕ × Maze). r.1) (same (0, m) (f, m') h) in rw (sym e) c
check_for_fruit-IsCounted (pos x) (pos y) f m m' h c =
    elim (if-cases (not (ltb x (2 * m.x_dim)) || not (ltb y (2 * m.y_dim))) _ _ _ h) [
      | inl (out, ran) ↦
          let e : m ≡ m' = ap (λ (r : ℕ × Maze). r.1) (same (0, m) (f, m') ran) in rw (sym e) c
      | inr (inside, ran) ↦ eat-IsCounted x y f m m' ran c
    ]

-- The place that is picked has no fruit yet.
pick_place_free :
    (randoms rest : List ℕ) (x y : ℕ) (m : Maze)
    → pick_place randoms m ≡ some (x, y, rest)
    → (c : ℕ) × (square m x y ≡ some c) × ((fruit c == 0) ≡ true)
unfolding pick_place
pick_place_free [] rest x y m h = absurd (ground (arith, h))
pick_place_free (a ∷ []) rest x y m h = absurd (ground (arith, h))
pick_place_free (a ∷ b ∷ randoms) rest x y m h =
    let x0 = a % m.x_dim * 2 + 1 in
    let y0 = b % m.y_dim * 2 + 1 in
    let (c, at, next) = bind-some (square m x0 y0) _ (x, y, rest) h in
    elim (if-cases (fruit c == 0) _ _ _ next) [
      | inl (free, found) ↦
          let e : (x0, y0, randoms) ≡ (x, y, rest) = same (x0, y0, randoms) (x, y, rest) found in
          (c, ap (λ (q : ℕ × ℕ × List ℕ). square m q.0 q.1) (sym e) ∙ at, free)
      | inr (taken, later) ↦ pick_place_free randoms rest x y m later
    ]

-- A fruit that is added is one more.
more :
    (m : Maze) (x y s k : ℕ)
    → IsCounted m
    → square m x y ≡ some s
    → (fruit s == 0) ≡ true
    → IsCounted (
        let added = put_square m x y (s + (k % num_fruit_types + 1) * 2) in
        record added { n_fruits = inc m.n_fruits })
more m x y s k c at free =
    let bit = s + (k % num_fruit_types + 1) * 2 in
    let zero_here : has_fruit s ≡ 0 = ground (arith, free) in
    ap inc c
    ∙ ap pos (
        omega (
          arith,
          fruits-set m.squares (maze_index m x y) s bit at,
          added_fruit s k free,
          zero_here,
        ))

pub add_fruit-IsCounted :
    (show : Bool) (randoms rest : List ℕ) (m m' : Maze)
    → add_fruit show randoms m ≡ some (m', rest)
    → IsCounted m
    → IsCounted m'
unfolding add_fruit
add_fruit-IsCounted show randoms rest m m' h c =
    let ((x, y, left), picked, h1) = bind-some (pick_place randoms m) _ (m', rest) h in
    let (kind, drawn_kind, h2) = bind-some (get_elem? left 0) _ (m', rest) h1 in
    let (s, at, h3) = bind-some (square m x y) _ (m', rest) h2 in
    let (s', at', free) = pick_place_free randoms left x y m picked in
    let e : s' ≡ s = same s' s (sym at' ∙ at) in
    let m1 : Maze =
      (let added = put_square m x y (s + (kind % num_fruit_types + 1) * 2) in
        record added { n_fruits = inc m.n_fruits }) in
    let c1 : IsCounted m1 = more m x y s kind c at (ap (λ v. fruit v == 0) (sym e) ∙ free) in
    let (m2, shown, last) = bind-some (if show then redraw x y m1 else some m1) _ (m', rest) h3 in
    let e2 : m2 ≡ m' = ap (λ (r : Maze × List ℕ). r.0) (same (m2, drop 1 left) (m', rest) last) in
    rw (sym e2) (perhaps_redrawn x y m1 m2 show shown c1)

pub add_a_fruit-IsCounted :
    (randoms : List ℕ) (n : ℤ) (m m' : Maze)
    → add_a_fruit randoms m ≡ some (n, m')
    → IsCounted m
    → IsCounted m'
unfolding add_a_fruit
add_a_fruit-IsCounted randoms n m m' h c =
    let ((m1, rest), added, h1) = bind-some (add_fruit true randoms m) _ (n, m') h in
    let (m2, exit, last) =
      bind-some (if eqb_ℤ m1.n_fruits (pos 1) then redraw m1.exit_x m1.exit_y m1 else some m1) _
        (n, m') h1 in
    let e : m2 ≡ m' = ap (λ (r : ℤ × Maze). r.1) (same (m2.n_fruits, m2) (n, m') last) in
    rw (sym e) (
      perhaps_redrawn m1.exit_x m1.exit_y m1 m2 (eqb_ℤ m1.n_fruits (pos 1)) exit
        (add_fruit-IsCounted true randoms rest m m1 added c))
