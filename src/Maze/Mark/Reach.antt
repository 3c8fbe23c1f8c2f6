-- ===== src/Maze/Mark/Reach.antt =====
-- The search of `mark_maze_area` in mp2_rthakk21/maze.c ends, inside the array and its queue.
use Prim.{tt}
use mathlib.Core.Option
use native.Mathlib.Decide.{ℕ_discrete}
use ece391_sp.Prelude.{
  ℕ, zero, suc, ◌+◌, ◌-◌, ◌*◌, ◌<◌, ◌≤◌, ◌≡◌, inl, inr, refl, ap, sym, ◌∙◌, arith, Option, some,
  List, [], ◌∷◌, ◌++◌, length, get_elem?, set, length-set, length-append, length-get,
  get_elem?-set_self, get_elem?-set_ne, if◌then◌else◌, ◌==◌, ltb, Bool, Bool-cases, true, ◌&&◌,
}
use ece391_sp.Maze.{Maze, maze_index, wall, reach, with_reach}
use ece391_sp.Maze.Mark.{Search, queue_size, back, look, explore, mark_loop, mark_maze_area}

-- The points of the lattice that are not marked yet, from index i on.
abbrev unseen_point : (ℕ → Bool) → ℕ → ℕ → ℕ
unseen_point point i c = if point i && reach c == 0 then 1 else 0

abbrev pub unseen : (ℕ → Bool) → ℕ → List ℕ → ℕ
unseen point i [] = 0
unseen point i (c ∷ cs) = unseen_point point i c + unseen point (i + 1) cs

unseen-set :
    (point : ℕ → Bool) (i : ℕ) (cs : List ℕ) (k c : ℕ)
    → get_elem? cs k ≡ some c
    → point (i + k) ≡ true
    → reach c ≡ 0
    → unseen point i (set cs k (with_reach c)) + 1 ≡ unseen point i cs
unseen-set point i [] k c h p r = absurd (ground (arith, h))
unseen-set point i (x ∷ cs) zero c h p r =
    let same : x ≡ c = ap (λ o. Option.get_or o x) h in
    let here : point i ≡ true = ap point (omega arith) ∙ p in rw (same, here) (ground (arith, r))
unseen-set point i (x ∷ cs) (suc k) c h p r =
    let later = unseen-set point (i + 1) cs k c h (ap point (omega arith) ∙ p) r in
    omega (arith, later)

abbrev pub AllPoints : (ℕ → Bool) → List ℕ → Type 0
AllPoints point [] = Unit
AllPoints point (i ∷ is) = (point i ≡ true) × AllPoints point is

AllPoints-append :
    (point : ℕ → Bool) (is : List ℕ) (j : ℕ)
    → AllPoints point is
    → point j ≡ true
    → AllPoints point (is ++ (j ∷ []))
AllPoints-append point [] j h p = (p, tt)
AllPoints-append point (i ∷ is) j h p = (h.0, AllPoints-append point is j h.1 p)

-- Whether a square of the maze is open.
abbrev pub IsOpenSquare : List ℕ → ℕ → Type 0
IsOpenSquare cs i = (c : ℕ) × (get_elem? cs i ≡ some c) × (wall c ≡ 0)

-- What the construction of a maze guarantees of the lattice points: the squares around one exist, and where
-- the square beside one is open, the next square in that direction is a lattice point of the maze.
pub record IsLattice (x_dim : ℕ) (cs : List ℕ) (point : ℕ → Bool) : Type 0 where
  pub inside :
      (i : ℕ)
      → point i ≡ true
      → (2 * x_dim ≤ i) × (1 ≤ i) × (i + 2 * x_dim < length cs) × (i + 1 < length cs)
  pub up :
      (i : ℕ)
      → point i ≡ true
      → IsOpenSquare cs (i - 2 * x_dim)
      → (4 * x_dim ≤ i) × (point (i - 4 * x_dim) ≡ true)
  pub right : (i : ℕ) → point i ≡ true → IsOpenSquare cs (i + 1) → point (i + 2) ≡ true
  pub down :
      (i : ℕ) → point i ≡ true → IsOpenSquare cs (i + 2 * x_dim) → point (i + 4 * x_dim) ≡ true
  pub left : (i : ℕ) → point i ≡ true → IsOpenSquare cs (i - 1) → (2 ≤ i) × (point (i - 2) ≡ true)

-- A search in progress from the squares cs, with n lattice points to be found in all.
record IsSearch (cs : List ℕ) (point : ℕ → Bool) (n : ℕ) (s : Search) : Type 0 where
  points : AllPoints point s.queue
  same_length : length s.squares ≡ length cs
  walls : (i c' : ℕ) → get_elem? s.squares i ≡ some c' → wall c' ≡ 0 → IsOpenSquare cs i
  counted : s.q_end + unseen point 0 s.squares ≡ n

-- The rounds that are left to make.
abbrev work : (ℕ → Bool) → Search → ℕ
work point s = length s.queue + unseen point 0 s.squares

lookup_at : (cs : List ℕ) (i : ℕ) → i < length cs → (c : ℕ) × (get_elem? cs i ≡ some c)
lookup_at [] i h = absurd (omega (arith, h))
lookup_at (x ∷ cs) zero h = (x, refl)
lookup_at (x ∷ cs) (suc i) h = lookup_at cs i (omega (arith, h))

-- Marks change no walls.
marked-walls :
    (cs now : List ℕ) (j c : ℕ)
    → ((i c' : ℕ) → get_elem? now i ≡ some c' → wall c' ≡ 0 → IsOpenSquare cs i)
    → get_elem? now j ≡ some c
    → (i c' : ℕ) → get_elem? (set now j (with_reach c)) i ≡ some c'
    → wall c' ≡ 0
    → IsOpenSquare cs i
marked-walls cs now j c walls at i c' h free = elim (ℕ_discrete j i) [
  | no ne ↦ walls i c' (sym (get_elem?-set_ne now (with_reach c) ne) ∙ h) free
  | yes same ↦
      let here : get_elem? (set now j (with_reach c)) j ≡ some (with_reach c) =
        get_elem?-set_self now j (with_reach c) (length-get now j at) in
      let value : with_reach c ≡ c' =
        ap (λ o. Option.get_or o c')
          (sym here ∙ ap (get_elem? (set now j (with_reach c))) same ∙ h) in
      walls i c (ap (get_elem? now) (sym same) ∙ at) (ground (arith, value, free))
]

look_lem :
    (x_dim n i j : ℕ) (cs : List ℕ) (point : ℕ → Bool) (s : Search) (next : Option ℕ)
    → IsLattice x_dim cs point
    → n ≤ queue_size
    → IsSearch cs point n s
    → i < length cs
    → (IsOpenSquare cs i → (next ≡ some j) × (point j ≡ true))
    → (s' : Search) × (look (some i) next s ≡ some s')
      × IsSearch cs point n s'
      × (work point s' ≡ work point s)
unfolding look
look_lem x_dim n i j cs point s next l small k hi to =
    let (w, at) = lookup_at s.squares i (omega (arith, hi, k.same_length)) in
    elim (Bool-cases (wall w == 0)) [
      | inr closed ↦ (s, rw (at, closed) refl, k, refl)
      | inl free ↦
          let no_wall : wall w ≡ 0 = ground (arith, free) in
          let (is_j, p) = to (k.walls i w at no_wall) in
          let (c, at_j) = lookup_at s.squares j (omega (arith, l.inside j p, k.same_length)) in
          elim (Bool-cases (reach c == 0)) [
            | inr seen ↦ (s, rw (at, free, is_j, at_j, seen) refl, k, refl)
            | inl new ↦
                let fresh : reach c ≡ 0 = ground (arith, new) in
                let one =
                  unseen-set point 0 s.squares j c at_j (ap point (omega arith) ∙ p) fresh in
                let room : ltb s.q_end queue_size ≡ true = ground (arith, one, k.counted, small) in
                (
                  record {
                    queue = s.queue ++ (j ∷ []);
                    q_end = s.q_end + 1;
                    squares = set s.squares j (with_reach c);
                  },
                  rw (at, free, is_j, at_j, new, room) refl,
                  record {
                    points = AllPoints-append point s.queue j k.points p;
                    same_length = length-set s.squares j (with_reach c) ∙ k.same_length;
                    walls = marked-walls cs s.squares j c k.walls at_j;
                    counted = omega (arith, one, k.counted);
                  },
                  omega (arith, one, length-append s.queue (j ∷ [])),
                )
          ]
    ]

back_lem : (cur k : ℕ) → k ≤ cur → back cur k ≡ some (cur - k)
back_lem cur k h = ground (arith, h)

-- A square that is taken from the queue is explored.
explore_lem :
    (x_dim n cur : ℕ) (cs : List ℕ) (point : ℕ → Bool) (s : Search)
    → IsLattice x_dim cs point
    → n ≤ queue_size
    → IsSearch cs point n s
    → point cur ≡ true
    → (s' : Search) × (explore x_dim cur s ≡ some s')
      × IsSearch cs point n s'
      × (work point s' ≡ work point s)
unfolding explore
explore_lem x_dim n cur cs point s l small k p =
    let (above, before, below, after) = l.inside cur p in
    let (s1, e1, k1, w1) =
      look_lem x_dim n (cur - 2 * x_dim) (cur - 4 * x_dim) cs point s (back cur (4 * x_dim)) l small
        k (omega (arith, below))
        (λ o. let (far, q) = l.up cur p o in (back_lem cur (4 * x_dim) far, q)) in
    let (s2, e2, k2, w2) =
      look_lem x_dim n (cur + 1) (cur + 2) cs point s1 (some (cur + 2)) l small k1 after
        (λ o. (refl, l.right cur p o)) in
    let (s3, e3, k3, w3) =
      look_lem x_dim n (cur + 2 * x_dim) (cur + 4 * x_dim) cs point s2 (some (cur + 4 * x_dim)) l
        small k2 below (λ o. (refl, l.down cur p o)) in
    let (s4, e4, k4, w4) =
      look_lem x_dim n (cur - 1) (cur - 2) cs point s3 (back cur 2) l small k3
        (omega (arith, after)) (λ o. let (far, q) = l.left cur p o in (back_lem cur 2 far, q)) in
    (
      s4,
      rw (back_lem cur (2 * x_dim) above, e1, e2, e3, back_lem cur 1 before) e4,
      k4,
      w4 ∙ w3 ∙ w2 ∙ w1,
    )

mark_loop_lem :
    (rounds x_dim n : ℕ) (cs : List ℕ) (point : ℕ → Bool) (queue : List ℕ) (q_end : ℕ)
    (now : List ℕ)
    → IsLattice x_dim cs point
    → n ≤ queue_size
    → IsSearch cs point n (record { queue = queue; q_end = q_end; squares = now })
    → length queue + unseen point 0 now < rounds
    → (s : Search) × (mark_loop rounds x_dim
          (record { queue = queue; q_end = q_end; squares = now })
        ≡ some s)
      × IsSearch cs point n s
unfolding mark_loop
mark_loop_lem zero x_dim n cs point queue q_end now l small k h = absurd (omega (arith, h))
mark_loop_lem (suc rounds) x_dim n cs point [] q_end now l small k h =
    (record { queue = []; q_end = q_end; squares = now }, refl, k)
mark_loop_lem (suc rounds) x_dim n cs point (cur ∷ rest) q_end now l small k h =
    let popped : Search = record { queue = rest; q_end = q_end; squares = now } in
    let kept : IsSearch cs point n popped = record {
      points = k.points.1;
      same_length = k.same_length;
      walls = k.walls;
      counted = k.counted;
    } in
    let (s1, e1, k1, w1) = explore_lem x_dim n cur cs point popped l small kept k.points.0 in
    let (s2, e2, k2) =
      mark_loop_lem rounds x_dim n cs point s1.queue s1.q_end s1.squares l small k1
        (omega (arith, h, w1)) in
    (s2, rw e1 e2, k2)

-- From a lattice point that is not marked, in a maze as the construction leaves it with at most 1,500 points
-- that are not marked: the search makes at most one round more than there are such points, stays inside the
-- array and the queue, and returns the number of points that it has marked.
pub mark_maze_area_lem :
    (rounds x y c : ℕ) (m : Maze) (point : ℕ → Bool)
    → IsLattice m.x_dim m.squares point
    → unseen point 0 m.squares ≤ queue_size
    → unseen point 0 m.squares < rounds
    → point (maze_index m x y) ≡ true
    → get_elem? m.squares (maze_index m x y) ≡ some c
    → reach c ≡ 0
    → (marked : ℕ) × (m' : Maze) × (mark_maze_area rounds x y m ≡ some (marked, m'))
      × (marked + unseen point 0 m'.squares ≡ unseen point 0 m.squares)
unfolding mark_maze_area
mark_maze_area_lem rounds x y c m point l small enough p at fresh =
    let i = maze_index m x y in
    let one = unseen-set point 0 m.squares i c at (ap point (omega arith) ∙ p) fresh in
    let begun : IsSearch m.squares point (unseen point 0 m.squares)
        (record { queue = i ∷ []; q_end = 1; squares = set m.squares i (with_reach c) }) =
      record {
        points = (p, tt);
        same_length = length-set m.squares i (with_reach c);
        walls = marked-walls m.squares m.squares i c (λ j c' h free. (c', h, free)) at;
        counted = omega (arith, one);
      } in
    let (s, ran, k) =
      mark_loop_lem rounds m.x_dim (unseen point 0 m.squares) m.squares point (i ∷ []) 1
        (set m.squares i (with_reach c)) l small begun (omega (arith, one, enough)) in
    (s.q_end, record m { squares = s.squares }, rw (at, ran) refl, k.counted)
