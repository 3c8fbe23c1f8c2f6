-- ===== src/Maze/Mark.antt =====
-- `mark_maze_area` of mp2_rthakk21/maze.c: the breadth-first search that marks what is connected. A pointer
-- into the array of squares is an index, and the queue's part that is still to be explored is a list.
pub mod Reach
use ece391_sp.Prelude.{
  ℕ, zero, suc, ◌+◌, ◌-◌, ◌*◌, ◌==◌, ltb, if◌then◌else◌, Option, none, some, List, [], ◌∷◌, ◌++◌,
  get_elem?, set, ◌>>=◌,
}
use ece391_sp.Maze.{Maze, maze_index, wall, reach, with_reach}

abbrev pub queue_size : ℕ
queue_size = 1500

-- The queue from `q_start` on, `q_end`, and the squares.
pub record Search : Type 0 where
  pub queue : List ℕ
  pub q_end : ℕ
  pub squares : List ℕ

-- An index below another, which has to exist.
abbrev pub back : ℕ → ℕ → Option ℕ
back cur k = if ltb cur k then none else some (cur - k)

-- A square that is new is marked and put into the queue.
abbrev pub enqueue : ℕ → ℕ → Search → Option Search
enqueue next c s =
    if ltb s.q_end queue_size
    then some record {
      queue = s.queue ++ (next ∷ []);
      q_end = s.q_end + 1;
      squares = set s.squares next (with_reach c);
    }
    else none

-- One of the four tests: the square between is read first, and the next one only if that is open.
unfoldable pub look : Option ℕ → Option ℕ → Search → Option Search
look between next s = do
  i ← between
  w ← get_elem? s.squares i
  let passage = do
    j ← next
    c ← get_elem? s.squares j
    if reach c == 0 then enqueue j c s else some s
  if wall w == 0 then passage else some s

-- The four directions from a square.
unfoldable pub explore : ℕ → ℕ → Search → Option Search
explore x_dim cur s = do
  s1 ← look (back cur (2 * x_dim)) (back cur (4 * x_dim)) s
  s2 ← look (some (cur + 1)) (some (cur + 2)) s1
  s3 ← look (some (cur + 2 * x_dim)) (some (cur + 4 * x_dim)) s2
  look (back cur 1) (back cur 2) s3

-- The loop, by the rounds that it may make.
unfoldable pub mark_loop : ℕ → ℕ → Search → Option Search
mark_loop zero x_dim s = none
mark_loop (suc rounds) x_dim s = elim s.queue [
  | [] ↦ some s
  | cur ∷ rest ↦ explore x_dim cur (record s { queue = rest }) >>= mark_loop rounds x_dim
]

-- `mark_maze_area`: the number of squares marked, and the maze.
unfoldable pub mark_maze_area : ℕ → ℕ → ℕ → Maze → Option (ℕ × Maze)
mark_maze_area rounds x y m = do
  c ← get_elem? m.squares (maze_index m x y)
  let first : Search = record {
    queue = maze_index m x y ∷ [];
    q_end = 1;
    squares = set m.squares (maze_index m x y) (with_reach c);
  }
  s ← mark_loop rounds m.x_dim first
  some (s.q_end, record m { squares = s.squares })
