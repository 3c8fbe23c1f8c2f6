-- ===== src/Maze/Lines.antt =====
-- Lines of the picture, `fill_horiz_buffer` and `fill_vert_buffer` of mp2_rthakk21/maze.c. The pictures of
-- the blocks, which blocks.s holds, are a parameter: the pixel of a block by its row and column.
use ece391_sp.Prelude.{
  ℕ, zero, suc, ◌+◌, ◌-◌, ◌*◌, ◌/◌, ◌%◌, ◌<◌, ◌≤◌, ◌≡◌, refl, ap, sym, ◌∙◌, arith, Option, none,
  some, List, [], ◌∷◌, ◌++◌, if◌then◌else◌, false, ◌==◌, Option-cases, inl, inr, ◌>>=◌,
}
use ece391_sp.Maze.{Maze, find_block, block_dim}

abbrev pub scroll_x_dim : ℕ
scroll_x_dim = 320

abbrev pub scroll_y_dim : ℕ
scroll_y_dim = 182

-- The inner loop: the pixels from `sub` on, up to the end of the block or of the line.
abbrev pub copy_pixels : (ℕ → ℕ) → ℕ → ℕ → ℕ → List ℕ
copy_pixels block (suc room) (suc left) sub = block sub ∷ copy_pixels block room left (sub + 1)
copy_pixels block _ _ sub = []

-- The outer loop of both functions over the blocks along the line, by the rounds left: at least one pixel is
-- copied in each.
unfoldable pub fill_from : (ℕ → Option (ℕ → ℕ)) → ℕ → ℕ → ℕ → ℕ → Option (List ℕ)
fill_from blocks zero at sub left = if left == 0 then some [] else none
fill_from blocks (suc rounds) at sub left =
    let room = block_dim - sub in
    let next = do
      block ← blocks at
      rest ← fill_from blocks rounds (at + 1) 0 (left - room)
      some (copy_pixels block room left sub ++ rest)
    in if left == 0 then some [] else next

-- The blocks of a row and of a column, at a pixel row or column of them.
abbrev pub across : (ℕ → ℕ → ℕ → ℕ) → Maze → ℕ → ℕ → ℕ → Option (ℕ → ℕ)
across pixels m map_y sub_y map_x = do
  b ← find_block m map_x map_y
  some (λ sub_x. pixels b sub_y sub_x)

abbrev pub along : (ℕ → ℕ → ℕ → ℕ) → Maze → ℕ → ℕ → ℕ → Option (ℕ → ℕ)
along pixels m map_x sub_x map_y = do
  b ← find_block m map_x map_y
  some (λ sub_y. pixels b sub_y sub_x)

-- `fill_horiz_buffer`
unfoldable pub fill_horiz_buffer : (ℕ → ℕ → ℕ → ℕ) → Maze → ℕ → ℕ → Option (List ℕ)
fill_horiz_buffer pixels m x y =
    let map_x = x / block_dim in
    let map_y = y / block_dim in
    let sub_x = x - map_x * block_dim in
    let sub_y = y - map_y * block_dim in
    fill_from (across pixels m map_y sub_y) scroll_x_dim map_x sub_x scroll_x_dim

-- `fill_vert_buffer`
unfoldable pub fill_vert_buffer : (ℕ → ℕ → ℕ → ℕ) → Maze → ℕ → ℕ → Option (List ℕ)
fill_vert_buffer pixels m x y =
    let map_x = x / block_dim in
    let map_y = y / block_dim in
    let sub_x = x - map_x * block_dim in
    let sub_y = y - map_y * block_dim in
    fill_from (along pixels m map_x sub_x) scroll_y_dim map_y sub_y scroll_y_dim

-- The reference: each pixel of the line found on its own.
abbrev pub pixel_at : (ℕ → ℕ → ℕ → ℕ) → Maze → ℕ → ℕ → Option ℕ
pixel_at pixels m x y = do
  b ← find_block m (x / block_dim) (y / block_dim)
  some (pixels b (y % block_dim) (x % block_dim))

unfoldable pub each_pixel : (ℕ → Option ℕ) → ℕ → ℕ → Option (List ℕ)
each_pixel pixel zero at = some []
each_pixel pixel (suc left) at = do
  p ← pixel at
  rest ← each_pixel pixel left (at + 1)
  some (p ∷ rest)

-- A pixel of the blocks along a line.
abbrev pixel_of : (ℕ → Option (ℕ → ℕ)) → ℕ → Option ℕ
pixel_of blocks at = do block ← blocks (at / block_dim); some (block (at % block_dim))

bind-some_self {ℓ} : {A : Type ℓ} (o : Option A) → (o >>= (λ a. some a)) ≡ o
bind-some_self none = refl
bind-some_self (some a) = refl

bind-bind :
    (o : Option (List ℕ)) (f g : List ℕ → List ℕ)
    → ((o >>= (λ a. some (f a))) >>= (λ b. some (g b))) ≡ (o >>= (λ a. some (g (f a))))
bind-bind none f g = refl
bind-bind (some a) f g = refl

pixel_inside :
    (blocks : ℕ → Option (ℕ → ℕ)) (block : ℕ → ℕ) (at sub : ℕ)
    → blocks at ≡ some block
    → sub < block_dim
    → pixel_of blocks (at * block_dim + sub) ≡ some (block sub)
pixel_inside blocks block at sub found h =
    let q : (at * block_dim + sub) / block_dim ≡ at = omega (arith, h) in
    let r : (at * block_dim + sub) % block_dim ≡ sub = omega (arith, h) in rw (q, found, r) refl

pixel_outside :
    (blocks : ℕ → Option (ℕ → ℕ)) (at sub : ℕ)
    → blocks at ≡ none
    → sub < block_dim
    → pixel_of blocks (at * block_dim + sub) ≡ none
pixel_outside blocks at sub missing h =
    let q : (at * block_dim + sub) / block_dim ≡ at = omega (arith, h) in rw (q, missing) refl

-- The rest of a block and what follows it.
block_lem :
    (blocks : ℕ → Option (ℕ → ℕ)) (block : ℕ → ℕ) (room sub at left : ℕ)
    → blocks at ≡ some block
    → sub + room ≡ block_dim
    → each_pixel (pixel_of blocks) left (at * block_dim + sub) ≡ (
        each_pixel (pixel_of blocks) (left - room) ((at + 1) * block_dim)
        >>= (λ rest. some (copy_pixels block room left sub ++ rest)))
unfolding each_pixel
block_lem blocks block zero sub at zero found e = refl
block_lem blocks block (suc room) sub at zero found e =
    let z : 0 - suc room ≡ 0 = omega arith in rw z refl
block_lem blocks block zero sub at (suc left) found e =
    let next : at * block_dim + sub ≡ (at + 1) * block_dim = omega (arith, e) in
    let all : suc left - 0 ≡ suc left = omega arith in
    ap (each_pixel (pixel_of blocks) (suc left)) next
    ∙ sym (bind-some_self (each_pixel (pixel_of blocks) (suc left) ((at + 1) * block_dim)))
    ∙ ap (λ n. each_pixel (pixel_of blocks) n ((at + 1) * block_dim) >>= (λ rest. some rest))
        (sym all)
block_lem blocks block (suc room) sub at (suc left) found e =
    let next : at * block_dim + sub + 1 ≡ at * block_dim + (sub + 1) = omega arith in
    let fewer : suc left - suc room ≡ left - room = omega arith in
    let rest = block_lem blocks block room (sub + 1) at left found (omega (arith, e)) in
    rw (pixel_inside blocks block at sub found (omega (arith, e)), next, rest, fewer)
      (bind-bind (each_pixel (pixel_of blocks) (left - room) ((at + 1) * block_dim))
        (λ r. copy_pixels block room left (sub + 1) ++ r) (λ r. block sub ∷ r))

fill_from_lem :
    (blocks : ℕ → Option (ℕ → ℕ)) (rounds at sub left : ℕ)
    → left ≤ rounds
    → sub < block_dim
    → fill_from blocks rounds at sub left ≡ each_pixel (pixel_of blocks) left (at * block_dim + sub)
unfolding fill_from each_pixel
fill_from_lem blocks zero at sub zero h k = refl
fill_from_lem blocks zero at sub (suc left) h k = absurd (omega (arith, h))
fill_from_lem blocks (suc rounds) at sub zero h k = refl
fill_from_lem blocks (suc rounds) at sub (suc left) h k =
    let more : (suc left == 0) ≡ false = ground arith in
    let start : (at + 1) * block_dim ≡ (at + 1) * block_dim + 0 = omega arith in
    elim (Option-cases (blocks at)) [
      | inl missing ↦ rw (more, missing, pixel_outside blocks at sub missing k) refl
      | inr (block, found) ↦
          let rest =
            fill_from_lem blocks rounds (at + 1) 0 (suc left - (block_dim - sub))
              (omega (arith, h, k)) (omega arith) in
          let whole : sub + (block_dim - sub) ≡ block_dim = omega (arith, k) in
          let from_0 =
            rest ∙ ap (each_pixel (pixel_of blocks) (suc left - (block_dim - sub))) (sym start) in
          rw (more, found, from_0)
            (sym (block_lem blocks block (block_dim - sub) sub at (suc left) found whole))
    ]

one_pixel :
    (o : Option ℕ) (pixel : ℕ → ℕ → ℕ) (t : ℕ)
    → ◌>>=◌ {A = ℕ → ℕ} {B = ℕ}
        (◌>>=◌ {B = ℕ → ℕ} o (λ b. some (λ s. pixel b s)))
        (λ block. some (block t))
      ≡ (o >>= (λ b. some (pixel b t)))
one_pixel none pixel t = refl
one_pixel (some b) pixel t = refl

split_at : (x : ℕ) → x / block_dim * block_dim + (x - x / block_dim * block_dim) ≡ x
split_at x = omega arith

-- A line of the picture that is drawn block by block is, pixel by pixel, the picture of the maze: the pixel
-- at (x, y) is that of row y % 12 and column x % 12 of the block for the square (x / 12, y / 12). Where a
-- square lies outside the array, both fail.
pub fill_buffer_lem :
    (pixels : ℕ → ℕ → ℕ → ℕ) (m : Maze) (x y : ℕ)
    → (fill_horiz_buffer pixels m x y ≡ each_pixel (λ x'. pixel_at pixels m x' y) scroll_x_dim x)
      × (fill_vert_buffer pixels m x y ≡ each_pixel (λ y'. pixel_at pixels m x y') scroll_y_dim y)
unfolding fill_horiz_buffer fill_vert_buffer
fill_buffer_lem pixels m x y =
    let sub_x = x - x / block_dim * block_dim in
    let sub_y = y - y / block_dim * block_dim in
    let in_x : sub_x ≡ x % block_dim = omega arith in
    let in_y : sub_y ≡ y % block_dim = omega arith in
    let small_x : sub_x < block_dim = omega arith in
    let small_y : sub_y < block_dim = omega arith in
    let enough_x : scroll_x_dim ≤ scroll_x_dim = omega arith in
    let enough_y : scroll_y_dim ≤ scroll_y_dim = omega arith in
    let row : ◌≡◌ {A = ℕ → Option ℕ} (pixel_of (across pixels m (y / block_dim) sub_y))
        (λ x'. pixel_at pixels m x' y) =
      λ i x'.
        (one_pixel (find_block m (x' / block_dim) (y / block_dim)) (λ b s. pixels b sub_y s)
              (x' % block_dim)
            ∙ ap
                (λ r.
                  find_block m (x' / block_dim) (y / block_dim)
                  >>= (λ b. some (pixels b r (x' % block_dim))))
                in_y)
          i in
    let column : ◌≡◌ {A = ℕ → Option ℕ} (pixel_of (along pixels m (x / block_dim) sub_x))
        (λ y'. pixel_at pixels m x y') =
      λ i y'.
        (one_pixel (find_block m (x / block_dim) (y' / block_dim)) (λ b s. pixels b s sub_x)
              (y' % block_dim)
            ∙ ap
                (λ c.
                  find_block m (x / block_dim) (y' / block_dim)
                  >>= (λ b. some (pixels b (y' % block_dim) c)))
                in_x)
          i in
    (
      fill_from_lem (across pixels m (y / block_dim) sub_y) scroll_x_dim (x / block_dim) sub_x
            scroll_x_dim enough_x small_x
          ∙ ap (each_pixel (pixel_of (across pixels m (y / block_dim) sub_y)) scroll_x_dim)
              (split_at x)
          ∙ ap (λ f. each_pixel f scroll_x_dim x) row,
      fill_from_lem (along pixels m (x / block_dim) sub_x) scroll_y_dim (y / block_dim) sub_y
            scroll_y_dim enough_y small_y
          ∙ ap (each_pixel (pixel_of (along pixels m (x / block_dim) sub_x)) scroll_y_dim)
              (split_at y)
          ∙ ap (λ f. each_pixel f scroll_y_dim y) column,
    )
