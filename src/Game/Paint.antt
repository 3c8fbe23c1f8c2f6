-- ===== src/Game/Paint.antt =====
-- mp2_rthakk21/modex.c: the drawing of blocks into the build buffer, which holds a picture as four planes.
use ece391_sp.Prelude.{
  ℕ, zero, suc, ◌+◌, ◌-◌, ◌*◌, ◌/◌, ◌%◌, List, [], ◌∷◌, ◌++◌, ◌||◌, leb, ◌==◌, if◌then◌else◌,
  Option, none, some, get_elem?, ◌>>=◌, ltb,
}
use ece391_sp.Game.Level.{block_dim, scroll_x_dim, scroll_y_dim}

-- The memory with the build buffer, the address `img3`, and the window's place. The buffer's places are
-- numbered by address.
pub record Screen : Type 0 where
  pub build : ℕ → ℕ
  pub img3 : ℕ
  pub show_x : ℕ
  pub show_y : ℕ

abbrev pub scroll_x_width : ℕ
scroll_x_width = 80

abbrev pub scroll_size : ℕ
scroll_size = scroll_x_width * scroll_y_dim

-- The place of a pixel from `img3` on.
abbrev pub pixel_place : ℕ → ℕ → ℕ
pixel_place x y = x / 4 + y * scroll_x_width + (3 - x % 4) * scroll_size

-- A pixel of a block on the screen: its place, and its index in the block.
pub record Spot : Type 0 where
  pub at : ℕ
  pub index : ℕ

-- The rounds of the inner loop: `n` pixels from (`x`, `y`) on.
unfoldable pub row_spots : ℕ → ℕ → ℕ → ℕ → ℕ → List Spot
row_spots img3 zero x y index = []
row_spots img3 (suc n) x y index =
    record { at = img3 + pixel_place x y; index = index } ∷ row_spots img3 n (x + 1) y (index + 1)

-- The rounds of the outer loop: `h` rows of `w` pixels. A row's data begin `block_dim` after the last's.
unfoldable pub block_spots : ℕ → ℕ → ℕ → ℕ → ℕ → ℕ → List Spot
block_spots img3 zero w x y index = []
block_spots img3 (suc h) w x y index =
    row_spots img3 w x y index ++ block_spots img3 h w x (y + 1) (index + block_dim)

-- The pixels of a block at a place that lie in the window.
unfoldable pub visible_spots : Screen → ℕ → ℕ → List Spot
visible_spots s pos_x pos_y =
    let x_left = s.show_x - pos_x in
    let y_top = s.show_y - pos_y in
    let x_end = s.show_x + scroll_x_dim - pos_x in
    let y_end = s.show_y + scroll_y_dim - pos_y in
    let x_right = (if ltb block_dim x_end then block_dim else x_end) in
    let y_bottom = (if ltb block_dim y_end then block_dim else y_end) in
    if leb (pos_x + block_dim) s.show_x
      || leb (s.show_x + scroll_x_dim) pos_x
      || leb (pos_y + block_dim) s.show_y
      || leb (s.show_y + scroll_y_dim) pos_y
    then []
    else block_spots s.img3 (y_bottom - y_top) (x_right - x_left) (pos_x + x_left) (pos_y + y_top)
        (x_left + y_top * block_dim)

abbrev pub poke : (ℕ → ℕ) → ℕ → ℕ → ℕ → ℕ
poke build at v a = if a == at then v else build a

-- The writes of `draw_full_block`.
unfoldable pub draw_spots : List Spot → List ℕ → (ℕ → ℕ) → Option (ℕ → ℕ)
draw_spots [] blk build = some build
draw_spots (p ∷ ps) blk build = do v ← get_elem? blk p.index; draw_spots ps blk (poke build p.at v)

unfoldable pub draw_full_block : ℕ → ℕ → List ℕ → Screen → Option Screen
draw_full_block pos_x pos_y blk s = do
  build ← draw_spots (visible_spots s pos_x pos_y) blk s.build
  some (record s { build = build })

-- The rounds of `draw_mask_block`: the mask is read, and the old values are written, one after the other;
-- the block's data are read where they are opaque.
unfoldable pub mask_spots : List Spot → List ℕ → List ℕ → (ℕ → ℕ) → Option (List ℕ × (ℕ → ℕ))
mask_spots [] blk mask build = some ([], build)
mask_spots (p ∷ ps) blk [] build = none
mask_spots (p ∷ ps) blk (opaque ∷ mask) build = do
  build' ←
      if opaque == 1 then get_elem? blk p.index >>= (λ v. some (poke build p.at v)) else some build
  (old_values, end) ← mask_spots ps blk mask build'
  some (build p.at ∷ old_values, end)

-- The values for `old_value_buf`, beside the screen.
unfoldable pub draw_mask_block : ℕ → ℕ → List ℕ → List ℕ → Screen → Option (List ℕ × Screen)
draw_mask_block pos_x pos_y blk mask s = do
  (old_values, build) ← mask_spots (visible_spots s pos_x pos_y) blk mask s.build
  some (old_values, record s { build = build })
