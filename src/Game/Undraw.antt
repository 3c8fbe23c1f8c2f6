-- ===== src/Game/Undraw.antt =====
-- mp2_rthakk21/modex.c: a player that is drawn over the picture and then undrawn leaves it as it was.
use ece391_sp.Prelude.{
  ℕ, zero, suc, ◌+◌, ◌-◌, ◌≡◌, ◌≢◌, ◌≤◌, ◌<◌, inl, inr, refl, ap, ◌∙◌, arith, List, [], ◌∷◌, length,
  drop, false, Bool-cases, ◌==◌, if◌then◌else◌, some, get_elem?, ◌>>=◌, ◌||◌, leb, ltb,
}
use ece391_sp.Game.Level.{block_dim, scroll_x_dim, scroll_y_dim}
use ece391_sp.Game.Window.{View}
use ece391_sp.Game.Visible.{IsSeen}
use ece391_sp.Game.Paint.{
  Screen, Spot, poke, block_spots, visible_spots, draw_spots, draw_full_block, mask_spots,
  draw_mask_block,
}
use ece391_sp.Game.Spots.{
  IsFresh, IsSequence, next_spot, fresh_first, fresh_rest, block-IsSequence, poke-ne, poke_self,
}

get-inside : (xs : List ℕ) (i : ℕ) → i < length xs → (v : ℕ) × (get_elem? xs i ≡ some v)
get-inside [] i h = absurd (omega (arith, h))
get-inside (x ∷ xs) zero h = (x, refl)
get-inside (x ∷ xs) (suc i) h = get-inside xs i (omega (arith, h))

drop-head :
    (k : ℕ) (xs : List ℕ) (v : ℕ) (vs : List ℕ)
    → drop k xs ≡ v ∷ vs
    → (get_elem? xs k ≡ some v) × (drop (k + 1) xs ≡ vs)
drop-head zero [] v vs h = absurd (ground (arith, h))
drop-head (suc k) [] v vs h = absurd (ground (arith, h))
drop-head zero (x ∷ xs) v vs h = (ap (λ l. get_elem? l 0) h, ap (drop 1) h)
drop-head (suc k) (x ∷ xs) v vs h =
    let e : suc k + 1 ≡ suc (k + 1) = omega arith in
    let (first, rest) = drop-head k xs v vs h in (first, ap (λ n. drop n (x ∷ xs)) e ∙ rest)

-- One round of the masked drawing returns, and changes no other address than its own.
mask_round :
    (p : Spot) (opaque : ℕ) (blk : List ℕ) (build : ℕ → ℕ)
    → p.index < length blk
    → (build' : ℕ → ℕ) × ((if opaque == 1
          then get_elem? blk p.index >>= (λ v. some (poke build p.at v))
          else some build)
        ≡ some build')
      × ((a : ℕ) → a ≢ p.at → build' a ≡ build a)
mask_round p opaque blk build h = elim (Bool-cases (opaque == 1)) [
  | inl solid ↦
      let (v, e) = get-inside blk p.index h in
      (poke build p.at v, rw (solid, e) refl, poke-ne build p.at v)
  | inr clear ↦ (build, rw clear refl, λ a ne. refl)
]

-- The drawing returns the old values, and the drawing of these over what it leaves gives back what was
-- there.
module _ (blk : List ℕ) where
  record Undone (ps : List Spot) (k : ℕ) (build end : ℕ → ℕ) (olds : List ℕ) : Type 0 where
    redraw :
        (values : List ℕ) (now : ℕ → ℕ)
        → drop k values ≡ olds
        → (after : ℕ → ℕ) × (draw_spots ps values now ≡ some after)
          × ((a : ℕ) → now a ≡ end a → after a ≡ build a)
          × ((a : ℕ) → IsFresh a ps → after a ≡ now a)

  Undone-step :
      (p : Spot) (ps : List Spot) (k : ℕ) (build build' end : ℕ → ℕ) (olds : List ℕ)
      → IsFresh p.at ps
      → p.index ≡ k
      → ((a : ℕ) → a ≢ p.at → build' a ≡ build a)
      → Undone ps (k + 1) build' end olds
      → Undone (p ∷ ps) k build end (build p.at ∷ olds)
  unfolding draw_spots
  Undone-step p ps k build build' end olds fresh i kept u = record {
    redraw = λ values now e.
        let (first, rest) = drop-head k values (build p.at) olds e in
        let (after, runs, back, far) = u.redraw values (poke now p.at (build p.at)) rest in
        (
          after,
          rw (i, first) runs,
          (λ a same. elim (Bool-cases (a == p.at)) [
            | inl here ↦
                let e : a ≡ p.at = ground (arith, here) in
                rw e (far p.at fresh ∙ poke_self now p.at (build p.at))
            | inr other ↦
                let ne : a ≢ p.at = λ e. ground (arith, other, e) in
                back a (poke-ne now p.at (build p.at) a ne ∙ same) ∙ kept a ne
          ]),
          λ a f. far a (fresh_rest f) ∙ poke-ne now p.at (build p.at) a (fresh_first f),
        );
  }

  undone :
      (ps : List Spot) (k : ℕ) (mask : List ℕ) (build : ℕ → ℕ)
      → IsSequence k ps
      → k + length ps ≤ length blk
      → length ps ≤ length mask
      → (olds : List ℕ) × (end : ℕ → ℕ) × (mask_spots ps blk mask build ≡ some (olds, end))
        × Undone ps k build end olds
  unfolding mask_spots draw_spots
  undone [] k mask build s hb hm =
      ([], build, refl, record { redraw = λ values now e. (now, refl, (λ a h. h), λ a f. refl) })
  undone (p ∷ ps) k [] build s hb hm = absurd (omega (arith, hm))
  undone (p ∷ ps) k (opaque ∷ mask) build (next_spot i fresh s) hb hm =
      let (build', e, kept) = mask_round p opaque blk build (omega (arith, i, hb)) in
      let (olds, end, f, u) =
        undone ps (k + 1) mask build' s (omega (arith, hb)) (omega (arith, hm)) in
      (
        build p.at ∷ olds,
        end,
        rw (e, f) refl,
        Undone-step p ps k build build' end olds fresh i kept u,
      )

-- A block wholly in the window is drawn whole.
visible_whole :
    (s : Screen) (v : View) (x y : ℕ)
    → s.show_x ≡ v.map_x
    → s.show_y ≡ v.map_y
    → IsSeen v x y
    → visible_spots s x y ≡ block_spots s.img3 12 12 x y 0
unfolding visible_spots
visible_whole s v x y ex ey seen =
    let l : s.show_x - x ≡ 0 = omega (arith, ex, seen.left) in
    let t : s.show_y - y ≡ 0 = omega (arith, ey, seen.top) in
    let r : block_dim ≤ s.show_x + scroll_x_dim - x = omega (arith, ex, seen.right) in
    let b : block_dim ≤ s.show_y + scroll_y_dim - y = omega (arith, ey, seen.bottom) in
    let out : (leb (x + block_dim) s.show_x
          || leb (s.show_x + scroll_x_dim) x
          || leb (y + block_dim) s.show_y
          || leb (s.show_y + scroll_y_dim) y)
        ≡ false =
      ground (arith, ex, ey, seen.left, seen.right, seen.top, seen.bottom) in
    let w : (if ltb block_dim (s.show_x + scroll_x_dim - x)
          then block_dim
          else s.show_x + scroll_x_dim - x)
        ≡ 12 =
      ground (arith, r) in
    let h : (if ltb block_dim (s.show_y + scroll_y_dim - y)
          then block_dim
          else s.show_y + scroll_y_dim - y)
        ≡ 12 =
      ground (arith, b) in
    let x0 : x + 0 ≡ x = omega arith in
    let y0 : y + 0 ≡ y = omega arith in rw (out, w, h, l, t, x0, y0) refl

-- For a block wholly in the window, with 144 pixels or more in the block and in the mask: drawing it with
-- its mask and then drawing the old values as a block both end, and leave every place of the build buffer as
-- it was.
pub draw_full_block-draw_mask_block :
    (s : Screen) (v : View) (x y : ℕ) (blk mask : List ℕ)
    → s.show_x ≡ v.map_x
    → s.show_y ≡ v.map_y
    → IsSeen v x y
    → 144 ≤ length blk
    → 144 ≤ length mask
    → (olds : List ℕ) × (s1 s2 : Screen) × (draw_mask_block x y blk mask s ≡ some (olds, s1))
      × (draw_full_block x y olds s1 ≡ some s2)
      × ((a : ℕ) → s2.build a ≡ s.build a)
unfolding draw_mask_block draw_full_block
draw_full_block-draw_mask_block s v x y blk mask ex ey seen hb hm =
    let spots = visible_whole s v x y ex ey seen in
    let (q, l) = block-IsSequence s.img3 12 x y 0 (omega arith) in
    let (olds, end, e, u) =
      undone blk (block_spots s.img3 12 12 x y 0) 0 mask s.build q (omega (arith, l, hb))
        (omega (arith, l, hm)) in
    let (after, f, back, far) = u.redraw olds end refl in
    let s1 : Screen = record s { build = end } in
    (
      olds,
      s1,
      record s { build = after },
      ap (λ ps. mask_spots ps blk mask s.build >>= (λ r. some (r.0, record s { build = r.1 })))
            spots
          ∙ rw e refl,
      ap (λ ps. draw_spots ps olds end >>= (λ (b : ℕ → ℕ). some (record s { build = b })))
            (visible_whole s1 v x y ex ey seen)
          ∙ rw f refl,
      λ a. back a refl,
    )
