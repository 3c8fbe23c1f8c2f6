-- ===== src/Game/Spots.antt =====
-- mp2_rthakk21/modex.c: the pixels that drawing a block goes through have different places.
use ece391_sp.Prelude.{
  ℕ, zero, suc, ◌+◌, ◌*◌, ◌≡◌, ◌≢◌, ◌≤◌, ◌<◌, refl, ap, arith, List, [], ◌∷◌, ◌++◌, length,
  length-append,
}
use ece391_sp.Game.Level.{block_dim}
use ece391_sp.Game.Paint.{Spot, poke, pixel_place, row_spots, block_spots}

pub poke-ne : (build : ℕ → ℕ) (at v a : ℕ) → a ≢ at → poke build at v a ≡ build a
poke-ne build at v a ne = ground (arith, ne)

pub poke_self : (build : ℕ → ℕ) (at v : ℕ) → poke build at v at ≡ v
poke_self build at v = ground arith

-- An address that no pixel of the list has.
pub data IsFresh (a : ℕ) : List Spot → Type 0 where
  no_spot : IsFresh a []
  other_spot : {p : Spot} {ps : List Spot} → a ≢ p.at → IsFresh a ps → IsFresh a (p ∷ ps)

pub fresh_first : {a : ℕ} {p : Spot} {ps : List Spot} → IsFresh a (p ∷ ps) → a ≢ p.at
fresh_first (other_spot ne f) = ne

pub fresh_rest : {a : ℕ} {p : Spot} {ps : List Spot} → IsFresh a (p ∷ ps) → IsFresh a ps
fresh_rest (other_spot ne f) = f

-- Pixels at different addresses, whose indices count up from `k`.
pub data IsSequence : ℕ → List Spot → Type 0 where
  end_spots : {k : ℕ} → IsSequence k []
  next_spot :
      {k : ℕ} {p : Spot} {ps : List Spot}
      → p.index ≡ k
      → IsFresh p.at ps
      → IsSequence (k + 1) ps
      → IsSequence k (p ∷ ps)

fresh-append :
    {a : ℕ} (xs : List Spot) {ys : List Spot} → IsFresh a xs → IsFresh a ys → IsFresh a (xs ++ ys)
fresh-append [] f g = g
fresh-append (x ∷ xs) (other_spot ne f) g = other_spot ne (fresh-append xs f g)

-- No address of the one list is one of the other.
data IsApart : List Spot → List Spot → Type 0 where
  none_apart : {ys : List Spot} → IsApart [] ys
  one_apart : {x : Spot} {xs ys : List Spot} → IsFresh x.at ys → IsApart xs ys → IsApart (x ∷ xs) ys

IsSequence-append :
    (xs : List Spot) {ys : List Spot} (k : ℕ)
    → IsSequence k xs
    → IsSequence (k + length xs) ys
    → IsApart xs ys
    → IsSequence k (xs ++ ys)
IsSequence-append [] {ys} k s t apart = let e : k + 0 ≡ k = omega arith in rw e at t
IsSequence-append (x ∷ xs) {ys} k (next_spot i fresh s) t (one_apart far apart) =
    let e : k + suc (length xs) ≡ k + 1 + length xs = omega arith in
    next_spot i (fresh-append xs fresh far) (IsSequence-append xs (k + 1) s (rw e at t) apart)

-- The pixels of 12 columns and 12 rows have different places.
place_ne_column :
    (img3 x y d : ℕ) → d < 12 → img3 + pixel_place x y ≢ img3 + pixel_place (x + 1 + d) y
place_ne_column img3 x y d h e = omega (arith, h, e)

place_ne_row :
    (img3 x y c d e : ℕ)
    → c < 12
    → d < 12
    → e < 12
    → img3 + pixel_place (x + c) y ≢ img3 + pixel_place (x + d) (y + 1 + e)
place_ne_row img3 x y c d e hc hd he eq = omega (arith, hc, hd, he, eq)

module _ (img3 : ℕ) where
  fresh_row :
      (a n x y index : ℕ)
      → ((d : ℕ) → d < n → a ≢ img3 + pixel_place (x + d) y)
      → IsFresh a (row_spots img3 n x y index)
  unfolding row_spots
  fresh_row a zero x y index h = no_spot
  fresh_row a (suc n) x y index h =
      let e : x + 0 ≡ x = omega arith in
      other_spot (rw e at (h 0 (omega arith))) (
        fresh_row a n (x + 1) y (index + 1) (λ d below.
          let f : x + suc d ≡ x + 1 + d = omega arith in
          rw f at (h (suc d) (omega (arith, below)))))

  fresh_block :
      (a h w x y index : ℕ)
      → ((d e : ℕ) → d < w → e < h → a ≢ img3 + pixel_place (x + d) (y + e))
      → IsFresh a (block_spots img3 h w x y index)
  unfolding block_spots
  fresh_block a zero w x y index far = no_spot
  fresh_block a (suc h) w x y index far =
      fresh-append (row_spots img3 w x y index)
        (fresh_row a w x y index
          (λ d below. let e : y + 0 ≡ y = omega arith in rw e at (far d 0 below (omega arith))))
        (fresh_block a h w x (y + 1) (index + block_dim) (λ d e hd he.
          let f : y + suc e ≡ y + 1 + e = omega arith in
          rw f at (far d (suc e) hd (omega (arith, he)))))

  row-IsSequence : (n x y index : ℕ) → n ≤ 12 → IsSequence index (row_spots img3 n x y index)
  unfolding row_spots
  row-IsSequence zero x y index h = end_spots
  row-IsSequence (suc n) x y index h =
      next_spot refl
        (fresh_row (img3 + pixel_place x y) n (x + 1) y (index + 1)
          (λ d below. place_ne_column img3 x y d (omega (arith, h, below))))
        (row-IsSequence n (x + 1) y (index + 1) (omega (arith, h)))

  row-IsApart :
      (n c x y index h index' : ℕ)
      → c + n ≤ 12
      → h ≤ 12
      → IsApart (row_spots img3 n (x + c) y index) (block_spots img3 h 12 x (y + 1) index')
  unfolding row_spots
  row-IsApart zero c x y index h index' hc hh = none_apart
  row-IsApart (suc n) c x y index h index' hc hh =
      let e : x + (c + 1) ≡ x + c + 1 = omega arith in
      one_apart
        (fresh_block (img3 + pixel_place (x + c) y) h 12 x (y + 1) index'
          (λ d e hd he. place_ne_row img3 x y c d e (omega (arith, hc)) hd (omega (arith, he, hh))))
        (rw e at (row-IsApart n (c + 1) x y (index + 1) h index' (omega (arith, hc)) hh))

  length-row_spots : (n x y index : ℕ) → length (row_spots img3 n x y index) ≡ n
  unfolding row_spots
  length-row_spots zero x y index = refl
  length-row_spots (suc n) x y index = ap suc (length-row_spots n (x + 1) y (index + 1))

  pub block-IsSequence :
      (h x y index : ℕ)
      → h ≤ 12
      → IsSequence index (block_spots img3 h 12 x y index)
        × (length (block_spots img3 h 12 x y index) ≡ h * 12)
  unfolding block_spots
  block-IsSequence zero x y index hh = (end_spots, refl)
  block-IsSequence (suc h) x y index hh =
      let (s, l) = block-IsSequence h x (y + 1) (index + block_dim) (omega (arith, hh)) in
      let e : x + 0 ≡ x = omega arith in
      (
        IsSequence-append (row_spots img3 12 x y index) index
            (row-IsSequence 12 x y index (omega arith)) (rw (length-row_spots 12 x y index) s)
            (rw e at
              (row-IsApart 12 0 x y index h (index + block_dim) (omega arith) (omega (arith, hh)))),
        omega (
          arith,
          l,
          length-append (row_spots img3 12 x y index)
              (block_spots img3 h 12 x (y + 1) (index + block_dim)),
          length-row_spots 12 x y index,
        ),
      )
