-- ===== src/Tux/Fifo.antt =====
-- mp2_rthakk21/module/tuxctl-ld.c: a ring buffer as the queue of the bytes that it holds.
use ece391_sp.Prelude.{
  ℕ, zero, suc, ◌+◌, ◌-◌, ◌%◌, ◌≡◌, ◌≢◌, ◌<◌, refl, sym, ap, ◌∙◌, true, false, List, [], ◌∷◌, ◌++◌,
  length, get_or, set, take, drop, arith, length-set, Bool-cases, inl, inr,
}
use mathlib.Core.List.{append-nil, append_assoc}
use ece391_sp.Tux.Ring.{
  Ring, IsRing, buf_size, buf_used, buf_empty, buf_full, buf_incidx, store, fill, drain,
}

-- The `n` bytes from index `i` on, round the end of the buffer.
abbrev pub held : List ℕ → ℕ → ℕ → List ℕ
held buf i zero = []
held buf i (suc n) = get_or buf i 0 ∷ held buf (buf_incidx i) n

abbrev pub used : Ring → ℕ
used r = buf_used r.start r.end

abbrev pub contents : Ring → List ℕ
contents r = held r.buf r.start (used r)

pub length-contents : (buf : List ℕ) (i n : ℕ) → length (held buf i n) ≡ n
length-contents buf i zero = refl
length-contents buf i (suc n) = ap suc (length-contents buf (buf_incidx i) n)

get_or-set_self : (xs : List ℕ) (i x : ℕ) → i < length xs → get_or (set xs i x) i 0 ≡ x
get_or-set_self [] i x below = absurd (omega (arith, below))
get_or-set_self (y ∷ ys) zero x below = refl
get_or-set_self (y ∷ ys) (suc i) x below = get_or-set_self ys i x (omega (arith, below))

get_or-set_ne : (xs : List ℕ) (i j x : ℕ) → i ≢ j → get_or (set xs i x) j 0 ≡ get_or xs j 0
get_or-set_ne [] i j x ne = refl
get_or-set_ne (y ∷ ys) zero zero x ne = absurd (ne refl)
get_or-set_ne (y ∷ ys) zero (suc j) x ne = refl
get_or-set_ne (y ∷ ys) (suc i) zero x ne = refl
get_or-set_ne (y ∷ ys) (suc i) (suc j) x ne = get_or-set_ne ys i j x (λ e. ne (ap suc e))

-- A write at the end of a run of bytes makes the run longer by that byte.
held-set :
    (buf : List ℕ) (x n i : ℕ)
    → length buf ≡ buf_size
    → i < buf_size
    → n < buf_size
    → held (set buf ((i + n) % buf_size) x) i (suc n) ≡ held buf i n ++ (x ∷ [])
held-set buf x zero i len below few =
    let e : (i + 0) % buf_size ≡ i = omega arith in
    ap (λ b. b ∷ []) (ap (λ k. get_or (set buf k x) i 0) e ∙ get_or-set_self buf i x (omega arith))
held-set buf x (suc n) i len below few =
    let e : (buf_incidx i + n) % buf_size ≡ (i + suc n) % buf_size = omega arith in
    ap (λ b. b ∷ held (set buf ((i + suc n) % buf_size) x) (buf_incidx i) (suc n))
      (get_or-set_ne buf ((i + suc n) % buf_size) i x (omega arith))
    ∙ ap (λ l. get_or buf i 0 ∷ l)
        (ap (λ k. held (set buf k x) (buf_incidx i) (suc n)) (sym e)
          ∙ held-set buf x n (buf_incidx i) len (omega arith) (omega arith))

store-IsRing : {r : Ring} (x : ℕ) → IsRing r → IsRing (store r x)
store-IsRing {r} x v = ground (arith, length-set r.buf r.end x)

used_end : {r : Ring} → IsRing r → r.end ≡ (r.start + used r) % buf_size
used_end {r} v = ground arith

pub used_le : {r : Ring} → IsRing r → used r < buf_size
used_le {r} v = ground arith

used-store : {r : Ring} (x : ℕ) → IsRing r → buf_full r ≡ false → used (store r x) ≡ suc (used r)
used-store {r} x v free = ground arith

used_full : {r : Ring} → IsRing r → buf_full r ≡ true → used r ≡ 63
used_full {r} v full = ground arith

used_free : {r : Ring} → IsRing r → buf_full r ≡ false → used r < 63
used_free {r} v free = ground arith

contents-store :
    {r : Ring} (x : ℕ)
    → IsRing r
    → buf_full r ≡ false
    → contents (store r x) ≡ contents r ++ (x ∷ [])
contents-store {r} x v free =
    ap (held (set r.buf r.end x) r.start) (used-store x v free)
    ∙ ap (λ k. held (set r.buf k x) r.start (suc (used r))) (used_end v)
    ∙ held-set r.buf x (used r) r.start v.storage v.start_in (used_le v)

-- What filling a ring does: it takes the bytes that there is room for, in order.
pub record Filled (r : Ring) (xs : List ℕ) : Type 0 where
  pub keeps : IsRing (fill xs r).1
  pub left : (fill xs r).0 ≡ length xs - (63 - used r)
  pub holds : contents (fill xs r).1 ≡ contents r ++ take (63 - used r) xs

module _ (x : ℕ) (xs : List ℕ) {r : Ring} (v : IsRing r) where
  fill_full : buf_full r ≡ true → fill (x ∷ xs) r ≡ (suc (length xs), r)
  unfolding fill
  fill_full full = rw full

  fill_step : buf_full r ≡ false → fill (x ∷ xs) r ≡ fill xs (store r x)
  unfolding fill
  fill_step free = rw free

  Filled-full : buf_full r ≡ true → Filled r (x ∷ xs)
  Filled-full full =
      let none_left : 63 - used r ≡ 0 = omega (arith, used_full v full) in
      record {
        keeps = rw (fill_full full) v;
        left = ap (λ p. p.0) (fill_full full) ∙ omega (arith, none_left);
        holds = rw (fill_full full, none_left, append-nil (contents r));
      }

  Filled-step : buf_full r ≡ false → Filled (store r x) xs → Filled r (x ∷ xs)
  Filled-step free rest =
      let room : 63 - used r ≡ suc (63 - used (store r x)) =
        omega (arith, used_free v free, used-store x v free) in
      record {
        keeps = rw (fill_step free) (rest.keeps);
        left = ap (λ p. p.0) (fill_step free) ∙ rest.left ∙ omega (arith, room);
        holds =
            rw (fill_step free, room, rest.holds, contents-store x v free)
              (append_assoc (contents r) (x ∷ []) (take (63 - used (store r x)) xs));
      }

take_none : (n : ℕ) → take {A = ℕ} n [] ≡ []
take_none zero = refl
take_none (suc n) = refl

pub fill_lem : (xs : List ℕ) {r : Ring} → IsRing r → Filled r xs
unfolding fill
fill_lem [] {r} v = record {
  keeps = v;
  left = omega arith;
  holds = sym (ap (λ l. contents r ++ l) (take_none (63 - used r)) ∙ append-nil (contents r));
}
fill_lem (x ∷ xs) {r} v = elim (Bool-cases (buf_full r)) [
  | inl full ↦ Filled-full x xs v full
  | inr free ↦ Filled-step x xs v free (fill_lem xs (store-IsRing x v))
]

-- What emptying a ring does: it hands out the oldest bytes, in order, and keeps the others.
pub record Drained (n : ℕ) (r : Ring) : Type 0 where
  pub keeps : IsRing (drain n r).1
  pub out : (drain n r).0 ≡ take n (contents r)
  pub holds : contents (drain n r).1 ≡ drop n (contents r)

abbrev advance : Ring → Ring
advance r = record r { start = buf_incidx r.start }

advance-IsRing : {r : Ring} → IsRing r → IsRing (advance r)
advance-IsRing {r} v = ground arith

used_empty : (r : Ring) → buf_empty r ≡ true → used r ≡ 0
used_empty r e = ground arith

used-advance : {r : Ring} → IsRing r → buf_empty r ≡ false → used r ≡ suc (used (advance r))
used-advance {r} v ne = ground arith

contents-advance :
    {r : Ring}
    → IsRing r
    → buf_empty r ≡ false
    → contents r ≡ get_or r.buf r.start 0 ∷ contents (advance r)
contents-advance {r} v ne = ap (held r.buf r.start) (used-advance v ne)

drop_none : (n : ℕ) → drop {A = ℕ} n [] ≡ []
drop_none zero = refl
drop_none (suc n) = refl

module _ (n : ℕ) {r : Ring} (v : IsRing r) where
  drain_empty : buf_empty r ≡ true → drain (suc n) r ≡ ([], r)
  unfolding drain
  drain_empty e = rw e

  drain_step :
      buf_empty r ≡ false
      → drain (suc n) r
        ≡ (get_or r.buf r.start 0 ∷ (drain n (advance r)).0, (drain n (advance r)).1)
  unfolding drain
  drain_step ne = rw ne

  Drained-empty : buf_empty r ≡ true → Drained (suc n) r
  Drained-empty e =
      let none : contents r ≡ [] = ap (held r.buf r.start) (used_empty r e) in
      record {
        keeps = rw (drain_empty e) v;
        out = rw (drain_empty e, none);
        holds = rw (drain_empty e, none);
      }

  Drained-step : buf_empty r ≡ false → Drained n (advance r) → Drained (suc n) r
  Drained-step ne rest = record {
    keeps = rw (drain_step ne) (rest.keeps);
    out = rw (drain_step ne, contents-advance v ne, rest.out);
    holds = rw (drain_step ne, contents-advance v ne) (rest.holds);
  }

pub drain_lem : (n : ℕ) {r : Ring} → IsRing r → Drained n r
unfolding drain
drain_lem zero {r} v = record { keeps = v; out = refl; holds = refl }
drain_lem (suc n) {r} v = elim (Bool-cases (buf_empty r)) [
  | inl e ↦ Drained-empty n v e
  | inr ne ↦ Drained-step n v ne (drain_lem n (advance-IsRing v))
]
