-- ===== src/Game/Keys.antt =====
-- mp2_rthakk21/mazegame.c: the keyboard thread against the arrow keys' sequences in its input.
use ece391_sp.Prelude.{
  ℕ, ◌-◌, ◌≡◌, refl, ap, sym, ◌∙◌, inl, inr, ◌⊎◌, arith, List, [], ◌∷◌, Bool, true, false, ◌&&◌,
  leb, ◌==◌, if◌then◌else◌, get_or, Bool-cases,
}
use ece391_sp.Game.Input.{
  Keys, arrow, on_key, keyboard_thread, dir_up, dir_right, dir_down, dir_left,
}

-- The directions of 65 to 68.
abbrev pub arrow_dir : ℕ → ℕ
arrow_dir key = get_or (dir_up ∷ dir_down ∷ dir_right ∷ dir_left ∷ []) (key - 65) 0

abbrev pub is_arrow : ℕ → ℕ → ℕ → Bool
is_arrow k1 k2 key = (k1 == 27) && ((k2 == 91) && (leb 65 key && leb key 68))

-- The direction of the last arrow in some keys, which end at the first backquote: a key from 65 to 68 right
-- after 27 and 91. The two numbers are the keys before.
unfoldable pub last_arrow : ℕ → ℕ → List ℕ → ℕ → ℕ
last_arrow k1 k2 [] dir = dir
last_arrow k1 k2 (key ∷ keys) dir =
    let rest = last_arrow k2 key keys (if is_arrow k1 k2 key then arrow_dir key else dir) in
    if key == 96 then dir else rest

-- The thread's state for the two keys before.
abbrev state_after : ℕ → ℕ → ℕ
state_after k1 k2 = if k2 == 27 then 1 else if (k2 == 91) && (k1 == 27) then 2 else 0

quit_stops : (keys : List ℕ) (k : Keys) → k.quit_flag ≡ true → keyboard_thread keys k ≡ k
unfolding keyboard_thread
quit_stops [] k h = refl
quit_stops (key ∷ keys) k h = rw h refl

arrows-cases :
    (key : ℕ)
    → (leb 65 key && leb key 68) ≡ true
    → (key ≡ 65) ⊎ (key ≡ 66) ⊎ (key ≡ 67) ⊎ (key ≡ 68)
arrows-cases key h = ground (arith, h)

arrow_lem : (key dir : ℕ) → (leb 65 key && leb key 68) ≡ true → arrow key dir ≡ arrow_dir key
unfolding arrow
arrow_lem key dir h = elim (arrows-cases key h) [
  | inl e ↦ rw e
  | inr (inl e) ↦ rw e
  | inr (inr (inl e)) ↦ rw e
  | inr (inr (inr e)) ↦ rw e
]

module _ (k1 k2 key : ℕ) (k : Keys) (h : k.state ≡ state_after k1 k2)
    (on : (key == 96) ≡ false) where
  next_state : (on_key key k).state ≡ state_after k2 key
  unfolding on_key
  next_state = ground (arith, h, on)

  arrow_next : (on_key key k).next_dir ≡ (if is_arrow k1 k2 key then arrow_dir key else k.next_dir)
  unfolding on_key
  arrow_next = ground (arith, h, on, arrow_lem key k.next_dir)

  still_on : (on_key key k).quit_flag ≡ k.quit_flag
  unfolding on_key
  still_on = ground (arith, on)

thread_step :
    (key : ℕ) (keys : List ℕ) (k : Keys)
    → k.quit_flag ≡ false
    → keyboard_thread (key ∷ keys) k ≡ keyboard_thread keys (on_key key k)
unfolding keyboard_thread
thread_step key keys k on = ap (λ b. if b then k else keyboard_thread keys (on_key key k)) on

last_arrow_quit :
    (k1 k2 key : ℕ) (keys : List ℕ) (dir : ℕ)
    → (key == 96) ≡ true
    → last_arrow k1 k2 (key ∷ keys) dir ≡ dir
unfolding last_arrow
last_arrow_quit k1 k2 key keys dir h = rw h refl

last_arrow_step :
    (k1 k2 key : ℕ) (keys : List ℕ) (dir : ℕ)
    → (key == 96) ≡ false
    → last_arrow k1 k2 (key ∷ keys) dir
      ≡ last_arrow k2 key keys (if is_arrow k1 k2 key then arrow_dir key else dir)
unfolding last_arrow
last_arrow_step k1 k2 key keys dir h = rw h refl

quits_now :
    (key : ℕ) (k : Keys)
    → (key == 96) ≡ true
    → ((on_key key k).quit_flag ≡ true) × ((on_key key k).next_dir ≡ k.next_dir)
unfolding on_key
quits_now key k h = ground (arith, h)

thread_lem :
    (keys : List ℕ) (k1 k2 : ℕ) (k : Keys)
    → k.state ≡ state_after k1 k2
    → k.quit_flag ≡ false
    → (keyboard_thread keys k).next_dir ≡ last_arrow k1 k2 keys k.next_dir
unfolding keyboard_thread last_arrow
thread_lem [] k1 k2 k h on = refl
thread_lem (key ∷ keys) k1 k2 k h on = elim (Bool-cases (key == 96)) [
  | inl quits ↦
      let (q, same) = quits_now key k quits in
      ap (λ (s : Keys). s.next_dir) (thread_step key keys k on ∙ quit_stops keys (on_key key k) q)
      ∙ same
      ∙ sym (last_arrow_quit k1 k2 key keys k.next_dir quits)
  | inr goes ↦
      ap (λ (s : Keys). s.next_dir) (thread_step key keys k on)
      ∙ thread_lem keys k2 key (on_key key k) (next_state k1 k2 key k h goes)
          (still_on k1 k2 key k h goes ∙ on)
      ∙ ap (last_arrow k2 key keys) (arrow_next k1 k2 key k h goes)
      ∙ sym (last_arrow_step k1 k2 key keys k.next_dir goes)
]

-- With no part of a sequence read before, the keyboard thread leaves as the next direction that of the
-- last arrow key's sequence before the first backquote, and the one of before if there is none.
pub keyboard_thread_lem :
    (keys : List ℕ) (k : Keys)
    → k.state ≡ 0
    → k.quit_flag ≡ false
    → (keyboard_thread keys k).next_dir ≡ last_arrow 0 0 keys k.next_dir
keyboard_thread_lem keys k h on = thread_lem keys 0 0 k h on
