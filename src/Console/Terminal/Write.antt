-- ===== src/Console/Terminal/Write.antt =====
-- What a write of mp3_group_59/student-distrib/terminal_driver.c shows and returns.
use native.Mathlib.Decide.{dec_lt}
use ece391_sp.Prelude.{
  ℕ, zero, suc, ◌<◌, ◌≤◌, ◌≡◌, ◌≢◌, refl, ap, arith, List, [], ◌∷◌, ◌++◌, some, length, take, drop,
  replicate, true, false, pos, fail, ltb, drop_past, take_all, take-append, length-append, ℤ,
}
use ece391_sp.Console.{Console, putc}
pub use ece391_sp.Strings.{IsNonzero}
use ece391_sp.Strings.Reverse.{IsNonzero-append}
use ece391_sp.Console.Terminal.{show_chars, show_buffer, temp_buffer, terminal_write}

-- The characters shown one after the other.
abbrev pub put_all : List ℕ → Console → Console
put_all [] k = k
put_all (c ∷ cs) k = put_all cs (putc c k)

show_chars_all : (cs : List ℕ) (k : Console) → IsNonzero cs → show_chars cs k ≡ (true, put_all cs k)
unfolding show_chars
show_chars_all [] k h = refl
show_chars_all (c ∷ cs) k h = ground (arith, h.0, show_chars_all cs (putc c k) h.1)

show_chars_stop :
    (cs rest : List ℕ) (k : Console)
    → IsNonzero cs
    → show_chars (cs ++ (0 ∷ rest)) k ≡ (false, put_all cs k)
unfolding show_chars
show_chars_stop [] rest k h = refl
show_chars_stop (c ∷ cs) rest k h = ground (arith, h.0, show_chars_stop cs rest (putc c k) h.1)

put_all_empty : (cs : List ℕ) (k : Console) → length cs ≡ 0 → put_all cs k ≡ k
put_all_empty [] k h = refl
put_all_empty (c ∷ cs) k h = absurd (omega (arith, h))

zeros_left :
    (n m : ℕ) (rest : List ℕ) → n < m → (t : List ℕ) × (drop n (replicate m 0 ++ rest) ≡ 0 ∷ t)
zeros_left n zero rest h = absurd (omega arith)
zeros_left zero (suc m) rest h = (replicate m 0 ++ rest, refl)
zeros_left (suc n) (suc m) rest h = zeros_left n m rest (omega arith)

append_nil : (cs : List ℕ) → cs ++ [] ≡ cs
append_nil [] = refl
append_nil (c ∷ cs) = ap (λ r. c ∷ r) (append_nil cs)

break-IsNonzero : IsNonzero (b'\n' ∷ [])
break-IsNonzero = ((λ z. omega (arith, z)), tt)

drop_all : (n : ℕ) → 80 ≤ n → drop n temp_buffer ≡ []
drop_all n h = drop_past n temp_buffer h

-- For a buffer of n bytes, none of them zero: up to 78 bytes are shown and 0 is returned; 79 are shown
-- with a line break behind them, 80 and more are shown, and these return n.
pub terminal_write_lem :
    (buf : List ℕ) (k : Console)
    → IsNonzero buf
    → (length buf < 79
        → terminal_write (some buf) (pos (length buf)) k ≡ some (pos 0, put_all buf k))
      × (length buf ≡ 79
          → terminal_write (some buf) (pos (length buf)) k
            ≡ some (pos 79, put_all (buf ++ (b'\n' ∷ [])) k))
      × (80 ≤ length buf
          → terminal_write (some buf) (pos (length buf)) k ≡ some (pos (length buf), put_all buf k))
unfolding terminal_write show_buffer
terminal_write_lem buf k h = (few, line, many)
  where
    few :
        length buf < 79
        → terminal_write (some buf) (pos (length buf)) k ≡ some (pos 0, put_all buf k)
    few lt =
        let (t, e) = zeros_left (length buf) 79 (b'\n' ∷ []) lt in
        rw (take_all buf, e, show_chars_stop buf t k h) (ground (arith, put_all_empty buf k))

    line :
        length buf ≡ 79
        → terminal_write (some buf) (pos (length buf)) k
          ≡ some (pos 79, put_all (buf ++ (b'\n' ∷ [])) k)
    line e = rw (
      take_all buf,
      e,
      show_chars_all (buf ++ (b'\n' ∷ [])) k (IsNonzero-append buf (b'\n' ∷ []) h break-IsNonzero),
    )

    many :
        80 ≤ length buf
        → terminal_write (some buf) (pos (length buf)) k ≡ some (pos (length buf), put_all buf k)
    many le =
        rw (take_all buf, drop_all (length buf) le, append_nil buf, show_chars_all buf k h)
          (ground arith)

-- A write of the first bytes of an object is the write of an object of just these.
pub terminal_write-append :
    (bytes rest : List ℕ) (k : Console)
    → terminal_write (some (bytes ++ rest)) (pos (length bytes)) k
      ≡ terminal_write (some bytes) (pos (length bytes)) k
unfolding terminal_write show_buffer
terminal_write-append bytes rest k =
    let whole : ltb (length (bytes ++ rest)) (length bytes) ≡ false =
      ground (arith, length-append bytes rest) in
    let self : ltb (length bytes) (length bytes) ≡ false = ground arith in
    rw (take-append bytes rest, take_all bytes, whole, self)

-- Whatever the number of bytes but 79, they are what is shown, and the result is not -1.
pub terminal_write_shows :
    (bytes : List ℕ) (k : Console)
    → IsNonzero bytes
    → length bytes ≢ 79
    → (ret : ℤ) × (terminal_write (some bytes) (pos (length bytes)) k ≡ some (ret, put_all bytes k))
      × (ret ≢ fail)
terminal_write_shows bytes k h ne = elim (dec_lt (length bytes) 79) [
  | yes p ↦ (pos 0, (terminal_write_lem bytes k h).0 p, λ e. cc)
  | no q ↦ (pos (length bytes), (terminal_write_lem bytes k h).2 (omega (arith, ne)), λ e. cc)
]

pub put_all-append :
    (cs ds : List ℕ) (k : Console) → put_all (cs ++ ds) k ≡ put_all ds (put_all cs k)
put_all-append [] ds k = refl
put_all-append (c ∷ cs) ds k = put_all-append cs ds (putc c k)

pub IsNonzero-take : (n : ℕ) (cs : List ℕ) → IsNonzero cs → IsNonzero (take n cs)
IsNonzero-take zero cs h = tt
IsNonzero-take (suc n) [] h = tt
IsNonzero-take (suc n) (c ∷ cs) h = (h.0, IsNonzero-take n cs h.1)

pub IsNonzero-drop : (n : ℕ) (cs : List ℕ) → IsNonzero cs → IsNonzero (drop n cs)
IsNonzero-drop zero cs h = h
IsNonzero-drop (suc n) [] h = tt
IsNonzero-drop (suc n) (c ∷ cs) h = IsNonzero-drop n cs h.1
