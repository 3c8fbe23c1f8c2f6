-- ===== src/Tux/Ring.antt =====
-- mp2_rthakk21/module/tuxctl-ld.c: the ring buffers of the line discipline, and the loops that
-- fill and empty them. A byte is only moved, so any number stands for one.
use ece391_sp.Prelude.{
  ℕ, zero, suc, ◌+◌, ◌-◌, ◌%◌, ◌≡◌, ◌<◌, Bool, List, [], ◌∷◌, length, get_or, set, ◌==◌, leb,
  if◌then◌else◌,
}

-- `rx_buf` with `rx_start` and `rx_end`, or `tx_buf` with `tx_start` and `tx_end`.
pub record Ring : Type 0 where
  pub buf : List ℕ
  pub start : ℕ
  pub end : ℕ

-- TUXCTL_BUFSIZE
abbrev pub buf_size : ℕ
buf_size = 64

abbrev pub buf_used : ℕ → ℕ → ℕ
buf_used start end = if leb start end then end - start else buf_size + end - start

unfoldable pub buf_room : ℕ → ℕ → ℕ
buf_room start end = buf_size - buf_used start end - 1

abbrev pub buf_empty : Ring → Bool
buf_empty r = r.start == r.end

abbrev pub buf_full : Ring → Bool
buf_full r = (r.end + 1) % buf_size == r.start

abbrev pub buf_incidx : ℕ → ℕ
buf_incidx idx = (idx + 1) % buf_size

-- One round of the loops of `tuxctl_ldisc_rcv_buf` and `tuxctl_ldisc_put`.
abbrev pub store : Ring → ℕ → Ring
store r x = record r { buf = set r.buf r.end x; end = buf_incidx r.end }

-- The loop: the number of bytes left over when the ring is full, and the ring.
unfoldable pub fill : List ℕ → Ring → ℕ × Ring
fill [] r = (0, r)
fill (x ∷ xs) r =
    let rest = fill xs (store r x) in if buf_full r then (suc (length xs), r) else rest

-- The loop of `tuxctl_ldisc_get` and `tuxctl_ldisc_write_wakeup`, for at most `n` bytes.
unfoldable pub drain : ℕ → Ring → List ℕ × Ring
drain zero r = ([], r)
drain (suc n) r =
    let (xs, r') = drain n (record r { start = buf_incidx r.start }) in
    if buf_empty r then ([], r) else (get_or r.buf r.start 0 ∷ xs, r')

-- The indices lie in the buffer.
pub record IsRing (r : Ring) : Type 0 where
  pub storage : length r.buf ≡ buf_size
  pub start_in : r.start < buf_size
  pub end_in : r.end < buf_size
