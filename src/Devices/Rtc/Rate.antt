-- ===== src/Devices/Rtc/Rate.antt =====
-- Which frequencies mp3_group_59/student-distrib/rtc.c sets, what it returns, and what a read waits for.
use Prim.Native.Nat.{bit_and, bit_or}
use ece391_sp.Prelude.{
  ℕ, zero, suc, ◌+◌, ◌-◌, ◌%◌, ◌^◌, ◌<◌, ◌≡◌, ◌≢◌, refl, ap, arith, Option, none, some, [], ◌∷◌,
  ◌++◌, ℤ, pos, negsuc, fail, eqb_ℤ, false,
}
use ece391_sp.Devices.Rtc.{
  Rtc, hex_rate, set_rate, rtc_set_freq, rtc_write, rtc_open, rtc_read, wait_tick, rtc_handler,
  rtc_rega, rtc_port, cmos_port,
}

-- The writes that set a rate in register A, keeping its upper half.
abbrev pub with_rate : ℕ → ℕ → Rtc → Rtc
with_rate prev rate r = record r {
  pic = record (r.pic) {
    log =
        ((r.pic.log ++ ((rtc_port, rtc_rega) ∷ [])) ++ ((rtc_port, rtc_rega) ∷ []))
        ++ ((cmos_port, bit_or (bit_and prev 0xF0) rate % 256) ∷ []);
  };
}

hex_rate_power : (j : ℕ) → j < 10 → hex_rate (2 ^ (j + 1)) ≡ some (15 - j)
unfolding hex_rate
hex_rate_power zero h = refl
hex_rate_power (suc zero) h = refl
hex_rate_power (suc (suc zero)) h = refl
hex_rate_power (suc (suc (suc zero))) h = refl
hex_rate_power (suc (suc (suc (suc zero)))) h = refl
hex_rate_power (suc (suc (suc (suc (suc zero))))) h = refl
hex_rate_power (suc (suc (suc (suc (suc (suc zero)))))) h = refl
hex_rate_power (suc (suc (suc (suc (suc (suc (suc zero))))))) h = refl
hex_rate_power (suc (suc (suc (suc (suc (suc (suc (suc zero)))))))) h = refl
hex_rate_power (suc (suc (suc (suc (suc (suc (suc (suc (suc zero))))))))) h = refl
hex_rate_power (suc (suc (suc (suc (suc (suc (suc (suc (suc (suc j)))))))))) h =
    absurd (omega arith)

-- A frequency is a power of two from 2 to 1024.
abbrev pub IsRate : ℤ → Type 0
IsRate f = (j : ℕ) × (j < 10) × (f ≡ pos (2 ^ (j + 1)))

hex_rate-none :
    (freq : ℕ)
    → freq ≢ 2
    → freq ≢ 4
    → freq ≢ 8
    → freq ≢ 16
    → freq ≢ 32
    → freq ≢ 64
    → freq ≢ 128
    → freq ≢ 256
    → freq ≢ 512
    → freq ≢ 1024
    → hex_rate freq ≡ none
unfolding hex_rate
hex_rate-none freq a b c d e f g h i j = ground arith

power_even : (j : ℕ) → j < 10 → 2 ^ (j + 1) % 2 ≡ 0
power_even zero h = refl
power_even (suc zero) h = refl
power_even (suc (suc zero)) h = refl
power_even (suc (suc (suc zero))) h = refl
power_even (suc (suc (suc (suc zero)))) h = refl
power_even (suc (suc (suc (suc (suc zero))))) h = refl
power_even (suc (suc (suc (suc (suc (suc zero)))))) h = refl
power_even (suc (suc (suc (suc (suc (suc (suc zero))))))) h = refl
power_even (suc (suc (suc (suc (suc (suc (suc (suc zero)))))))) h = refl
power_even (suc (suc (suc (suc (suc (suc (suc (suc (suc zero))))))))) h = refl
power_even (suc (suc (suc (suc (suc (suc (suc (suc (suc (suc j)))))))))) h = absurd (omega arith)

not_rate : (freq : ℕ) → ¬ (IsRate (pos freq)) → hex_rate freq ≡ none
not_rate freq k =
    hex_rate-none freq (not_power 0 (omega arith)) (not_power 1 (omega arith))
      (not_power 2 (omega arith)) (not_power 3 (omega arith)) (not_power 4 (omega arith))
      (not_power 5 (omega arith)) (not_power 6 (omega arith)) (not_power 7 (omega arith))
      (not_power 8 (omega arith)) (not_power 9 (omega arith))
  where
    not_power : (j : ℕ) → j < 10 → freq ≢ 2 ^ (j + 1)
    not_power j h e = k (j, h, ap pos e)

-- For a power of two from 2 to 1024 `rtc_set_freq` returns 1 and writes the rate 15 - j, for the power
-- j + 1, to register A, whose upper half it keeps; for any other integer it returns -1 and does nothing.
pub rtc_set_freq_lem :
    (prev : ℕ) (r : Rtc)
    → ((j : ℕ)
        → j < 10
        → rtc_set_freq prev (pos (2 ^ (j + 1))) r ≡ (pos 1, with_rate prev (15 - j) r))
      × ((f : ℤ) → ¬ (IsRate f) → rtc_set_freq prev f r ≡ (fail, r))
unfolding rtc_set_freq set_rate
rtc_set_freq_lem prev r = (of_power, other)
  where
    of_power :
        (j : ℕ)
        → j < 10
        → rtc_set_freq prev (pos (2 ^ (j + 1))) r ≡ (pos 1, with_rate prev (15 - j) r)
    of_power j h = rw (hex_rate_power j h, power_even j h)

    other : (f : ℤ) → ¬ (IsRate f) → rtc_set_freq prev f r ≡ (fail, r)
    other (negsuc n) k = refl
    other (pos n) k = rw (not_rate n k) (ground arith)

set_rate_nonzero : (prev : ℕ) (o : Option ℕ) (r : Rtc) → eqb_ℤ (set_rate prev o r).0 (pos 0) ≡ false
unfolding set_rate
set_rate_nonzero prev none r = refl
set_rate_nonzero prev (some x) r = refl

rtc_set_freq_nonzero :
    (prev : ℕ) (f : ℤ) (r : Rtc) → eqb_ℤ (rtc_set_freq prev f r).0 (pos 0) ≡ false
unfolding rtc_set_freq
rtc_set_freq_nonzero prev (negsuc n) r = refl
rtc_set_freq_nonzero prev (pos n) r = ground (arith, set_rate_nonzero prev (hex_rate n) r)

-- `rtc_write` and `rtc_open` never succeed: whatever the frequency, they return -1, also when the rate is
-- set as `rtc_set_freq` sets it.
pub rtc_write_fails :
    (prev : ℕ) (f : ℤ) (r : Rtc)
    → (rtc_write prev (some f) r ≡ (fail, (rtc_set_freq prev f r).1))
      × (rtc_write prev none r ≡ (fail, r))
      × (rtc_open prev r ≡ (fail, with_rate prev 15 r))
unfolding rtc_write rtc_open
rtc_write_fails prev f r = (
  rw (rtc_set_freq_nonzero prev f r),
  refl,
  rw (rtc_set_freq_nonzero prev (pos 2) r)
      (ap (λ x. (fail, x.1)) ((rtc_set_freq_lem prev r).0 0 (omega arith))),
)

wait_tick-rtc_handler :
    (ticks : ℕ) (r : Rtc) → wait_tick ticks (rtc_handler r) ≡ some (ticks, rtc_handler r)
unfolding wait_tick rtc_handler
wait_tick-rtc_handler zero r = refl
wait_tick-rtc_handler (suc n) r = refl

-- `rtc_read` returns 0 on the first interrupt after its call, whatever the counter held before, and uses
-- up that one interrupt alone; with no interrupt to come it does not return.
pub rtc_read_lem :
    (ticks : ℕ) (r : Rtc)
    → (rtc_read 0 r ≡ none)
      × (rtc_read (suc ticks) r ≡ some (pos 0, ticks, rtc_handler (record r { in_count = 0 })))
unfolding rtc_read
rtc_read_lem ticks r = (refl, rw (wait_tick-rtc_handler ticks (record r { in_count = 0 })))
