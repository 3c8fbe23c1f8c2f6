-- ===== src/Devices/Pic/Masks.antt =====
-- Which interrupts mp3_group_59/student-distrib/i8259.c lets through.
use Prim.Native.Nat.{bit_or}
use ece391_sp.Prelude.{
  ℕ, ◌+◌, ◌-◌, ◌/◌, ◌%◌, ◌^◌, ◌≤◌, ◌<◌, ◌≡◌, refl, arith, ltb, ◌==◌, ==_iff, if◌then◌else◌, checked,
  checked-true, [], ◌∷◌, ◌++◌, Bool, true,
}
use ece391_sp.Devices.Pic.{
  Pic, clear_bit, set_bit, enable_irq, disable_irq, send_eoi, irq_prim_num, eoi, master_port,
  slave_port,
}

-- Bit i of a mask: 1 keeps the interrupt out.
abbrev pub bit : ℕ → ℕ → ℕ
bit mask i = mask / 2 ^ i % 2

-- One test for a mask, a bit to change and a bit to look at.
clears : ℕ → ℕ → ℕ → Bool
unfolding clear_bit
clears mask n i = bit (clear_bit mask n) i == (if i == n then 0 else bit mask i)

sets : ℕ → ℕ → ℕ → Bool
unfolding set_bit
sets mask n i = bit (set_bit mask n) i == (if i == n then 1 else bit mask i)

clears_table : checked (λ m. checked (λ n. checked (clears m n) 8) 8) 256 ≡ true
unfolding checked clears
clears_table = refl

sets_table : checked (λ m. checked (λ n. checked (sets m n) 8) 8) 256 ≡ true
unfolding checked sets
sets_table = refl

bit-clear_bit :
    (mask n i : ℕ)
    → mask < 256
    → n < 8
    → i < 8
    → bit (clear_bit mask n) i ≡ (if i == n then 0 else bit mask i)
unfolding clears clear_bit
bit-clear_bit mask n i hm hn hi =
    let masks =
      checked-true (λ m. checked (λ j. checked (clears m j) 8) 8) 256 mask hm clears_table in
    let changed = checked-true (λ j. checked (clears mask j) 8) 8 n hn masks in
    (==_iff _ _).0 (checked-true (clears mask n) 8 i hi changed)

bit-set_bit :
    (mask n i : ℕ)
    → mask < 256
    → n < 8
    → i < 8
    → bit (set_bit mask n) i ≡ (if i == n then 1 else bit mask i)
unfolding sets set_bit
bit-set_bit mask n i hm hn hi =
    let masks = checked-true (λ m. checked (λ j. checked (sets m j) 8) 8) 256 mask hm sets_table in
    let changed = checked-true (λ j. checked (sets mask j) 8) 8 n hn masks in
    (==_iff _ _).0 (checked-true (sets mask n) 8 i hi changed)

-- Both masks are bytes.
pub record IsPic (p : Pic) : Type 0 where
  pub master_byte : p.master_mask < 256
  pub slave_byte : p.slave_mask < 256

-- Whether interrupt line i of the sixteen is kept out.
abbrev pub masked : Pic → ℕ → ℕ
masked p i = if ltb i irq_prim_num then bit p.master_mask i else bit p.slave_mask (i - irq_prim_num)

-- On masks that are bytes, `enable_irq` of a line below 16 lets exactly that line through in addition,
-- and `disable_irq` keeps exactly that line out in addition; a greater number changes nothing at all.
pub masked-enable_irq :
    (p : Pic) (n i : ℕ)
    → IsPic p
    → i < 16
    → (n < 16 → masked (enable_irq n p) i ≡ (if i == n then 0 else masked p i))
      × (n < 16 → masked (disable_irq n p) i ≡ (if i == n then 1 else masked p i))
      × (16 ≤ n → (enable_irq n p ≡ p) × (disable_irq n p ≡ p))
unfolding enable_irq disable_irq
masked-enable_irq p n i v h = (
  (λ k. ground (
    arith,
    bit-clear_bit p.master_mask n i v.master_byte,
    bit-clear_bit p.slave_mask (n - irq_prim_num) (i - irq_prim_num) v.slave_byte,
  )),
  (λ k. ground (
    arith,
    bit-set_bit p.master_mask n i v.master_byte,
    bit-set_bit p.slave_mask (n - irq_prim_num) (i - irq_prim_num) v.slave_byte,
  )),
  λ k. (ground arith, ground arith),
)

-- The controllers are told of the end of an interrupt below 8 by one write to the first, and of one from
-- 8 to 15 by a write to the second and then one for line 2 to the first; a greater number is ignored.
log-send_eoi :
    (p : Pic) (n : ℕ)
    → (n < 8 → (send_eoi n p).log ≡ p.log ++ ((master_port, 0x60 + n) ∷ []))
      × (8 ≤ n
          → n < 16
          → (send_eoi n p).log
            ≡ (p.log ++ ((slave_port, 0x60 + (n - 8)) ∷ [])) ++ ((master_port, 0x62) ∷ []))
      × (16 ≤ n → send_eoi n p ≡ p)
unfolding send_eoi checked
log-send_eoi p n = (
  (λ h. ground (arith, eoi_word n)),
  (λ h k. ground (arith, eoi_word (n - 8))),
  λ h. ground arith,
)
  where
    eoi_test : checked (λ m. bit_or m eoi % 256 == 0x60 + m) 8 ≡ true
    eoi_test = refl

    eoi_word : (m : ℕ) → m < 8 → bit_or m eoi % 256 ≡ 0x60 + m
    eoi_word m h =
        (==_iff _ _).0 (checked-true (λ j. bit_or j eoi % 256 == 0x60 + j) 8 m h eoi_test)
