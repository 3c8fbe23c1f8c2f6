-- ===== src/Devices/Rtc.antt =====
-- The real-time clock, mp3_group_59/student-distrib/rtc.c. Its interrupts while a read waits are an
-- argument: the number of them that are to come.
pub mod Rate
use Prim.Native.Nat.{bit_and, bit_or}
use ece391_sp.Devices.Pic.{Pic, outb, enable_irq, send_eoi}
use ece391_sp.Prelude.{
  ℕ, zero, suc, ◌+◌, ◌%◌, ◌==◌, if◌then◌else◌, Option, none, some, List, [], ◌∷◌, ◌++◌, ℤ, pos,
  negsuc, fail, eqb_ℤ, Bool, true, false, not,
}

-- The counter that the handler sets, and the interrupt controllers with the port writes so far.
pub record Rtc : Type 0 where
  pub in_count : ℕ
  pub pic : Pic

abbrev pub rtc_port : ℕ
rtc_port = 0x70

abbrev pub cmos_port : ℕ
cmos_port = 0x71

abbrev pub rtc_rega : ℕ
rtc_rega = 0x8A

abbrev pub rtc_regb : ℕ
rtc_regb = 0x8B

abbrev pub rtc_regc : ℕ
rtc_regc = 0x0C

abbrev pub rtc_irq : ℕ
rtc_irq = 8

-- `outb(data, port)`, in the log of all ports
abbrev pub port_write : ℕ → ℕ → Rtc → Rtc
port_write value port r = record r { pic = outb value port r.pic }

-- The ladder of comparisons: the rate, or none for any other frequency.
unfoldable pub hex_rate : ℕ → Option ℕ
hex_rate freq =
    if freq == 2
    then some 0x0F
    else if freq == 4
    then some 0x0E
    else if freq == 8
    then some 0x0D
    else if freq == 16
    then some 0x0C
    else if freq == 32
    then some 0x0B
    else if freq == 64
    then some 0x0A
    else if freq == 128
    then some 0x09
    else if freq == 256
    then some 0x08
    else if freq == 512
    then some 0x07
    else if freq == 1024
    then some 0x06
    else none

-- The register write that sets a rate; `prev` is what register A held.
unfoldable pub set_rate : ℕ → Option ℕ → Rtc → ℤ × Rtc
set_rate prev none r = (fail, r)
set_rate prev (some rate) r = (
  pos 1,
  port_write (bit_or (bit_and prev 0xF0) rate) cmos_port
      (port_write rtc_rega rtc_port (port_write rtc_rega rtc_port r)),
)

-- `rtc_set_freq`, on an `int`; no negative frequency is in the ladder.
unfoldable pub rtc_set_freq : ℕ → ℤ → Rtc → ℤ × Rtc
unfolding set_rate
rtc_set_freq prev (negsuc n) r = (fail, r)
rtc_set_freq prev (pos freq) r =
    if freq % 2 == 0 then set_rate prev (hex_rate freq) r else (fail, r)

-- `rtc_write`; `none` is a null buffer, otherwise the `int32_t` in it.
unfoldable pub rtc_write : ℕ → Option ℤ → Rtc → ℤ × Rtc
rtc_write prev none r = (fail, r)
rtc_write prev (some freq) r =
    let (set_freq_return, r') = rtc_set_freq prev freq r in
    if eqb_ℤ set_freq_return (pos 0) then (pos 0, r') else (fail, r')

-- `rtc_open`
unfoldable pub rtc_open : ℕ → Rtc → ℤ × Rtc
rtc_open prev r =
    let (open_ret, r') = rtc_set_freq prev (pos 2) r in
    if eqb_ℤ open_ret (pos 0) then (pos 0, r') else (fail, r')

-- `rtc_close`
unfoldable pub rtc_close : ℤ
rtc_close = pos 0

-- `rtc_handler`
unfoldable pub rtc_handler : Rtc → Rtc
rtc_handler r =
    let r' = record (port_write rtc_regc rtc_port r) { in_count = 1 } in
    record r' { pic = send_eoi rtc_irq r'.pic }

-- The wait of `rtc_read` for the counter to be set, by the interrupts that are to come.
unfoldable pub wait_tick : ℕ → Rtc → Option (ℕ × Rtc)
unfolding rtc_handler
wait_tick zero r = if r.in_count == 0 then none else some (0, r)
wait_tick (suc ticks) r =
    let later = wait_tick ticks (rtc_handler r) in
    if r.in_count == 0 then later else some (suc ticks, r)

-- `rtc_read`, with the interrupts that are left after it.
unfoldable pub rtc_read : ℕ → Rtc → Option (ℤ × ℕ × Rtc)
unfolding wait_tick
rtc_read ticks r = elim (wait_tick ticks (record r { in_count = 0 })) [
  | none ↦ none
  | some (left, r') ↦ some (pos 0, left, r')
]

-- `rtc_init`; `prev` is what register B held.
unfoldable pub rtc_init : ℕ → Rtc → Rtc
rtc_init prev r =
    let r' =
      port_write (bit_or prev 0x40) cmos_port
        (port_write rtc_regb rtc_port (port_write rtc_regb rtc_port r)) in
    record r' { pic = enable_irq 2 (enable_irq rtc_irq r'.pic) }
