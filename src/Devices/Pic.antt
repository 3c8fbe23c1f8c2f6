-- ===== src/Devices/Pic.antt =====
-- The two interrupt controllers, mp3_group_59/student-distrib/i8259.c.
pub mod Masks
use Prim.Native.Nat.{bit_and, bit_or}
use ece391_sp.Prelude.{
  ℕ, ◌+◌, ◌-◌, ◌%◌, ◌^◌, ◌≤◌, ltb, leb, if◌then◌else◌, List, [], ◌∷◌, ◌++◌, Bool, true, false,
}

-- The masks that i8259.c keeps, and the port writes so far, the last at the end.
pub record Pic : Type 0 where
  pub master_mask : ℕ
  pub slave_mask : ℕ
  pub log : List (ℕ × ℕ)

abbrev pub master_port : ℕ
master_port = 0x20

abbrev pub slave_port : ℕ
slave_port = 0xA0

abbrev pub master_data : ℕ
master_data = 0x21

abbrev pub slave_data : ℕ
slave_data = 0xA1

abbrev pub irq_prim_num : ℕ
irq_prim_num = 8

abbrev pub irq_num_max : ℕ
irq_num_max = 15

abbrev pub eoi : ℕ
eoi = 0x60

-- `outb(data, port)`
abbrev pub outb : ℕ → ℕ → Pic → Pic
outb value port p = record p { log = p.log ++ ((port, value % 256) ∷ []) }

-- `mask & ~(1 << n)` and `mask | (1 << n)` in a `uint8_t`; the complement is of an `int`.
unfoldable pub clear_bit : ℕ → ℕ → ℕ
clear_bit mask n = bit_and mask (2 ^ 32 - 1 - 2 ^ n) % 256

unfoldable pub set_bit : ℕ → ℕ → ℕ
set_bit mask n = bit_or mask (2 ^ n) % 256

-- `enable_irq`
unfoldable pub enable_irq : ℕ → Pic → Pic
enable_irq irq_num p =
    let m = clear_bit p.master_mask irq_num in
    let s = clear_bit p.slave_mask (irq_num - irq_prim_num) in
    if ltb irq_num irq_prim_num
    then outb m master_data (record p { master_mask = m })
    else if leb irq_num irq_num_max
    then outb s slave_data (record p { slave_mask = s })
    else p

-- `disable_irq`
unfoldable pub disable_irq : ℕ → Pic → Pic
disable_irq irq_num p =
    let m = set_bit p.master_mask irq_num in
    let s = set_bit p.slave_mask (irq_num - irq_prim_num) in
    if ltb irq_num irq_prim_num
    then outb m master_data (record p { master_mask = m })
    else if leb irq_num irq_num_max
    then outb s slave_data (record p { slave_mask = s })
    else p

-- `send_eoi`
unfoldable pub send_eoi : ℕ → Pic → Pic
send_eoi irq_num p =
    if ltb irq_num irq_prim_num
    then outb (bit_or irq_num eoi) master_port p
    else if leb irq_num irq_num_max
    then outb (bit_or 2 eoi) master_port (outb (bit_or (irq_num - irq_prim_num) eoi) slave_port p)
    else p

-- `i8259_init`. The last word of the third pair is ICW2_SLAVE, as in the code.
unfoldable pub i8259_init : Pic → Pic
unfolding enable_irq
i8259_init p =
    let masked = outb p.slave_mask slave_data (outb p.master_mask master_data p) in
    let started = outb 0x11 slave_port (outb 0x11 master_port masked) in
    let offsets = outb 0x28 slave_data (outb 0x20 master_data started) in
    let cascaded = outb 0x28 slave_data (outb 0x04 master_data offsets) in
    let moded = outb 0x01 slave_data (outb 0x01 master_data cascaded) in
    let restored = outb p.slave_mask slave_data (outb p.master_mask master_data moded) in
    enable_irq 2 restored
