-- ===== src/Devices/Idt.antt =====
-- The interrupt descriptor table, mp3_group_59/student-distrib/IDT.c. A handler is one of the assembly
-- entry points that the table names, so the two halves of its offset are one field.
pub mod Gates
use ece391_sp.Prelude.{
  ℕ, zero, suc, ◌+◌, ◌<◌, ltb, ◌==◌, if◌then◌else◌, ◌&&◌, not, Bool, true, false, Option, none,
  some,
}

pub data Handler : Type 0 where
  divide_error : Handler
  reserved : Handler
  nmi_interrupt : Handler
  breakpoint : Handler
  overflow : Handler
  bound_range_exceeded : Handler
  invalid_opcode : Handler
  device_not_available : Handler
  double_fault : Handler
  coprocessor_segment_overrun : Handler
  invalid_tss : Handler
  segment_not_present : Handler
  stack_segment_fault : Handler
  general_protection : Handler
  page_fault : Handler
  intel_reserved : Handler
  x87_floating_point_error : Handler
  alignment_check : Handler
  machine_check : Handler
  simd_floating_point_exception : Handler
  keyboard : Handler
  rtc : Handler
  syscall : Handler

-- `idt_desc_t`; the handler is `none` where the table's memory has no entry point.
pub record Gate : Type 0 where
  pub offset : Option Handler
  pub seg_selector : ℕ
  pub reserved4 : ℕ
  pub reserved3 : ℕ
  pub reserved2 : ℕ
  pub reserved1 : ℕ
  pub size : ℕ
  pub reserved0 : ℕ
  pub dpl : ℕ
  pub present : ℕ

abbrev pub vector_num : ℕ
vector_num = 256

abbrev pub exceptions_num : ℕ
exceptions_num = 21

abbrev pub syscall_vector : ℕ
syscall_vector = 0x80

abbrev pub keyboard_irq : ℕ
keyboard_irq = 0x21

abbrev pub rtc_irq : ℕ
rtc_irq = 0x28

abbrev pub kernel_cs : ℕ
kernel_cs = 0x10

abbrev pub Idt : Type 0
Idt = ℕ → Gate

-- The write of one entry of the table.
abbrev pub update : ℕ → (Gate → Gate) → Idt → Idt
update i change idt j = if j == i then change (idt j) else idt j

-- The body of the loop for vector i.
unfoldable pub init_gate : ℕ → Gate → Gate
init_gate i g =
    let a = record g { present = 0 } in
    let b =
      if ltb i exceptions_num && not (i == 0x15) then record a { present = 1; dpl = 0 } else a in
    let c = if i == syscall_vector then record b { dpl = 3; present = 1 } else b in
    record c {
      seg_selector = kernel_cs;
      reserved0 = 0;
      reserved1 = 1;
      reserved2 = 1;
      reserved3 = 0;
      reserved4 = 0;
      size = 1;
    }

-- The loop over the vectors below n.
unfoldable pub init_gates : ℕ → Idt → Idt
init_gates zero idt = idt
init_gates (suc n) idt = update n (init_gate n) (init_gates n idt)

-- `SET_IDT_ENTRY`
abbrev pub set_idt_entry : ℕ → Handler → Idt → Idt
set_idt_entry i h idt = update i (λ g. record g { offset = some h }) idt

-- The entries of the exceptions, in the order of the calls.
unfoldable pub set_exceptions : Idt → Idt
set_exceptions idt =
    let a =
      set_idt_entry 2 nmi_interrupt (set_idt_entry 1 reserved (set_idt_entry 0 divide_error idt)) in
    let b =
      set_idt_entry 5 bound_range_exceeded
        (set_idt_entry 4 overflow (set_idt_entry 3 breakpoint a)) in
    let c =
      set_idt_entry 8 double_fault
        (set_idt_entry 7 device_not_available (set_idt_entry 6 invalid_opcode b)) in
    let d = set_idt_entry 10 invalid_tss (set_idt_entry 9 coprocessor_segment_overrun c) in
    let e = set_idt_entry 12 stack_segment_fault (set_idt_entry 11 segment_not_present d) in
    let f =
      set_idt_entry 15 intel_reserved
        (set_idt_entry 14 page_fault (set_idt_entry 13 general_protection e)) in
    let g = set_idt_entry 17 alignment_check (set_idt_entry 16 x87_floating_point_error f) in
    let h = set_idt_entry 19 simd_floating_point_exception (set_idt_entry 18 machine_check g) in
    set_idt_entry 20 intel_reserved h

-- `init_IDT`
unfoldable pub init_idt : Idt → Idt
unfolding init_gates set_exceptions
init_idt idt =
    let exceptions = set_exceptions (init_gates vector_num idt) in
    let keys = update keyboard_irq (λ g. record g { present = 1; dpl = 0 }) exceptions in
    let keys' = set_idt_entry keyboard_irq keyboard keys in
    let clock = update rtc_irq (λ g. record g { present = 1; dpl = 0 }) keys' in
    let clock' = set_idt_entry rtc_irq rtc clock in set_idt_entry syscall_vector syscall clock'
