-- ===== src/Devices/Idt/Gates.antt =====
-- What the table of mp3_group_59/student-distrib/IDT.c answers for each vector.
use ece391_sp.Prelude.{
  ℕ, ◌<◌, ◌≡◌, refl, ltb, ◌==◌, if◌then◌else◌, ◌&&◌, ◌||◌, checked, checked-true, Bool, true, false,
  Option, none, some,
}
use ece391_sp.Devices.Idt.{
  Gate, Handler, Idt, init_gate, init_gates, set_exceptions, init_idt, exceptions_num,
  syscall_vector, keyboard_irq, rtc_irq, kernel_cs, vector_num, keyboard, rtc, syscall, page_fault,
}

abbrev pub is_some : Option Handler → Bool
is_some none = false
is_some (some h) = true

-- The vectors that the kernel handles: exceptions, keyboard, clock and system calls.
abbrev pub handled : ℕ → Bool
handled i = ltb i exceptions_num || i == keyboard_irq || i == rtc_irq || i == syscall_vector

-- What a gate's fields are to be.
abbrev pub right_gate : ℕ → Gate → Bool
right_gate i g =
    (g.seg_selector == kernel_cs
      && g.size == 1
      && g.reserved0 == 0
      && g.reserved1 == 1
      && g.reserved2 == 1
      && g.reserved3 == 0
      && g.reserved4 == 0)
    && (if handled i
        then (g.present == 1 && is_some g.offset && g.dpl == (if i == syscall_vector then 3 else 0))
        else g.present == 0)

init_idt_table : (idt : Idt) → checked (λ i. right_gate i (init_idt idt i)) 256 ≡ true
unfolding checked init_idt init_gates init_gate set_exceptions
init_idt_table idt = refl

init_idt_offsets :
    (idt : Idt)
    → ((init_idt idt keyboard_irq).offset ≡ some keyboard)
      × ((init_idt idt rtc_irq).offset ≡ some rtc)
      × ((init_idt idt syscall_vector).offset ≡ some syscall)
      × ((init_idt idt 14).offset ≡ some page_fault)
unfolding init_idt init_gates init_gate set_exceptions
init_idt_offsets idt = (refl, refl, refl, refl)

-- Whatever the table held, after `init_IDT` every one of its 256 gates is a 32-bit interrupt gate in the
-- kernel's code segment; the gates of vectors 0 to 20, 0x21, 0x28 and 0x80 are present, have an entry
-- point, and only that of 0x80 can be called by a user; all other gates are absent. The entry points of
-- 0x21, 0x28, 0x80 and 14 are those of the keyboard, the clock, the system calls and page faults.
pub init_idt_lem :
    (idt : Idt) (i : ℕ)
    → i < vector_num
    → (right_gate i (init_idt idt i) ≡ true)
      × ((init_idt idt keyboard_irq).offset ≡ some keyboard)
      × ((init_idt idt rtc_irq).offset ≡ some rtc)
      × ((init_idt idt syscall_vector).offset ≡ some syscall)
      × ((init_idt idt 14).offset ≡ some page_fault)
init_idt_lem idt i h =
    let (keys, clock, calls, faults) = init_idt_offsets idt in
    (
      checked-true (λ j. right_gate j (init_idt idt j)) 256 i h (init_idt_table idt),
      keys,
      clock,
      calls,
      faults,
    )
