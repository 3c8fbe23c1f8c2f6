-- ===== src/Devices/Tests.antt =====
-- Runs of the drivers of mp3_group_59/student-distrib at concrete inputs.
use ece391_sp.Prelude.{◌≡◌, refl, arith, [], none, some, pos, true}
use ece391_sp.Devices.Pic.{Pic, enable_irq, i8259_init, clear_bit}
use ece391_sp.Devices.Rtc.{Rtc, rtc_read, rtc_handler}
use ece391_sp.Devices.Rtc.Rate.{rtc_read_lem}
use ece391_sp.Devices.Idt.{
  Gate, Idt, init_idt, keyboard_irq, rtc_irq, syscall_vector, keyboard, rtc, syscall, page_fault,
}
use ece391_sp.Devices.Idt.Gates.{right_gate, init_idt_lem}

abbrev all_masked : Pic
all_masked = record { master_mask = 0xFF; slave_mask = 0xFF; log = [] }

abbrev clock : Rtc
clock = record { in_count = 1; pic = all_masked }

abbrev blank_gate : Gate
blank_gate = record {
  offset = none;
  seg_selector = 0;
  reserved4 = 0;
  reserved3 = 0;
  reserved2 = 0;
  reserved1 = 0;
  size = 0;
  reserved0 = 0;
  dpl = 0;
  present = 0;
}

abbrev blank : Idt
blank i = blank_gate

rtc_read_lem_example :
    (rtc_read 0 clock ≡ none)
    × (rtc_read 3 clock ≡ some (pos 0, 2, rtc_handler (record clock { in_count = 0 })))
rtc_read_lem_example = rtc_read_lem 2 clock

init_idt_lem_example :
    (right_gate 0x80 (init_idt blank 0x80) ≡ true)
    × ((init_idt blank keyboard_irq).offset ≡ some keyboard)
    × ((init_idt blank rtc_irq).offset ≡ some rtc)
    × ((init_idt blank syscall_vector).offset ≡ some syscall)
    × ((init_idt blank 14).offset ≡ some page_fault)
init_idt_lem_example = init_idt_lem blank 0x80 (omega arith)

started : (i8259_init all_masked).master_mask ≡ 0xFB
unfolding i8259_init enable_irq clear_bit
started = refl
