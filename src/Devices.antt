-- ===== src/Devices.antt =====
-- The interrupt hardware of mp3_group_59/student-distrib: the interrupt controllers (i8259.c), the
-- real-time clock (rtc.c) and the interrupt descriptor table (IDT.c). A write to an I/O port is an entry
-- of a log, the port first; what an input instruction yields is an argument.
pub mod Pic
pub mod Rtc
pub mod Idt
mod Tests
