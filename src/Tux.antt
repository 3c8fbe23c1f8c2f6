-- ===== src/Tux.antt =====
-- src/mp2_rthakk21/module: the line discipline and the driver of the Tux controller.
pub mod Ring
pub mod Fifo
pub mod Frames
pub mod Discipline
pub mod Output
pub mod Display
pub mod Driver
pub mod Packets
pub mod Ioctl
pub mod Receive
pub mod Stream
pub mod Reception
mod Tests
