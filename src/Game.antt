-- ===== src/Game.antt =====
-- src/mp2_rthakk21/mazegame.c: the levels, the view's window, the inputs and the ticks of the maze game.
pub mod Level
pub mod Window
pub mod Input
pub mod Tick
pub mod Walls
pub mod Around
pub mod Visible
pub mod Grid
pub mod Steer
pub mod Walk
pub mod Motion
pub mod Paint
pub mod Spots
pub mod Undraw
pub mod Lines
pub mod Redraw
pub mod Run
pub mod Keys
pub mod Controller
mod Tests
