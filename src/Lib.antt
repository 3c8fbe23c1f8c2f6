-- ===== src/Lib.antt =====
-- The kernel of MP3 (mp3_group_59/student-distrib), a small 32-bit x86 operating system: a read-only file
-- system, paging, processes and their open files, the console with its keyboard and terminals, the
-- interrupt hardware, and the system calls that tie them together, with two programs that use them
-- (mp3_group_59/syscalls). Of MP2, the maze game (mp2_rthakk21/maze.c, mazegame.c) and the driver of the
-- Tux controller that it is played with (mp2_rthakk21/module).
--
-- How the parts interact. `system_execute` (syscall.c) parses a command line, looks its first word up
-- in the directory and reads the program through filesystem.c, takes a process number, sets up the PCB,
-- maps the process's 4 MB program page through paging.c and jumps to user mode. `system_halt` undoes this
-- and goes back into the parent's `execute`. `system_open` and `system_close` keep the descriptors of the
-- current process, through which `file_read` and `directory_read` (filesystem.c) read. The string
-- functions of lib.c serve all of them. The keyboard's handler fills the line buffer that `terminal_read`
-- waits for, shows characters through `putc` (lib.c), and turns between terminals; every interrupt ends
-- with `send_eoi` (i8259.c). `system_read` and `system_write` go through the table of operations that a
-- descriptor points at, to files, directories, the terminal or the clock. The maze
-- game unveils squares, eats fruits and draws lines of the picture from one array; its ticks move the
-- player, for whom the keyboard and the controller choose directions. The controller's bytes come through
-- `tuxctl_ldisc_rcv_buf` (tuxctl-ld.c), which hands packets to `tuxctl_handle_packet` (tuxctl-ioctl.c); the
-- game asks for the buttons and sets the LEDs through `tuxctl_ioctl`, whose bytes go out through
-- `tuxctl_ldisc_put`.
--
-- Which file models which part.
--   Prelude and its children: shared names, Boolean tests and lists on native numbers, `int32_t` values.
--   Strings: strlen, strncmp, strcpy, strncpy, strrev and itoa of lib.c. Compare, Copy, Reverse, Digits:
--     their theorems.
--   Filesystem: filesystem.c up to `read_data`. Directory: lookups. Contents: the data of files.
--   Paging: paging.c. Walk: the processor's page walk. Layout: the address spaces that result.
--   Process: the PCBs and globals of syscall.c and filesystem.c, `find_PCB` (here `find_pcb`) and
--     `assign_PID` (Pids).
--   Process/Files: `system_open`, `system_close`, `file_read`, `directory_read` (Open, Read).
--   Process/Execute: `system_execute` (Command, Image, Start). Process/Halt: `system_halt` (Resume).
--     Process/Stack: the calls as steps, and the stack of processes that they keep (Entered: what a
--     program that is entered says of the call; Calls: those that start and end none; Invariant,
--     Reachable).
--   Console: the screen functions of lib.c, with the globals of the console (Screen), with `puts` and
--     `printf` (Printf). Console/Keyboard: the tables and line buffer of keyboard.c (Chars), and its
--     handler (Handler). Console/Terminal: terminal_driver.c (Write, Switch, Read and Read/Line).
--   Devices: i8259.c (Pic, Pic/Masks), rtc.c (Rtc, Rtc/Rate), `init_IDT` of IDT.c (Idt, Idt/Gates).
--   Syscall: the tables of `file_operations_initialize`, `system_read`, `system_write` (Dispatch),
--     `system_getargs` (Args) and `system_vidmap` (Vidmap), on the kernel's and the console's state
--     together. Syscall/Programs: ece391cat.c, ece391ls.c and `ece391_fdputs` (Cat, Whole: cat).
--     Syscall/Exceptions: the exception handlers of IDT.c.
--   Maze: the squares of maze.c, and what moves do to them (Bounds, Eat, Fruits, Play). Maze/Lines: the
--     lines of the picture. Maze/Mark: the search of `mark_maze_area` (Reach).
--   Tux: tuxctl-ld.c's rings (Ring, and Fifo, as queues), its output (Discipline, Output) and its
--     reception (Receive, Frames; Stream and Reception, on streams of bytes); tuxctl-ioctl.c's bytes for
--     the displays (Display) and its packets and ioctls (Driver; Packets, Ioctl).
--   Game: mazegame.c. Level, Window, Input, Tick: its definitions. Walls, Around, Visible, Grid, Steer,
--     Walk, Motion, Run: the invariant of a game in progress. Paint, Spots, Undraw: the drawing of
--     blocks and of the player in modex.c; Lines, Redraw: that of lines. Keys: the keyboard. Controller: the game's
--     clock and buttons together with the driver.
--
-- Conventions. A function that changes globals returns the new state; an `int32_t` that may be negative is
-- a ℤ, other words are natural numbers with their wrap-around written out; a pointer to bytes is the list
-- of the bytes from it to the end of its object, and `none` is an access outside an object. The arrays of
-- page tables, PCBs and program frames are functions from index or address. A loop is a recursion on the
-- list that it walks or on the rounds that its bound leaves, so no fuel is needed; `itoa` has 33 rounds,
-- one more than a 32-bit word has digits in base 2, and the loops of programs and of the maze's search
-- take the rounds that they may make. A wait for an interrupt is a recursion on the interrupts that are
-- to come, and `none` is a wait that they do not end; the search for a place for a fruit is one on the
-- values of `random`.
--
-- Parameters: the link-time addresses of the page tables, the values that the compiler leaves in
-- uninitialised locals, the stack registers, what an input instruction yields, for the terminals,
-- whether `system_execute` starts the shell, what happens while a call runs (the keys and clock
-- interrupts to come), and, for the maze, the values of `random` and the pictures of the blocks and of the lines; for the
-- controller, the serial line's driver (how much it has room for and takes), what `kmalloc` and
-- `copy_to_user` do; and for the game, the word that it reads past `open`. The threads of the game run as a
-- sequence of ticks, keys and buttons in any order, each as a whole.
--
-- Not modelled: boot code, segment descriptors and assembly; the memory functions in assembly but
-- `memcpy` (by its effect, in Console/Terminal), and the messages that the system calls print; the
-- other user programs; of MP2, `make_maze`, the video memory (of the build buffer only the drawing
-- of blocks and lines), the status bar and the start of the threads; MP1, whose module is assembly.
pub mod Prelude
pub mod Strings
pub mod Filesystem
pub mod Paging
pub mod Process
pub mod Console
pub mod Devices
pub mod Syscall
pub mod Maze
pub mod Tux
pub mod Game
