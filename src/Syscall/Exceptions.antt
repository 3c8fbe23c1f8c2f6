-- ===== src/Syscall/Exceptions.antt =====
-- The exception handlers of mp3_group_59/student-distrib/IDT.c: each prints its name and ends the program
-- with status 255.
use Prim.Native.String.{String}
use ece391_sp.Prelude.{
  ℕ, ◌<◌, ◌≡◌, refl, arith, ◌==◌, Bool-cases, inl, inr, Option, none, some, List, [], ◌∷◌, ◌++◌,
  length, codes, ◌>>=◌,
}
use ece391_sp.Strings.{chars}
use ece391_sp.Devices.Idt.{
  Handler, divide_error, reserved, nmi_interrupt, breakpoint, overflow, bound_range_exceeded,
  invalid_opcode, device_not_available, double_fault, coprocessor_segment_overrun, invalid_tss,
  segment_not_present, stack_segment_fault, general_protection, page_fault, intel_reserved,
  x87_floating_point_error, alignment_check, machine_check, simd_floating_point_exception, keyboard,
  rtc, syscall,
}
use ece391_sp.Process.{current}
use ece391_sp.Process.Execute.{Frame, Outcome, resumed}
use ece391_sp.Process.Halt.{system_halt}
use ece391_sp.Process.Halt.Resume.{IsChild, IsResumed, system_halt_lem}
use ece391_sp.Console.Printf.{printf, printf_text, text, IsPlain}
use ece391_sp.Console.Terminal.Write.{put_all}
use ece391_sp.Syscall.{Machine}

-- The name that a handler prints; the last three vectors have handlers of their own.
unfoldable pub error_name : Handler → Option String
error_name divide_error = some "Divide_Error"
error_name reserved = some "RESERVED"
error_name nmi_interrupt = some "NMI_Interrupt"
error_name breakpoint = some "Breakpoint"
error_name overflow = some "Overflow"
error_name bound_range_exceeded = some "BOUND_Range_Exceeded"
error_name invalid_opcode = some "Invalid_Opcode"
error_name device_not_available = some "Device_Not_Available"
error_name double_fault = some "Double_Fault"
error_name coprocessor_segment_overrun = some "Coprocessor_Segment_Overrun"
error_name invalid_tss = some "Invalid_TSS"
error_name segment_not_present = some "Segment_Not_Present"
error_name stack_segment_fault = some "Stack_Segment_Fault"
error_name general_protection = some "General_Protection"
error_name page_fault = some "Page_Fault"
error_name intel_reserved = some "Intel_Reserved"
error_name x87_floating_point_error = some "x87_FPU_Floating_Point_Error"
error_name alignment_check = some "Alignment_Check"
error_name machine_check = some "Machine_Check"
error_name simd_floating_point_exception = some "SIMD_Floating_Point_Exception"
error_name keyboard = none
error_name rtc = none
error_name syscall = none

abbrev pub error_line : String → List ℕ
error_line name = codes name ++ (10 ∷ 0 ∷ [])

-- A handler's call, with what the buffers of `printf` hold.
unfoldable pub exception : Frame → List ℕ → Handler → Machine → Option (Outcome × Machine)
exception frame junk handler m = do
  name ← error_name handler
  (printed, c) ← printf (codes "Error: %s" ++ (0 ∷ [])) junk (text (error_line name) ∷ []) m.console
  (outcome, k) ← system_halt frame 255 m.kernel
  some (outcome, record m { kernel = k; console = c })

chars_ended : (xs : List ℕ) → length (chars (xs ++ (10 ∷ 0 ∷ []))) < length (xs ++ (10 ∷ 0 ∷ []))
chars_ended [] = omega arith
chars_ended (x ∷ xs) = elim (Bool-cases (x == 0)) [
  | inl e ↦ rw e (omega arith)
  | inr e ↦ rw e (omega (arith, chars_ended xs))
]

prefix-IsPlain : IsPlain (codes "Error: ")
prefix-IsPlain = ground arith

-- An exception in a program with a running parent prints "Error: " and the exception's name, and returns 256
-- into the parent's `execute`, with the program's process free and no other PCB changed.
pub exception_lem :
    (frame : Frame) (junk : List ℕ) (handler : Handler) (name : String) (m : Machine) (n p : ℕ)
    → error_name handler ≡ some name
    → IsChild m.kernel n p
    → (m' : Machine) × (exception frame junk handler m
        ≡ some (resumed (current m.kernel).ebp_val (current m.kernel).esp_val 256, m'))
      × IsResumed n p m.kernel m'.kernel
      × (m'.console ≡ put_all (chars (error_line name)) (put_all (codes "Error: ") m.console))
unfolding exception
exception_lem frame junk handler name m n p named child =
    let (k, halted, r) = system_halt_lem frame 255 m.kernel n p child in
    let printed =
      printf_text (codes "Error: ") [] junk (error_line name) [] m.console prefix-IsPlain
        (chars_ended (codes name)) in
    (
      record m {
        kernel = k;
        console = put_all (chars (error_line name)) (put_all (codes "Error: ") m.console);
      },
      rw (named, printed, halted) refl,
      r,
      refl,
    )
