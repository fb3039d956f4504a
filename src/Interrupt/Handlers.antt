-- ===== src/Interrupt/Handlers.antt =====
-- The functions `idt_handle_…` of src/common/idt.c: what each prints, and whether it then halts the
-- processor. `error_code` is what some exceptions push, `fault_address` the register cr2, and `local`
-- the address of a local variable.
use Prim.Native.String.{String}
use kokos.Shared.{ℕ, Bool, true, false, not, List, [], ◌∷◌, ◌≡◌, refl}
use kokos.Console.Calls.{ConsoleCall, print_call, print_u64_call, new_line_call}
use kokos.Interrupt.Initialize.{
  Handler, divide_by_zero, debug, non_maskable_interrupt, breakpoint, overflow, bound_range,
  invalid_opcode, device_not_available, invalid_double_fault, segment_overrun, invalid_tss,
  segment_not_present, stack, general_protection, page_fault, float_exception, alignment_check,
  machine_check, simd_float_exception, spurious,
}

record StackFrame : Type 0 where
  instruction_pointer : ℕ
  code_segment : ℕ
  rflags : ℕ
  stack_pointer : ℕ
  stack_segment : ℕ

abbrev message : String → List ConsoleCall × Bool
message text = (print_call text ∷ [], true)

unfoldable handle : Handler → StackFrame → ℕ → ℕ → ℕ → List ConsoleCall × Bool
handle divide_by_zero frame error_code fault_address local = message "interrupt: divide by zero!\n"
handle debug frame error_code fault_address local = (print_call "interrupt: debug!\n" ∷ [], false)
handle non_maskable_interrupt frame error_code fault_address local =
    message "interrupt: non maskable!\n"
handle breakpoint frame error_code fault_address local = (
  print_call "interrupt: breakpoint!\n"
      ∷ print_call "a pointer = 0x"
      ∷ print_u64_call local 16
      ∷ new_line_call
      ∷ [],
  false,
)
handle overflow frame error_code fault_address local = message "interrupt: overflow!\n"
handle bound_range frame error_code fault_address local = message "interrupt: bound range!\n"
handle invalid_opcode frame error_code fault_address local = (
  print_call "interrupt: invalid opcode! at 0x\n"
      ∷ print_u64_call frame.instruction_pointer 16
      ∷ new_line_call
      ∷ [],
  true,
)
handle device_not_available frame error_code fault_address local =
    message "interrupt: device not available!\n"
handle invalid_double_fault frame error_code fault_address local =
    message "interrupt: double fault!\n"
handle segment_overrun frame error_code fault_address local =
    message "interrupt: segment overrun!\n"
handle invalid_tss frame error_code fault_address local = message "interrupt: invalid tss!\n"
handle segment_not_present frame error_code fault_address local =
    message "interrupt: segment not present!\n"
handle stack frame error_code fault_address local = message "interrupt: stack!\n"
handle general_protection frame error_code fault_address local =
    message "interrupt: general protection!\n"
handle page_fault frame error_code fault_address local = (
  print_call "interrupt: page fault! process at 0x"
      ∷ print_u64_call frame.instruction_pointer 16
      ∷ print_call " tried to access 0x"
      ∷ print_u64_call fault_address 16
      ∷ print_call ", error code 0b"
      ∷ print_u64_call error_code 2
      ∷ new_line_call
      ∷ [],
  true,
)
handle float_exception frame error_code fault_address local =
    message "interrupt: floating-point exception!\n"
handle alignment_check frame error_code fault_address local =
    message "interrupt: alignment check!\n"
handle machine_check frame error_code fault_address local = message "interrupt: machine check!\n"
handle simd_float_exception frame error_code fault_address local =
    message "interrupt: simd floating-point exception!\n"
handle spurious frame error_code fault_address local = ([], false)

-- The handlers that return to the program.
abbrev returns : Handler → Bool
returns debug = true
returns breakpoint = true
returns spurious = true
returns h = false

-- The handlers of the debug exception, of a breakpoint and of spurious interrupts return to the
-- program; each of the others halts the processor.
handle-returns :
    (h : Handler) (frame : StackFrame) (error_code fault_address local : ℕ)
    → (handle h frame error_code fault_address local).1 ≡ not (returns h)
unfolding handle
handle-returns divide_by_zero frame error_code fault_address local = refl
handle-returns debug frame error_code fault_address local = refl
handle-returns non_maskable_interrupt frame error_code fault_address local = refl
handle-returns breakpoint frame error_code fault_address local = refl
handle-returns overflow frame error_code fault_address local = refl
handle-returns bound_range frame error_code fault_address local = refl
handle-returns invalid_opcode frame error_code fault_address local = refl
handle-returns device_not_available frame error_code fault_address local = refl
handle-returns invalid_double_fault frame error_code fault_address local = refl
handle-returns segment_overrun frame error_code fault_address local = refl
handle-returns invalid_tss frame error_code fault_address local = refl
handle-returns segment_not_present frame error_code fault_address local = refl
handle-returns stack frame error_code fault_address local = refl
handle-returns general_protection frame error_code fault_address local = refl
handle-returns page_fault frame error_code fault_address local = refl
handle-returns float_exception frame error_code fault_address local = refl
handle-returns alignment_check frame error_code fault_address local = refl
handle-returns machine_check frame error_code fault_address local = refl
handle-returns simd_float_exception frame error_code fault_address local = refl
handle-returns spurious frame error_code fault_address local = refl
