-- ===== src/Console/Calls.antt =====
-- What other parts print, as the calls of the functions of src/common/console.c that they make.
use Prim.Native.String.{String}
use kokos.Shared.{ℕ, List}

pub data ConsoleCall : Type 0 where
  print_call : String → ConsoleCall
  print_length_call : List ℕ → ConsoleCall
  print_u32_call : ℕ → ℕ → ConsoleCall
  print_u64_call : ℕ → ℕ → ConsoleCall
  print_i32_call : ℕ → ℕ → ConsoleCall
  new_line_call : ConsoleCall
