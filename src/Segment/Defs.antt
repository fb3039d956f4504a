-- ===== src/Segment/Defs.antt =====
-- src/common/gdt.c: the global descriptor table of a processor and its task state. The pages that
-- `gdt_initialize` takes from the allocator are given by their addresses.
use kokos.Shared.{
  ℕ, zero, suc, ◌+◌, ◌-◌, ◌*◌, ◌/◌, ◌%◌, ◌^◌, bit_and, bit_or, List, [], ◌∷◌, ◌++◌, ltb, ◌==◌,
  if◌then◌else◌,
}
use kokos.Console.Calls.{ConsoleCall, print_call, print_u32_call, print_u64_call, new_line_call}

-- `struct gdt_entry`
pub record GdtEntry : Type 0 where
  pub limit1 : ℕ
  pub base1 : ℕ
  pub base2 : ℕ
  pub accessed : ℕ
  pub read_write : ℕ
  pub direction_conforming : ℕ
  pub executable : ℕ
  pub non_system : ℕ
  pub privilege : ℕ
  pub present : ℕ
  pub limit2 : ℕ
  pub unused1 : ℕ
  pub long_mode : ℕ
  pub size : ℕ
  pub granularity : ℕ
  pub base3 : ℕ

-- `struct gdt_system_entry`
pub record GdtSystemEntry : Type 0 where
  pub base : GdtEntry
  pub base4 : ℕ
  pub unused : ℕ

-- `struct gdt_task_state`, of which the stacks for interrupts are written; the rest stays zero.
pub record TaskState : Type 0 where
  pub ist1 : ℕ
  pub ist2 : ℕ

-- `struct gdt_pointer`
pub record GdtPointer : Type 0 where
  pub limit : ℕ
  pub address : ℕ

-- The entries at 0x8, 0x10 and 0x18 of the table; the first one and the rest of the page are zero.
pub record Gdt : Type 0 where
  pub code_segment : GdtEntry
  pub data_segment : GdtEntry
  pub task_segment : GdtSystemEntry

abbrev zero_gdt_entry : GdtEntry
zero_gdt_entry = record {
  limit1 = 0;
  base1 = 0;
  base2 = 0;
  accessed = 0;
  read_write = 0;
  direction_conforming = 0;
  executable = 0;
  non_system = 0;
  privilege = 0;
  present = 0;
  limit2 = 0;
  unused1 = 0;
  long_mode = 0;
  size = 0;
  granularity = 0;
  base3 = 0;
}

-- `sizeof(struct gdt_task_state)`
abbrev pub task_state_size : ℕ
task_state_size = 104

unfoldable code_entry : GdtEntry
code_entry = record zero_gdt_entry {
  read_write = 1;
  executable = 1;
  non_system = 1;
  present = 1;
  long_mode = 1;
}

unfoldable data_entry : GdtEntry
data_entry = record zero_gdt_entry { read_write = 1; non_system = 1; present = 1; long_mode = 1 }

-- A bit field keeps the lowest bits of what is stored: `limit2` has 4.
unfoldable pub task_entry : ℕ → ℕ → GdtSystemEntry
task_entry base limit = record {
  base = record zero_gdt_entry {
    accessed = 1;
    read_write = 0;
    direction_conforming = 0;
    executable = 1;
    present = 1;
    limit1 = bit_and limit 0xFFFF;
    limit2 = bit_and (limit / 2 ^ 16) 0xFF % 2 ^ 4;
    base1 = bit_and base 0xFFFF;
    base2 = bit_and (base / 2 ^ 16) 0xFF;
    base3 = bit_and (base / 2 ^ 24) 0xFF;
  };
  base4 = bit_and (base / 2 ^ 32) 0xFFFFFFFF;
  unused = 0;
}

unfoldable pub gdt_initialize : ℕ → ℕ → ℕ → ℕ → Gdt × TaskState × GdtPointer
unfolding code_entry data_entry task_entry
gdt_initialize table_page task_state_page stack_page1 stack_page2 = (
  record {
    code_segment = code_entry;
    data_segment = data_entry;
    task_segment = task_entry task_state_page task_state_size;
  },
  record { ist1 = (stack_page1 + 4096) % 2 ^ 64; ist2 = (stack_page2 + 4096) % 2 ^ 64 },
  record { limit = 8 * 3 + 16; address = table_page },
)

-- The base that `gdt_debug` shows: the parts are joined as an `int`, which is then widened.
unfoldable pub shown_base : GdtEntry → ℕ
shown_base entry =
    let joined = bit_or (bit_or entry.base1 (entry.base2 * 2 ^ 16)) (entry.base3 * 2 ^ 24) in
    if ltb joined (2 ^ 31) then joined else 2 ^ 64 - 2 ^ 32 + joined

-- A letter for a bit that is set.
abbrev letter : ℕ → ConsoleCall → List ConsoleCall
letter bit call = if bit == 0 then [] else call ∷ []

-- The text of one entry of `gdt_debug`.
unfoldable show_entry : ℕ → GdtEntry → List ConsoleCall
unfolding shown_base
show_entry i entry =
    (print_call "[gdt] entry #"
      ∷ print_u64_call i 10
      ∷ print_call " base=0x"
      ∷ print_u64_call (shown_base entry) 16
      ∷ print_call " limit=0x"
      ∷ print_u64_call (bit_or entry.limit1 (entry.limit2 * 2 ^ 16)) 16
      ∷ print_call " access="
      ∷ [])
    ++ letter entry.present (print_call "P")
    ++ print_u32_call entry.privilege 10
      ∷ (if entry.non_system == 0 then print_call "S" ∷ [] else [])
    ++ letter entry.executable (print_call "E")
    ++ letter entry.direction_conforming (print_call "D")
    ++ letter entry.read_write (print_call "W")
    ++ letter entry.accessed (print_call "a")
    ++ print_call " flags=" ∷ letter entry.granularity (print_call "G")
    ++ letter entry.size (print_call "Z")
    ++ letter entry.long_mode (print_call "L")
    ++ new_line_call ∷ []

-- The loop of `gdt_debug` over six entries; a system entry takes the place of two.
unfoldable gdt_debug_loop : ℕ → ℕ → (ℕ → GdtEntry) → List ConsoleCall
unfolding show_entry
gdt_debug_loop zero i table = []
gdt_debug_loop (suc rounds) i table =
    if ltb i 6
    then (let entry = table i in
        if entry.present == 0
        then gdt_debug_loop rounds (i + 1) table
        else show_entry i entry
          ++ gdt_debug_loop rounds (if entry.non_system == 0 then i + 2 else i + 1) table)
    else []

unfoldable gdt_debug : (ℕ → GdtEntry) → List ConsoleCall
unfolding gdt_debug_loop
gdt_debug = gdt_debug_loop 7 0
