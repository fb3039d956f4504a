-- ===== src/Segment/Examples.antt =====
-- The theorem about gdt.c at the task segment, and tests.
use kokos.Shared.{◌^◌, ◌<◌, ◌≡◌, refl, arith}
use kokos.Segment.Defs.{task_entry, gdt_initialize, task_state_size, shown_base}
use kokos.Segment.Task.{segment_base, segment_limit, task_entry-reads}

task_entry-reads_example :
    (segment_base (task_entry 0x12_3456_7000 task_state_size) ≡ 0x12_3456_7000)
    × (segment_limit (task_entry 0x12_3456_7000 task_state_size).base ≡ task_state_size)
    × (0x12_3456_7000 < 2 ^ 31
        → shown_base (task_entry 0x12_3456_7000 task_state_size).base ≡ 0x12_3456_7000)
task_entry-reads_example =
    task_entry-reads 0x12_3456_7000 task_state_size (omega arith) (omega arith)

-- The limit of the table is its size, and the base is shown without its upper half.
limit_test : (gdt_initialize 0x5000 0x6000 0x7000 0x8000).2.limit ≡ 40
unfolding gdt_initialize
limit_test = refl

shown_base_test : shown_base (task_entry 0x12_3456_7000 task_state_size).base ≡ 0x3456_7000
unfolding shown_base task_entry
shown_base_test = refl

signed_base_test : shown_base (task_entry 0x8000_0000 task_state_size).base ≡ 0xFFFF_FFFF_8000_0000
unfolding shown_base task_entry
signed_base_test = refl
