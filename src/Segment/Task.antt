-- ===== src/Segment/Task.antt =====
-- The task segment that `gdt_initialize` builds, as the processor reads it.
use kokos.Shared.{ℕ, ◌+◌, ◌*◌, ◌/◌, ◌%◌, ◌^◌, ◌<◌, ◌≡◌, bit_and, bit_or, arith}
use kokos.Word.Bits.{bit_and-low_mask}
use kokos.Word.Join.{bit_or-add}
use kokos.Segment.Defs.{GdtEntry, GdtSystemEntry, task_entry, shown_base}

-- The base and the limit of a system segment: their parts do not overlap.
unfoldable pub segment_base : GdtSystemEntry → ℕ
segment_base entry =
    entry.base.base1 + entry.base.base2 * 2 ^ 16 + entry.base.base3 * 2 ^ 24 + entry.base4 * 2 ^ 32

unfoldable pub segment_limit : GdtEntry → ℕ
segment_limit entry = entry.limit1 + entry.limit2 * 2 ^ 16

-- An entry for a task state at an address of 64 bits and with a limit of 20 bits is read back as
-- that address and limit. What `gdt_debug` shows as the base is the address when it is below 2^31.
pub task_entry-reads :
    (base limit : ℕ)
    → base < 2 ^ 64
    → limit < 2 ^ 20
    → (segment_base (task_entry base limit) ≡ base)
      × (segment_limit (task_entry base limit).base ≡ limit)
      × (base < 2 ^ 31 → shown_base (task_entry base limit).base ≡ base)
unfolding segment_base segment_limit task_entry shown_base
task_entry-reads base limit fits small =
    let b1 : bit_and base 0xFFFF ≡ base % 2 ^ 16 = bit_and-low_mask 16 base in
    let b2 : bit_and (base / 2 ^ 16) 0xFF ≡ base / 2 ^ 16 % 2 ^ 8 =
      bit_and-low_mask 8 (base / 2 ^ 16) in
    let b3 : bit_and (base / 2 ^ 24) 0xFF ≡ base / 2 ^ 24 % 2 ^ 8 =
      bit_and-low_mask 8 (base / 2 ^ 24) in
    let b4 : bit_and (base / 2 ^ 32) 0xFFFFFFFF ≡ base / 2 ^ 32 % 2 ^ 32 =
      bit_and-low_mask 32 (base / 2 ^ 32) in
    let l1 : bit_and limit 0xFFFF ≡ limit % 2 ^ 16 = bit_and-low_mask 16 limit in
    let l2 : bit_and (limit / 2 ^ 16) 0xFF ≡ limit / 2 ^ 16 % 2 ^ 8 =
      bit_and-low_mask 8 (limit / 2 ^ 16) in
    let low : bit_or (base % 2 ^ 16) (base / 2 ^ 16 % 2 ^ 8 * 2 ^ 16)
        ≡ base % 2 ^ 16 + base / 2 ^ 16 % 2 ^ 8 * 2 ^ 16 =
      bit_or-add 16 (base % 2 ^ 16) (base / 2 ^ 16 % 2 ^ 8) (omega arith) in
    let joined : bit_or (base % 2 ^ 16 + base / 2 ^ 16 % 2 ^ 8 * 2 ^ 16)
          (base / 2 ^ 24 % 2 ^ 8 * 2 ^ 24)
        ≡ base % 2 ^ 16 + base / 2 ^ 16 % 2 ^ 8 * 2 ^ 16 + base / 2 ^ 24 % 2 ^ 8 * 2 ^ 24 =
      bit_or-add 24 (base % 2 ^ 16 + base / 2 ^ 16 % 2 ^ 8 * 2 ^ 16) (base / 2 ^ 24 % 2 ^ 8)
        (omega arith) in
    (
      omega (arith, b1, b2, b3, b4),
      omega (arith, l1, l2),
      λ below. rw (shown_base, b1, b2, b3, low, joined) (ground arith),
    )
