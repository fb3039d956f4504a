-- ===== src/Lib.antt =====
-- Verification of the kokos kernel, an operating system for x86-64 processors written in C.
--
-- The kernel starts in src/common/main.c, which sets up a console on the video memory, an allocator
-- of physical pages, page tables, the interrupt table and the local interrupt controller, reads the
-- tables of the firmware, and then lets a timer switch between processes. The parts that are
-- modelled call one another: the page tables take their pages from the allocator, the allocator is
-- guarded by a lock, the console prints numbers through the conversions, the keyboard handler prints
-- to the console, and the start of the processors walks over the entries of the MADT.
--
-- Word             the operators of C on words: bits, and the shift `1 << bit` of an int
-- MemoryPhysical   src/common/memory_physical.c: the bit table of physical pages. The static
--                  variables are the record `MemoryPhysical`; memory_physical_reserve is `reserve`,
--                  memory_physical_free `free`, memory_physical_allocate `allocate`, and so on.
-- Lock             src/common/lock.c: `Step` is one step of one processor between two accesses to
--                  the word of the lock, `Reach` the states that any interleaving leads to
-- Util             src/common/util.c: string_length, string_compare, string_reverse and the
--                  conversions from numbers, under their own names
-- Console          src/common/console.c: the cursor, the history of 2500 lines and the screen of 25.
--                  console_print is `print`, console_new_line `new_line`, and so on.
-- Keyboard         src/common/keyboard.c: the handler of the keyboard's interrupt, and the tables
--                  of include/kokos/keyboard.h
-- Paging           src/common/paging.c: the four levels of page tables, the search for an address,
--                  mapping, unmapping and translation. paging_map_index_physical is
--                  `map_index_physical`, paging_unmap `unmap`, and so on; paging_map is `map_pages`.
-- Scheduler        src/common/scheduler.c: the list of processes, `insert_process` at the end of
--                  scheduler_execute, and the switch by the timer, scheduler_handle_interrupt
-- Boot             src/common/multiboot2.c, the tags of the boot information, and what kernel_main of
--                  src/common/main.c does with the map of the memory: `start_memory` finds the end of
--                  the memory and a place for the allocator's table, and makes the reservations.
--                  `find_madt` (Boot/Firmware) is its way to the MADT, with its early
--                  returns and with the printing of the root table, which need not end
-- Processors       src/common/main.c: the loop of kernel_main that starts the other processors
--                  and waits for each of them
-- Heap             src/common/memory.c: memory_set, memory_compare, memory_copy, and the linked list
--                  of chunks of memory_allocate, memory_free and memory_resize
-- Acpi             src/common/acpi.c: the search for the root pointer, the checksums, the search for a
--                  table, the walk over the entries of the MADT, and the printing of the tables
-- Interrupt        src/common/idt.c: the interrupt table. idt_register_interrupt is
--                  `register_interrupt`, `registrations` are the calls of idt_initialize, and
--                  `handle` (Interrupt/Handlers) is what the handlers of the exceptions print
-- Segment          src/common/gdt.c: the segment table of gdt_initialize, and gdt_debug
-- Apic             src/common/apic.c: the registers and entries of the I/O interrupt controller, and
--                  the commands that take the old controllers out of use
-- Pci              src/common/pci.c: the reads of the configuration registers, and pci_scan
-- Serial           src/common/serial.c: the serial line. The ports behind it are a parameter
-- Cpu              src/common/cpu.c: the time stamp counter, the waits by it, and the model specific
--                  registers. What the counter shows is a parameter
-- Shared           `Outcome`, the result of a call that returns, faults or goes on for ever, and
--                  lists, tests and integers over the native numbers
--
-- Numbers are native, and a sum that can wrap has its `% 2 ^ w`. An array is the list of its
-- elements, and an access outside of it is the outcome `fault`. The searches of the allocator and of
-- paging_index_find_spot, the walks over lists and tables in memory, and the waits for another
-- processor or for a device need not end: they run on a number of rounds and have the outcome `spin`
-- when it is over. For the searches a round for each word or entry that they may visit and one more
-- is enough where there is a free one; for the waits, one more than the reads after which the
-- hardware answers. All other loops run on a bound that is computed from their arguments.
--
-- A state of the allocator is in order (`IsValid`) when the table has its length, at most 2^32 words,
-- the search starts in it, the bits 31 to 63 of each word agree (`1 << bit` is a shift of an int, and
-- sets them together) and the lock is free. The cursor of the console is in the history (`IsCursor`)
-- when its row and column are, and a whole screen lies below the scroll position.
--
-- Physical memory is mapped at its own addresses, so a page table is read by its physical address.
-- The pages that the page tables take from the allocator are given to them in advance, in order.
-- The lock of the allocator is that of a single processor there; its behaviour between several is
-- what Lock models.
--
-- The tables of the firmware and of the boot loader are read from a memory of bytes, given as a
-- function from addresses; a structure is its address, and null is 0. Their walks run on a number of
-- rounds like the searches above: a round for each entry and one more is enough when the entries fill
-- the table, and the search for the root pointer has one more than the addresses it tries. What these
-- parts print is the list of the calls of the console (`ConsoleCall`).
--
-- What the hardware does is a parameter: the registers of PCI devices are a function from their
-- addresses, and an I/O interrupt controller is a record of a state and three operations, with the
-- documented behaviour of the bits of its entries that software sets as a hypothesis
-- (`IsController`). So are the ports of the serial line, which gets ready again and only sends what
-- is written when it is ready (`IsLine`), the time stamp counter, which goes on (`IsCounter`), and
-- what the boot processor reads while another one starts (`Answers`). The addresses of the functions
-- that handle interrupts are a parameter too.
--
-- In the heap the headers of the chunks are a store of their own, apart from the bytes; the invariant
-- `Chain` is that each chunk ends before the next one begins.
--
-- Not modelled: the messages on the console that report errors (where a caller can see one it is a
-- value), assembly but for the address that is sent for a PCI register, the set-up of a processor
-- (cpu_initialize), whose steps are mostly machine instructions, the keyboard's ports, the creation
-- of a process before it is in the list, and the rest of main.c, which are tests and commands that
-- print.
pub mod Shared
pub mod Word
pub mod Acpi
pub mod Apic
pub mod Boot
pub mod Console
pub mod Cpu
pub mod Heap
pub mod Interrupt
pub mod Keyboard
pub mod Lock
pub mod MemoryPhysical
pub mod Paging
pub mod Pci
pub mod Processors
pub mod Scheduler
pub mod Segment
pub mod Serial
pub mod Util
