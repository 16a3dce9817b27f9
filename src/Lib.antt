-- ===== src/Lib.antt =====
-- EEOS (armv8_os), a small kernel in C for aarch64 and riscv64: the parts of it that carry logic,
-- and what holds of them.
--
-- Parts of the program and the modules that model them:
--   Prelude            shared names, Boolean tests, lists and integers over the native numbers
--   Memory             one flat memory of bytes; a pointer is an address
--   Run                loops on fuel: a result, or `out`
--   Io                 arch/arm64/include/io.h: accesses to devices and system registers as a trace
--   Irqflags           arch/arm64/include/asm/irqflags.h, include/eeos/irqflags.h
--   Mmu                arch/arm64/mmu_v3.c, arch/arm64/include/asm/memory.h: the page tables, with the
--                      hardware's walk through them (Mmu/Walk)
--   Ctype              lib/ctype.c, include/lib/ctype.h: the class table, tests, case conversion
--   Libc/Block         memcpy, memmove, memset            of lib/libc/string.c
--   Libc/Scan          strlen, strnlen, memchr, strchr, strrchr
--   Libc/Compare       strcmp, strncmp, memcmp, strstr, strnsrt
--   Libc/Copy          strcpy, strncpy
--   Libc/Number        strtoul
--   Printk/Decimal     decpair, put_dec_trunc8, put_dec_full8, put_dec   of kernel/printk.c
--   Printk/Digits      positional numerals, the reference for the digits
--   Printk/Output      the output cursor with its bound, and the padding loops
--   Printk/Number      number, pointer_string
--   Printk/Str         move_right, widen_string, string
--   Printk/Decode      skip_atoi, format_decode
--   Printk/Vsnprintf   vsnprintf, vsprintf, snprintf, sprintf
--   Printk/Format      the grammar of formats; format_decode on a directive (Format/Decode, Format/Stages),
--                      the switch (Format/Values, Format/Convert) and the rounds of the loop (Format/Text,
--                      Format/Rounds, Format/Width)
--   Printk/Render      the text that a format stands for, the reference for vsnprintf
--   Interrupt          driver/interrupt/interrupt.c
--   Gicv3              driver/interrupt/gicv3/gicv3.c, with the lines that the controller forwards
--                      after a trace (Gicv3/Enabled)
--   Plic               driver/interrupt/plic.c, driver/timer/riscv_timer.c
--   Timer              driver/timer/arm64_timer.c
--   Console            driver/uart/console.c, driver/uart/qemu_uart.c, vprintk and printk of
--                      kernel/printk.c, with what a format sends to the UART (Console/Render)
--   Boot               init/main.c, arch/arm64/setup.c and gicv3_driver_init: start_kernel up to its
--                      endless loop (Boot/Laws), an interrupt of the timer (Boot/Interrupts), a spurious one
--                      (Boot/Spurious), and one of a line without a handler (Boot/Unhandled)
--   LinkedList         include/eeos/list.h on an explicit heap; the macros for entries and the loops that
--                      survive a removal (LinkedList/Entries)
--   Checks             runs on concrete inputs, and the theorems at concrete inputs
--
-- A definition bears the name of the C function that it models; a loop is a function of its own,
-- recursive on the rounds left or on fuel. A function that writes memory takes it and returns it.
-- Fuel: a loop that runs up to a NUL takes fuel and ends in `out` where the fuel is gone; the
-- theorems about it ask for more fuel than the string has bytes, and then give its result. In
-- vsnprintf one fuel bounds every loop; more than the bytes of the format and of each string that it
-- prints is enough. The loop over the digits of a number has 64 rounds, more than a number of 64
-- bits has digits. The mapping loop of create_kernel_map takes 512 rounds for the RAM, 256 for the
-- devices and at most 2048 for the image, so 2049 is enough. The loops that poll a register of the
-- controller take fuel; that the register settles within it is a hypothesis (Gicv3/Laws, Answers).
--
-- Devices: what the C code does to a device, a system register or a barrier is one event of a trace,
-- the newest first; what the machine answers is a function of the trace before (Io, Bus). What a trace
-- means to a device is an independent description that the theorems compare the code with: the
-- enabled lines, the timer's control register, the bytes sent, the mask of the interrupts. The page
-- tables are words of a memory of their own, apart from the bytes that strings stand in. The walk
-- reads the tables as they stand: there is no TLB, which switch_mm empties before it writes ttbr1_el1.
--
-- The addresses of functions, strings and static data are parameters (Mmu, Image; Boot, Symbols), and
-- that functions have different addresses is a hypothesis where a dispatch depends on it. In start_kernel
-- one state is passed from part to part in the order of the source.
--
-- Integers: a value of an unsigned type is a native number, with the wrap-around of its width
-- written out (`% 2 ^ 32` and so on); `int` results are integers that are cut to 32 bits where a length
-- can be larger (terminate), and the widths and precisions of printk are integers of 24 and 16 bits
-- that are cut where they are set (to_signed) and where a width is counted down in its bit field
-- (pad_field). Addresses
-- do not wrap inside an object. A pointer to a function is an address too, and a call through it is
-- a parameter of the model. `char` is unsigned, as it is on both targets.
--
-- Not modelled: the assembly (startup.S, vector.S, the linker script) is not C. asm/csr.h is no part of
-- the repository, so csr_set is a parameter of Plic. The endless loop of
-- unexpected_exception has no state: its model ends where the loop begins.
-- kernel/task.c is empty.
pub mod Prelude
pub mod Memory
pub mod Run
pub mod Io
pub mod Gicv3
pub mod Timer
pub mod Irqflags
pub mod Console
pub mod Plic
pub mod Boot
pub mod Mmu
pub mod Ctype
pub mod Libc
pub mod Interrupt
pub mod LinkedList
pub mod Printk
mod Checks
