-- ===== src/Console.antt =====
-- driver/uart/console.c and driver/uart/qemu_uart.c, and vprintk of kernel/printk.c, which sends its
-- text to the console.
pub mod Laws
pub mod Render
use armv8_os.Prelude.{
  ℕ, zero, suc, ◌+◌, ◌-◌, ◌%◌, ◌^◌, ◌==◌, if◌then◌else◌, List, [], ◌∷◌, Option, none, some, bit_and,
}
use armv8_os.Prelude.Int.{ℤ, pos, negsuc}
use armv8_os.Run.{Run, done, out, ◌>>=◌}
use armv8_os.Memory.{Mem}
use armv8_os.Libc.Compare.{strcmp, is_zero}
use armv8_os.Io.{Trace, Bus, writeb, readb}
use armv8_os.Mmu.{device_start}
use armv8_os.Printk.Vsnprintf.{vsnprintf}

-- The pattern of an int.
abbrev pub pattern : ℤ → ℕ
pattern (pos n) = n % 2 ^ 32
pattern (negsuc n) = (2 ^ 32 - 1 - n) % 2 ^ 32

-- `name` is the address of the array, the functions are addresses.
pub record Console : Type 0 where
  pub name : ℕ
  pub arg : ℕ
  pub init : ℕ
  pub write : ℕ
  pub read : ℕ

abbrev pub qemu_uart_dr : ℕ
qemu_uart_dr = device_start + 0x09000000 + 0x00

abbrev pub qemu_uart_fr : ℕ
qemu_uart_fr = device_start + 0x09000000 + 0x18

-- The character, where there is one, and the return value.
unfoldable pub uart_getchar : Bus → Trace → (Option ℕ × ℤ) × Trace
uart_getchar bus t =
    let (fr, t1) = readb bus qemu_uart_fr t in
    let (dr, t2) = readb bus qemu_uart_dr t1 in
    if bit_and fr 0x10 == 0 then ((none, negsuc 0), t1) else ((some dr, pos 0), t2)

abbrev pub uart_putchar : ℕ → Trace → Trace
uart_putchar ch t = writeb ch qemu_uart_dr t

unfoldable pub qemu_console_write : Mem → (s n : ℕ) → Trace → Trace
qemu_console_write m s zero t = t
qemu_console_write m s (suc n) t =
    let t1 = if m s == b'\n' then uart_putchar b'\r' t else t in
    qemu_console_write m (suc s) n (uart_putchar (m s) t1)

-- The variable uart_console, and what was done to the devices.
pub record Uart : Type 0 where
  pub uart_console : Option Console
  pub trace : Trace

-- What the functions that the table of consoles names do; `qemu` is the address of "qemu".
module _ (call_init : ℕ → Console → Uart → Uart) (qemu : ℕ) where
  unfoldable pub console_init : (fuel : ℕ) → Mem → List Console → Uart → Run Uart
  console_init fuel m [] u = done u
  console_init fuel m (con ∷ rest) u =
      let next = console_init fuel m rest u in
      strcmp fuel m con.name qemu >>= λ r.
      if is_zero r
      then (let u1 = if con.init == 0 then u else call_init con.init con u in
          done (record u1 { uart_console = some con }))
      else next

module _ (call_write : ℕ → Console → Mem → (s n : ℕ) → Trace → Trace) where
  -- `n` is the pattern of the int, which the function behind the pointer takes as an unsigned.
  unfoldable pub console_write : Mem → (s n : ℕ) → Uart → Uart
  console_write m s n u = elim u.uart_console [
    | none ↦ u
    | some con ↦
        if s == 0
        then u
        else (if n == 0 then u else record u { trace = call_write con.write con m s n u.trace })
  ]

  -- `p_buf` is the address of the array on the stack; the length is returned.
  unfoldable pub vprintk :
      (fuel : ℕ) → (stack m : Mem) → (p_buf fmt : ℕ) → (ℕ → ℕ) → Uart → Run (Mem × Uart × ℤ)
  vprintk fuel stack m p_buf fmt args u =
      vsnprintf fuel stack m p_buf 1024 fmt args >>= λ (m', len).
      done (m', console_write m' p_buf (pattern len) u, len)

  -- va_start makes `args` of the arguments behind the format.
  unfoldable pub printk :
      (fuel : ℕ) → (stack m : Mem) → (p_buf fmt : ℕ) → (ℕ → ℕ) → Uart → Run (Mem × Uart × ℤ)
  unfolding vprintk
  printk fuel stack m p_buf fmt args u = vprintk fuel stack m p_buf fmt args u
