-- ===== src/Console/Laws.antt =====
-- What the UART is sent, and which console is chosen: driver/uart/qemu_uart.c and
-- driver/uart/console.c.
use armv8_os.Prelude.{
  ℕ, zero, suc, ◌%◌, ◌^◌, ◌<◌, ◌≡◌, ◌≢◌, ◌==◌, ◌&&◌, refl, Bool, true, false, if◌then◌else◌, List,
  [], ◌∷◌, reverse_aux, Option, none, some, arith, length,
}
use armv8_os.Run.{done}
use armv8_os.Memory.{Mem, IsString}
use armv8_os.Libc.Compare.{is_zero}
use armv8_os.Libc.Compare.Order.{order, strcmp-order}
use armv8_os.Io.{Event, Trace}
use armv8_os.Console.{
  uart_putchar, Console, Uart, qemu_uart_dr, qemu_console_write, console_init, console_write,
}

-- The bytes that the UART was sent, the newest first.
abbrev pub sent : Trace → List ℕ
sent [] = []
sent (Event.write width addr val ∷ t) = if addr == qemu_uart_dr then val ∷ sent t else sent t
sent (_ ∷ t) = sent t

abbrev pub bytes : Mem → (s n : ℕ) → List ℕ
bytes m s zero = []
bytes m s (suc n) = m s ∷ bytes m (suc s) n

-- A text as a terminal wants it.
abbrev pub crlf : List ℕ → List ℕ
crlf [] = []
crlf (x ∷ xs) = if x == b'\n' then b'\r' ∷ b'\n' ∷ crlf xs else x % 2 ^ 8 ∷ crlf xs

pub qemu_console_write-sent :
    (m : Mem) (s n : ℕ) (t : Trace)
    → sent (qemu_console_write m s n t) ≡ reverse_aux (crlf (bytes m s n)) (sent t)
unfolding qemu_console_write
qemu_console_write-sent m s zero t = refl
qemu_console_write-sent m s (suc n) t =
    let plain = qemu_console_write-sent m (suc s) n (uart_putchar (m s) t) in
    let line = qemu_console_write-sent m (suc s) n (uart_putchar (m s) (uart_putchar b'\r' t)) in
    ground (arith, plain, line)

-- Two strings are equal.
abbrev pub same : List ℕ → List ℕ → Bool
same [] [] = true
same (x ∷ xs) (y ∷ ys) = (x == y) && same xs ys
same _ _ = false

order-same : (xs ys : List ℕ) → is_zero (order xs ys) ≡ same xs ys
order-same [] [] = refl
order-same [] (y ∷ ys) = refl
order-same (x ∷ xs) [] = refl
order-same (x ∷ xs) (y ∷ ys) = ground (arith, order-same xs ys)

-- The first console with the name.
abbrev pub find : (text : Console → List ℕ) → (name : List ℕ) → List Console → Option Console
find text name [] = none
find text name (con ∷ rest) = if same (text con) name then some con else find text name rest

-- The consoles' names are the strings that `text` gives, and the fuel is enough for them.
abbrev pub Named : (fuel : ℕ) → Mem → (text : Console → List ℕ) → List Console → Type 0
Named fuel m text [] = Unit
Named fuel m text (con ∷ rest) =
    (IsString m con.name (text con)) × (length (text con) < fuel) × Named fuel m text rest

-- The console that is chosen, and what its init function does.
abbrev pub chosen : (Console → Uart → Uart) → Option Console → Uart → Uart
chosen start none u = u
chosen start (some con) u = record (start con u) { uart_console = some con }

moved :
    {A B : Type 0} (f : A → B) (b : Bool) (x y : A)
    → (if b then f x else f y) ≡ f (if b then x else y)
moved f true x y = refl
moved f false x y = refl

-- If the names of the consoles are strings, with fuel for them, `console_init` ends and makes the
-- first console whose name is the string that it compares with the console, after its init
-- function if it has one, and changes nothing if there is none.
pub console_init-find :
    (call_init : ℕ → Console → Uart → Uart) (qemu fuel : ℕ) (m : Mem) (name : List ℕ)
    (text : Console → List ℕ) (cons : List Console) (u : Uart)
    → IsString m qemu name
    → Named fuel m text cons
    → console_init call_init qemu fuel m cons u
      ≡ done (
          chosen
            (λ con u. if con.init == 0 then u else call_init con.init con u)
            (find text name cons)
            u)
unfolding console_init
console_init-find call_init qemu fuel m name text [] u h k = refl
console_init-find call_init qemu fuel m name text (con ∷ rest) u h (named, few, k) =
    let compared = strcmp-order fuel m con.name qemu (text con) name named h few in
    let equal = order-same (text con) name in
    let initialised =
      λ (con : Console) (u : Uart). if con.init == 0 then u else call_init con.init con u in
    let later = console_init-find call_init qemu fuel m name text rest u h k in
    rw (compared, equal, later)
      (moved (λ c. done (chosen initialised c u)) (same (text con) name) _ _)

pub console_write_lem :
    (call_write : ℕ → Console → Mem → (s n : ℕ) → Trace → Trace) (con : Console) (m : Mem) (s n : ℕ)
    (u : Uart)
    → call_write con.write con m s n u.trace ≡ qemu_console_write m s n u.trace
    → u.uart_console ≡ some con
    → s ≢ 0
    → console_write call_write m s n u ≡ record u { trace = qemu_console_write m s n u.trace }
unfolding console_write qemu_console_write
console_write_lem call_write con m s zero u qemu ready there =
    rw (ready) (ground (arith, ready, there))
console_write_lem call_write con m s (suc n) u qemu ready there =
    rw (ready, qemu) (ground (arith, ready, there))
