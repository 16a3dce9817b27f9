-- ===== src/Console/Render.antt =====
-- What vprintk of kernel/printk.c sends to the UART for a format that is meant.
use armv8_os.Prelude.{
  true, ltb, take, ℕ, zero, suc, ◌+◌, ◌-◌, ◌%◌, ◌^◌, ◌<◌, ◌≤◌, ◌≡◌, ◌≢◌, refl, ap, ◌∙◌, List, [],
  ◌∷◌, ◌++◌, reverse_aux, some, get_or, arith, length,
}
use armv8_os.Prelude.Int.{pos}
use armv8_os.Run.{Ends, Ends-bind, Ends-mono}
use armv8_os.Memory.{Mem}
use armv8_os.Io.{Trace}
use armv8_os.Printk.Vsnprintf.{vsnprintf}
use armv8_os.Printk.Format.{Item, format_chars, IsFormat}
use armv8_os.Printk.Render.{field, render, shown}
use armv8_os.Printk.Format.Stored.{Stored}
use armv8_os.Printk.Format.Laws.{Supplied, vsnprintf-render}
use armv8_os.Console.{Console, Uart, pattern, qemu_console_write, vprintk}
use armv8_os.Console.Laws.{sent, bytes, crlf, qemu_console_write-sent, console_write_lem}

bytes-eq :
    (n : ℕ) (m m' : Mem) (s : ℕ)
    → ((i : ℕ) → i < n → m (s + i) ≡ m' (s + i))
    → bytes m s n ≡ bytes m' s n
bytes-eq zero m m' s h = refl
bytes-eq (suc n) m m' s h =
    let first : m s ≡ m' s = ap m (omega arith) ∙ h 0 (omega arith) ∙ ap m' (omega arith) in
    rw first (
      ap (λ r. m' s ∷ r)
        (bytes-eq n m m' (suc s)
          (λ i below. ap m (omega arith) ∙ h (suc i) (omega (arith, below)) ∙ ap m' (omega arith))))

bytes-append : (j k : ℕ) (m : Mem) (s : ℕ) → bytes m s (j + k) ≡ bytes m s j ++ bytes m (s + j) k
bytes-append zero k m s =
    let count : 0 + k ≡ k = omega arith in
    let start : s ≡ s + 0 = omega arith in ap (λ j. bytes m s j) count ∙ ap (λ a. bytes m a k) start
bytes-append (suc j) k m s =
    let e : suc s + j ≡ s + suc j = omega arith in
    let count : suc j + k ≡ suc (j + k) = omega arith in
    ap (λ n. bytes m s n) count
    ∙ ap (λ r. m s ∷ r) (bytes-append j k m (suc s) ∙ ap (λ a. bytes m (suc s) j ++ bytes m a k) e)

bytes_lem :
    (xs : List ℕ) (n : ℕ) (m : Mem) (s : ℕ)
    → n ≤ length xs
    → ((i : ℕ) → i < n → m (s + i) ≡ get_or xs i 0)
    → bytes m s n ≡ take n xs
bytes_lem xs zero m s few h = refl
bytes_lem [] (suc n) m s few h = absurd (omega (arith, few))
bytes_lem (x ∷ xs) (suc n) m s few h =
    let first : m s ≡ x = ap m (omega arith) ∙ h 0 (omega arith) in
    rw first (
      ap (λ r. x ∷ r)
        (bytes_lem xs n m (suc s) (omega (arith, few))
          (λ i below. ap m (omega arith) ∙ h (suc i) (omega (arith, below)))))

take_all : (xs : List ℕ) → take (length xs) xs ≡ xs
take_all [] = refl
take_all (x ∷ xs) = ap (λ r. x ∷ r) (take_all xs)

-- A text that fits.
shown-bytes :
    (xs : List ℕ) (m : Mem) (buf room : ℕ)
    → length xs < room
    → bytes (shown m buf room xs) buf (length xs) ≡ xs
shown-bytes xs m buf room fit =
    bytes_lem xs (length xs) _ buf (omega arith) (λ i below. ground (arith, fit, below))
    ∙ take_all xs

-- A text that is cut, its NUL, and what stands behind the buffer.
shown-cut :
    (xs : List ℕ) (m : Mem) (buf k : ℕ)
    → k < length xs
    → bytes (shown m buf (suc k) xs) buf (length xs)
      ≡ take k xs ++ 0 ∷ bytes m (buf + suc k) (length xs - suc k)
shown-cut xs m buf k long =
    let m' = shown m buf (suc k) xs in
    let rest = length xs - suc k in
    let e : length xs ≡ k + suc rest = omega (arith, long) in
    let text =
      bytes_lem xs k m' buf (omega (arith, long)) (λ i below. ground (arith, long, below)) in
    let nul : m' (buf + k) ≡ 0 = ground (arith, long) in
    let behind : bytes m' (suc (buf + k)) rest ≡ bytes m (suc (buf + k)) rest =
      bytes-eq rest m' m (suc (buf + k)) (λ i below. ground (arith, long, below)) in
    let next_to : suc (buf + k) ≡ buf + suc k = omega arith in
    ap (λ n. bytes m' buf n) e
    ∙ bytes-append k (suc rest) m' buf
    ∙ ap (λ r. r ++ bytes m' (buf + k) (suc rest)) text
    ∙ ap (λ r. take k xs ++ r)
        (ap (λ b. b ∷ bytes m' (suc (buf + k)) rest) nul
          ∙ ap (λ r. 0 ∷ r) (behind ∙ ap (λ a. bytes m a rest) next_to))

pattern-field : (n : ℕ) → n < 2 ^ 31 → (field 32 n ≡ pos n) × (pattern (field 32 n) ≡ n)
pattern-field n few =
    let low : ltb (n % 2 ^ 32) (2 ^ 31) ≡ true = ground (arith, few) in
    let same : n % 2 ^ 32 ≡ n = omega (arith, few) in
    let e : field 32 n ≡ pos n = rw low (ap pos same) in (e, ap pattern e ∙ same)

module _ (call_write : ℕ → Console → Mem → (s n : ℕ) → Trace → Trace) (con : Console) (fuel : ℕ)
    (stack m : Mem) (p_buf fmt : ℕ) (args : ℕ → ℕ) (items : List Item) (u : Uart)
    (qemu : (m : Mem) (s n : ℕ) (t : Trace)
      → call_write con.write con m s n t ≡ qemu_console_write m s n t)
    (ready : u.uart_console ≡ some con) (buf : p_buf ≢ 0) (fit : p_buf + 1024 < 2 ^ 64)
    (h : IsFormat items)
    (there : Stored (p_buf + 1024) fuel (record { mem = m; cur = p_buf }) fmt (format_chars items))
    (given : Supplied (p_buf + 1024) fuel args (record { mem = m; cur = p_buf }) 0 items) where
  -- The console is given the buffer, and the length of the whole text.
  pub vprintk-shown :
      Ends
        (λ (m', u', len).
          (len ≡ field 32 (length (render args 0 items)))
          × ((a : ℕ) → m' a ≡ shown m p_buf 1024 (render args 0 items) a)
          × (u' ≡ record u { trace = qemu_console_write m' p_buf (pattern len) u.trace }))
        (vprintk call_write fuel stack m p_buf fmt args u)
  unfolding vprintk
  vprintk-shown =
      Ends-bind _ _ (vsnprintf fuel stack m p_buf 1024 fmt args) _
        (vsnprintf-render fuel stack m p_buf 1024 fmt args items fit h there given)
        (λ (m', len) (returned, text). (
          returned,
          text,
          console_write_lem call_write con m' p_buf (pattern len) u
              (qemu m' p_buf (pattern len) u.trace) ready buf,
        ))

  -- What is sent: the text, or as much as stands in the buffer.
  vprintk-bytes :
      length (render args 0 items) < 2 ^ 31
      → Ends
          (λ (m', u', len).
            (len ≡ pos (length (render args 0 items)))
            × (sent u'.trace
                ≡ reverse_aux
                    (crlf (
                      bytes
                        (shown m p_buf 1024 (render args 0 items))
                        p_buf
                        (length (render args 0 items))))
                    (sent u.trace)))
          (vprintk call_write fuel stack m p_buf fmt args u)
  vprintk-bytes few =
      let xs = render args 0 items in
      let (int, low) = pattern-field (length xs) few in
      Ends-mono _ _ (vprintk call_write fuel stack m p_buf fmt args u)
        (λ (m', u', len) (returned, text, wrote).
          let n : pattern len ≡ length xs = ap pattern returned ∙ low in
          (
            returned ∙ int,
            ap (λ (u : Uart). sent u.trace) wrote
                ∙ qemu_console_write-sent m' p_buf (pattern len) u.trace
                ∙ ap (λ n. reverse_aux (crlf (bytes m' p_buf n)) (sent u.trace)) n
                ∙ ap (λ b. reverse_aux (crlf b) (sent u.trace))
                    (bytes-eq (length xs) m' (shown m p_buf 1024 xs) p_buf
                      (λ i _. text (p_buf + i))),
          ))
        vprintk-shown

  -- For a console whose write function is that of the QEMU UART, a buffer that is not at NULL, and
  -- a buffer, format and arguments as for `vsnprintf`, where the text has less than 1024
  -- characters, `vprintk` ends, returns the length of the text and sends exactly this text to the
  -- UART, with every line feed as CR LF.
  pub vprintk-render :
      length (render args 0 items) < 1024
      → Ends
          (λ (m', u', len).
            (len ≡ pos (length (render args 0 items)))
            × (sent u'.trace ≡ reverse_aux (crlf (render args 0 items)) (sent u.trace)))
          (vprintk call_write fuel stack m p_buf fmt args u)
  vprintk-render short =
      Ends-mono _ _ (vprintk call_write fuel stack m p_buf fmt args u)
        (λ r (returned, e). (
          returned,
          e
              ∙ ap (λ b. reverse_aux (crlf b) (sent u.trace))
                  (shown-bytes (render args 0 items) m p_buf 1024 short),
        ))
        (vprintk-bytes (omega (arith, short)))

  -- For a console, buffer, format and arguments as for `vprintk-render`, where the text has at
  -- least 1024 and less than 2 ^ 31 characters, `vprintk` ends, returns the length of the whole
  -- text and sends as many bytes: the first 1023 characters of the text, a NUL, and then the bytes
  -- that stand in memory behind the buffer, with every line feed as CR LF.
  pub vprintk-cut :
      1024 ≤ length (render args 0 items)
      → length (render args 0 items) < 2 ^ 31
      → Ends
          (λ (m', u', len).
            (len ≡ pos (length (render args 0 items)))
            × (sent u'.trace
                ≡ reverse_aux
                    (crlf (
                      take 1023 (render args 0 items)
                      ++ 0 ∷ bytes m (p_buf + 1024) (length (render args 0 items) - 1024)))
                    (sent u.trace)))
          (vprintk call_write fuel stack m p_buf fmt args u)
  vprintk-cut long few =
      Ends-mono _ _ (vprintk call_write fuel stack m p_buf fmt args u)
        (λ r (returned, e). (
          returned,
          e
              ∙ ap (λ b. reverse_aux (crlf b) (sent u.trace))
                  (shown-cut (render args 0 items) m p_buf 1023 long),
        ))
        (vprintk-bytes few)
