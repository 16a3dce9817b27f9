-- ===== src/Printk/Decimal.antt =====
-- decpair, put_dec_trunc8, put_dec_full8 and put_dec of kernel/printk.c. Each returns the memory and
-- the advanced pointer. `unsigned` has 32 bits and `unsigned long long` 64.
pub mod Pairs
pub mod Laws
pub mod Value
use armv8_os.Prelude.{ℕ, suc, ◌+◌, ◌-◌, ◌*◌, ◌/◌, ◌%◌, ◌^◌, bit_or, leb, ltb, if◌then◌else◌}
use armv8_os.Memory.{Mem, store}

-- The table entry, two digits with the low one in the low byte.
unfoldable pub decpair : ℕ → ℕ
decpair x = (bit_or (x % 10) (x / 10 * 2 ^ 8) + 0x3030) % 2 ^ 16

-- *((uint16_t *)buf) = v, on a little-endian machine.
unfoldable pub store16 : Mem → ℕ → ℕ → Mem
store16 m buf v = store (store m buf (v % 256)) (suc buf) (v / 256 % 256)

-- (x * (uint64_t)0x28f5c29) >> 32, assigned to an unsigned.
unfoldable pub quot : ℕ → ℕ
quot x = x * 0x28f5c29 % 2 ^ 64 / 2 ^ 32 % 2 ^ 32

-- (r * 0x147b) >> 19, in unsigned.
unfoldable pub quot_small : ℕ → ℕ
quot_small r = r * 0x147b % 2 ^ 32 / 2 ^ 19

-- x - 100 * q, in unsigned.
unfoldable pub rest : ℕ → ℕ → ℕ
rest x q = (x + 2 ^ 32 - 100 * q % 2 ^ 32) % 2 ^ 32

-- From the label `out_r` on.
unfoldable pub out_r : Mem → ℕ → ℕ → Mem × ℕ
out_r m buf r = (store16 m buf (decpair r), buf + (if ltb r 10 then 1 else 2))

-- The body behind the comments 1 <= r < 10^4 and 1 <= q < 10^6, and the whole function.
unfoldable pub trunc4 : Mem → ℕ → ℕ → Mem × ℕ
trunc4 m buf r =
    if ltb r 100
    then out_r m buf r
    else (let q = quot_small r in out_r (store16 m buf (decpair (rest r q))) (buf + 2) q)

unfoldable pub trunc6 : Mem → ℕ → ℕ → Mem × ℕ
trunc6 m buf q =
    if ltb q 100
    then out_r m buf q
    else (let r = quot q in trunc4 (store16 m buf (decpair (rest q r))) (buf + 2) r)

unfoldable pub put_dec_trunc8 : Mem → ℕ → ℕ → Mem × ℕ
put_dec_trunc8 m buf r =
    if ltb r 100
    then out_r m buf r
    else (let q = quot r in trunc6 (store16 m buf (decpair (rest r q))) (buf + 2) q)

unfoldable pub put_dec_full8 : Mem → ℕ → ℕ → Mem × ℕ
put_dec_full8 m buf r =
    let q = quot r in
    let m1 = store16 m buf (decpair (rest r q)) in
    let r2 = quot q in
    let m2 = store16 m1 (buf + 2) (decpair (rest q r2)) in
    let q3 = quot_small r2 in
    let m3 = store16 m2 (buf + 2 + 2) (decpair (rest r2 q3)) in
    (store16 m3 (buf + 2 + 2 + 2) (decpair q3), buf + 2 + 2 + 2 + 2)

abbrev pub hundred_million : ℕ
hundred_million = 100_000_000

-- if (n >= 100000000) buf = put_dec_full8(buf, do_div(n, 100000000));
unfoldable pub div_step : (Mem × ℕ) × ℕ → (Mem × ℕ) × ℕ
div_step ((m, buf), n) =
    if leb hundred_million n
    then (put_dec_full8 m buf (n % hundred_million), n / hundred_million)
    else ((m, buf), n)

unfoldable pub finish : (Mem × ℕ) × ℕ → Mem × ℕ
finish ((m, buf), n) = put_dec_trunc8 m buf (n % 2 ^ 32)

unfoldable pub put_dec : Mem → ℕ → ℕ → Mem × ℕ
put_dec m buf n = finish (div_step (div_step ((m, buf), n)))
