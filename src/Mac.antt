-- ===== src/Mac.antt =====
-- The arithmetic of MAC addresses: the functions of pkg/pool-manager/pool.go that take no pool
-- (checkRange, GetMacPoolSize, generateRandomMac, checkCast, getNextMac), and ConvertHwAddrToInt64
-- of pkg/utils/utils.go.
pub mod Value
pub mod Next
pub mod Range
pub mod Random
use kubemacpool.Prelude.{
  ℕ, zero, suc, ◌+◌, ◌-◌, ◌*◌, ◌/◌, ◌%◌, ◌^◌, Bool, true, false, Option, none, some, List, [], ◌∷◌,
  Text, length, set, drop, ltb, ◌==◌, if◌then◌else◌, Result, ok, err, Error, ◌>>=◌, ◌>>◌, index, ℤ,
  pos, negsuc, sub_ℕ, wrap_int64,
}
use kubemacpool.Net.{HardwareAddr, hex_digit, hex_val}

-- Is octet `idx` of the start below that of the end?
unfoldable pub octet_below : ℕ → HardwareAddr → HardwareAddr → Result Bool
octet_below idx start end = do a ← index start idx; b ← index end idx; ok (ltb a b)

-- The rounds left, and `idx`.
unfoldable pub check_range_loop : ℕ → ℕ → HardwareAddr → HardwareAddr → Result (Unit {0})
unfolding octet_below
check_range_loop zero idx start end = err Error.invalid_range
check_range_loop (suc left) idx start end =
    let rest = check_range_loop left (idx + 1) start end in
    octet_below idx start end >>= λ below. if below then ok tt else rest

unfoldable pub check_range : HardwareAddr → HardwareAddr → Result (Unit {0})
unfolding check_range_loop
check_range start end = check_range_loop 6 0 start end

-- The octets, each as two hexadecimal digits, joined.
hex_join : HardwareAddr → Text
hex_join [] = []
hex_join (b ∷ bs) = hex_digit (b / 16) ∷ hex_digit (b % 16) ∷ hex_join bs

parse_hex : ℕ → Text → Option ℕ
parse_hex acc [] = some acc
parse_hex acc (c ∷ cs) = elim (hex_val c) [ none ↦ none | some d ↦ parse_hex (acc * 16 + d) cs ]

-- `strconv.ParseInt(s, 16, 64)` of a text without a sign: an error if it is empty, has another
-- character than a digit, or stands for a number of 2^63 or more.
parse_int16 : Text → Result ℕ
unfolding parse_hex
parse_int16 [] = err Error.invalid_hw_addr
parse_int16 (c ∷ cs) = elim (parse_hex 0 (c ∷ cs)) [
  | none ↦ err Error.invalid_hw_addr
  | some v ↦ if ltb v (2 ^ 63) then ok v else err Error.invalid_hw_addr
]

unfoldable pub convert_hw_addr_to_int64 : HardwareAddr → Result ℕ
unfolding hex_join parse_int16
convert_hw_addr_to_int64 address = parse_int16 (hex_join address)

unfoldable pub get_mac_pool_size : HardwareAddr → HardwareAddr → Result ℤ
get_mac_pool_size range_start range_end = do
  check_range range_start range_end
  start_int ← convert_hw_addr_to_int64 range_start
  end_int ← convert_hw_addr_to_int64 range_end
  ok (wrap_int64 (sub_ℕ (end_int + 1) start_int))

-- `binary.BigEndian.PutUint64` into eight octets.
unfoldable pub put_uint64 : ℕ → HardwareAddr
put_uint64 x =
    (x / 256 ^ 7 % 256)
    ∷ (x / 256 ^ 6 % 256)
    ∷ (x / 256 ^ 5 % 256)
    ∷ (x / 256 ^ 4 % 256)
    ∷ (x / 256 ^ 3 % 256)
    ∷ (x / 256 ^ 2 % 256)
    ∷ (x / 256 % 256)
    ∷ (x % 256)
    ∷ []

unfoldable pub random_offset : (ℕ → Option ℕ) → ℤ → Result ℕ
random_offset random (pos zero) = err Error.invalid_pool_size
random_offset random (pos (suc n)) = elim (random (suc n)) [
  | none ↦ err Error.random_failed
  | some r ↦ ok r
]
random_offset random (negsuc n) = err Error.invalid_pool_size

-- `random` stands for one call of crypto/rand's `Int`: a number below its argument, or a failure.
unfoldable pub generate_random_mac :
    (ℕ → Option ℕ) → HardwareAddr → HardwareAddr → Result HardwareAddr
unfolding random_offset put_uint64
generate_random_mac random range_start range_end = do
  pool_size ← get_mac_pool_size range_start range_end
  offset ← random_offset random pool_size
  start_int ← convert_hw_addr_to_int64 range_start
  ok (drop 2 (put_uint64 ((start_int + offset) % 2 ^ 64)))

-- The multicast bit is the lowest bit of the first octet.
unfoldable pub check_cast : HardwareAddr → Result (Unit {0})
check_cast mac = do first ← index mac 0; if first % 2 == 1 then err Error.invalid_cast else ok tt

-- Octets `idx - 1`, `idx - 2`, …, 0, until one does not wrap to 0.
next_mac_loop : ℕ → HardwareAddr → Result HardwareAddr
next_mac_loop zero mac = ok mac
next_mac_loop (suc idx) mac = index mac idx >>= λ b.
    let b' = (b + 1) % 256 in
    let mac' = set mac idx b' in
    let carry = next_mac_loop idx mac' in if b' == 0 then carry else ok mac'

unfoldable pub get_next_mac : HardwareAddr → Result HardwareAddr
unfolding next_mac_loop
get_next_mac current_mac = next_mac_loop 6 current_mac
