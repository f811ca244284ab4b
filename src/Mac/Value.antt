-- ===== src/Mac/Value.antt =====
-- A MAC address as a number: the octets in big-endian order. ConvertHwAddrToInt64 computes it, by
-- way of a hexadecimal text (pkg/utils/utils.go).
use kubemacpool.Prelude.{
  ℕ, ◌+◌, ◌*◌, ◌/◌, ◌%◌, ◌^◌, ◌<◌, ◌≡◌, refl, some, [], ◌∷◌, length, arith, ok, Text, true, ltb,
  lt→ltb, ◌∙◌, sym,
}
use kubemacpool.Net.{HardwareAddr, hex_digit}
use kubemacpool.Net.RoundTrip.{IsBytes, IsMac, hex_val-hex_digit}
use kubemacpool.Mac.{hex_join, parse_hex, parse_int16, convert_hw_addr_to_int64}

abbrev pub value_from : ℕ → HardwareAddr → ℕ
value_from acc [] = acc
value_from acc (b ∷ bs) = value_from (acc * 256 + b) bs

abbrev pub value : HardwareAddr → ℕ
value = value_from 0

parse_hex-hex_join :
    (acc : ℕ) (bs : HardwareAddr)
    → IsBytes bs
    → parse_hex acc (hex_join bs) ≡ some (value_from acc bs)
unfolding parse_hex hex_join
parse_hex-hex_join acc [] h = refl
parse_hex-hex_join acc (b ∷ bs) h =
    let high = hex_val-hex_digit (b / 16) (omega arith) in
    let low = hex_val-hex_digit (b % 16) (omega arith) in
    let split : (acc * 16 + b / 16) * 16 + b % 16 ≡ acc * 256 + b = omega arith in
    rw (high, parse_hex, low, split) (parse_hex-hex_join (acc * 256 + b) bs h.1)

-- A proof for every six octets is a proof for every MAC-48 address.
pub six_octets {ℓ} :
    (P : HardwareAddr → Type ℓ)
    → ((a b c d e f : ℕ) → P (a ∷ b ∷ c ∷ d ∷ e ∷ f ∷ []))
    → (m : HardwareAddr) → length m ≡ 6
    → P m
six_octets P h (a ∷ b ∷ c ∷ d ∷ e ∷ f ∷ []) n = h a b c d e f
six_octets P h (a ∷ b ∷ c ∷ d ∷ e ∷ f ∷ g ∷ r) n = absurd (omega arith)
six_octets P h _ n = absurd (omega arith)

convert_parsed :
    (c : ℕ) (cs : Text) (v : ℕ)
    → parse_hex 0 (c ∷ cs) ≡ some v
    → ltb v (2 ^ 63) ≡ true
    → parse_int16 (c ∷ cs) ≡ ok v
unfolding parse_int16
convert_parsed c cs v parsed small = rw (parsed, parse_int16, small)

-- An address that denotes a number below 2^63 converts to that number.
pub convert_hw_addr_to_int64-value :
    (b : ℕ) (bs : HardwareAddr)
    → IsBytes (b ∷ bs)
    → value (b ∷ bs) < 2 ^ 63
    → convert_hw_addr_to_int64 (b ∷ bs) ≡ ok (value (b ∷ bs))
unfolding convert_hw_addr_to_int64 hex_join
convert_hw_addr_to_int64-value b bs h lt =
    let parsed : parse_hex 0 (hex_join (b ∷ bs)) ≡ some (value (b ∷ bs)) =
      parse_hex-hex_join 0 (b ∷ bs) h in
    let small : ltb (value (b ∷ bs)) (2 ^ 63) ≡ true = lt→ltb _ _ lt in
    convert_parsed (hex_digit (b / 16)) (hex_digit (b % 16) ∷ hex_join bs) _ parsed small

pub value-lt : (m : HardwareAddr) → IsMac m → value m < 2 ^ 48
value-lt m h = six_octets (λ m. IsMac m → value m < 2 ^ 48) (λ a b c d e f h. omega arith) m h.0 h

value_from_inj :
    (acc acc' : ℕ) (m n : HardwareAddr)
    → length m ≡ length n
    → IsBytes m
    → IsBytes n
    → value_from acc m ≡ value_from acc' n
    → (acc ≡ acc') × (m ≡ n)
value_from_inj acc acc' [] [] l hm hn e = (e, refl)
value_from_inj acc acc' (b ∷ bs) (c ∷ cs) l hm hn e =
    let (front, back) =
      value_from_inj (acc * 256 + b) (acc' * 256 + c) bs cs (omega arith) hm.1 hn.1 e in
    let same : b ≡ c = omega arith in (omega arith, cc (same, back))
value_from_inj acc acc' _ _ l hm hn e = absurd (omega arith)

-- MAC addresses with one value are one address.
pub value_inj : (m n : HardwareAddr) → IsMac m → IsMac n → value m ≡ value n → m ≡ n
value_inj m n hm hn e = (value_from_inj 0 0 m n (hm.0 ∙ sym hn.0) hm.1 hn.1 e).1

-- ConvertHwAddrToInt64 of a MAC-48 address is its number in base 256; it never fails.
pub convert_hw_addr_to_int64-mac :
    (m : HardwareAddr) → IsMac m → convert_hw_addr_to_int64 m ≡ ok (value m)
convert_hw_addr_to_int64-mac m h =
    six_octets (λ m. IsMac m → convert_hw_addr_to_int64 m ≡ ok (value m))
      (λ a b c d e f h. convert_hw_addr_to_int64-value a (b ∷ c ∷ d ∷ e ∷ f ∷ []) h.1 (omega arith))
      m h.0 h
