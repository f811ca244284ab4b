-- ===== src/Net.antt =====
-- The functions of Go's package `net` that the program calls on MAC addresses: `ParseMAC` and
-- `HardwareAddr.String`; with `macKey` of pkg/pool-manager/mackey.go and `NormalizeMacAddress` of
-- pkg/controller/maccollision/mac.go, which are built on them.
pub mod RoundTrip
use kubemacpool.Prelude.{
  ℕ, ◌+◌, ◌-◌, ◌*◌, ◌/◌, ◌%◌, Bool, true, false, ◌&&◌, ◌||◌, Option, none, some, List, [], ◌∷◌,
  Text, length, get_elem?, ltb, leb, ◌==◌, if◌then◌else◌, Result, ok, err, Error,
}

abbrev pub HardwareAddr : Type 0
HardwareAddr = List ℕ

unfoldable pub hex_digit : ℕ → ℕ
hex_digit d = if ltb d 10 then d + b'0' else (d - 10) + b'a'

unfoldable pub hex_val : ℕ → Option ℕ
hex_val c =
    if leb b'0' c && leb c b'9'
    then some (c - b'0')
    else if leb b'a' c && leb c b'f'
    then some (c - b'a' + 10)
    else if leb b'A' c && leb c b'F'
    then some (c - b'A' + 10)
    else none

mac_rest : HardwareAddr → Text
mac_rest [] = []
mac_rest (b ∷ bs) = b':' ∷ hex_digit (b / 16) ∷ hex_digit (b % 16) ∷ mac_rest bs

-- `HardwareAddr.String`: pairs of lower-case hexadecimal digits joined by colons.
unfoldable pub mac_string : HardwareAddr → Text
unfolding mac_rest
mac_string [] = []
mac_string (b ∷ bs) = hex_digit (b / 16) ∷ hex_digit (b % 16) ∷ mac_rest bs

unfoldable pub octet : ℕ → ℕ → Option ℕ
octet h l = elim (hex_val h) [
  | none ↦ none
  | some x ↦ elim (hex_val l) [ none ↦ none | some y ↦ some (x * 16 + y) ]
]

cons_octet : Option ℕ → Option HardwareAddr → Option HardwareAddr
cons_octet none rest = none
cons_octet (some b) none = none
cons_octet (some b) (some bs) = some (b ∷ bs)

-- Octets of two digits, with one separator between them.
parse_pairs : ℕ → Text → Option HardwareAddr
unfolding cons_octet
parse_pairs sep [] = none
parse_pairs sep (h ∷ []) = none
parse_pairs sep (h ∷ l ∷ []) = cons_octet (octet h l) (some [])
parse_pairs sep (h ∷ l ∷ e ∷ r) =
    let rest = parse_pairs sep r in if e == sep then cons_octet (octet h l) rest else none

-- Groups of four digits, with dots between them.
parse_quads : Text → Option HardwareAddr
unfolding cons_octet
parse_quads (a ∷ b ∷ c ∷ d ∷ []) = cons_octet (octet a b) (cons_octet (octet c d) (some []))
parse_quads (a ∷ b ∷ c ∷ d ∷ e ∷ r) =
    let rest = parse_quads r in
    if e == b'.' then cons_octet (octet a b) (cons_octet (octet c d) rest) else none
parse_quads _ = none

-- MAC-48, EUI-64, or a 20-octet InfiniBand address.
known_length : Option HardwareAddr → Option HardwareAddr
known_length none = none
known_length (some hw) = let n = length hw in if n == 6 || n == 8 || n == 20 then some hw else none

has_char : Text → ℕ → ℕ → Bool
has_char s i c = elim (get_elem? s i) [ none ↦ false | some d ↦ d == c ]

-- `net.ParseMAC`.
unfoldable pub parse_mac : Text → Option HardwareAddr
unfolding parse_pairs parse_quads known_length has_char
parse_mac s =
    if ltb (length s) 14
    then none
    else if has_char s 2 b':'
    then known_length (parse_pairs b':' s)
    else if has_char s 2 b'-'
    then known_length (parse_pairs b'-' s)
    else if has_char s 4 b'.'
    then known_length (parse_quads s)
    else none

-- `NewMacKey(macAddress).String()`: the error of `ParseMAC` is ignored, and the string of the nil
-- address is empty.
unfoldable pub new_mac_key : Text → Text
new_mac_key s = elim (parse_mac s) [ none ↦ [] | some hw ↦ mac_string hw ]

unfoldable pub normalize_mac_address : Text → Result Text
normalize_mac_address s = elim (parse_mac s) [
  | none ↦ err Error.invalid_mac
  | some hw ↦ ok (mac_string hw)
]
