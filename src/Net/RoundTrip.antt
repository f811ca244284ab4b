-- ===== src/Net/RoundTrip.antt =====
-- Parsing inverts printing, so keys are canonical (pkg/pool-manager/mackey.go).
use kubemacpool.Prelude.{
  ℕ, ◌+◌, ◌*◌, ◌/◌, ◌%◌, ◌<◌, ◌≡◌, ◌↔◌, refl, ap, sym, ◌∙◌, ◌⊎◌, inl, inr, Option, none, some, true,
  [], ◌∷◌, Text, length, All, arith, Option-cases, if_intro, some_inj,
}
use kubemacpool.Net.{
  HardwareAddr, hex_digit, hex_val, mac_string, octet, cons_octet, parse_pairs, parse_quads,
  known_length, has_char, parse_mac, new_mac_key,
}

-- Every element is an octet.
abbrev pub IsBytes : HardwareAddr → Type 0
IsBytes = All (λ b. b < 256)

-- A MAC-48 address.
abbrev pub IsMac : HardwareAddr → Type 0
IsMac m = (length m ≡ 6) × IsBytes m

-- One of the lengths that `ParseMAC` returns.
abbrev pub IsHwLength : ℕ → Type 0
IsHwLength n = (n ≡ 6) ⊎ (n ≡ 8) ⊎ (n ≡ 20)

pub hex_val-hex_digit : (d : ℕ) → d < 16 → hex_val (hex_digit d) ≡ some d
unfolding hex_val hex_digit
hex_val-hex_digit d h = ground arith

pub hex_pair : (b : ℕ) → b < 256 → octet (hex_digit (b / 16)) (hex_digit (b % 16)) ≡ some b
unfolding octet
hex_pair b h = ground (arith, hex_val-hex_digit (b / 16), hex_val-hex_digit (b % 16))

hex_val-lt : (c x : ℕ) → hex_val c ≡ some x → x < 16
unfolding hex_val
hex_val-lt c x h = ground arith

octet-lt : (h l b : ℕ) → octet h l ≡ some b → b < 256
unfolding octet
octet-lt h l b e = go (hex_val h) (hex_val l) refl refl e
  where
    go :
        (p q : Option ℕ)
        → hex_val h ≡ p
        → hex_val l ≡ q
        → elim p [ none ↦ none | some x ↦ elim q [ none ↦ none | some y ↦ some (x * 16 + y) ] ]
          ≡ some b
        → b < 256
    go none q ep eq r = cc
    go (some x) none ep eq r = cc
    go (some x) (some y) ep eq r = ground (arith, hex_val-lt h x, hex_val-lt l y)

parse_pairs-mac_string :
    (b : ℕ) (bs : HardwareAddr)
    → IsBytes (b ∷ bs)
    → parse_pairs b':' (mac_string (b ∷ bs)) ≡ some (b ∷ bs)
unfolding parse_pairs mac_string cons_octet
parse_pairs-mac_string b [] h = rw (hex_pair b h.0, cons_octet)
parse_pairs-mac_string b (c ∷ cs) h = ground (arith, hex_pair b, parse_pairs-mac_string c cs h.1)

length-mac_string : (b : ℕ) (bs : HardwareAddr) → length (mac_string (b ∷ bs)) ≡ 3 * length bs + 2
unfolding mac_string
length-mac_string b [] = refl
length-mac_string b (c ∷ cs) = omega (arith, length-mac_string c cs)

second_colon : (b c : ℕ) (cs : HardwareAddr) → has_char (mac_string (b ∷ c ∷ cs)) 2 b':' ≡ true
unfolding mac_string has_char
second_colon b c cs = refl

-- Parsing the string of an address of a known length gives the address back.
pub parse_mac-mac_string :
    (m : HardwareAddr) → IsHwLength (length m) → IsBytes m → parse_mac (mac_string m) ≡ some m
unfolding parse_mac
parse_mac-mac_string [] n h = ground arith
parse_mac-mac_string (b ∷ []) n h = ground arith
parse_mac-mac_string (b ∷ c ∷ cs) n h =
    ground (
      arith,
      parse_pairs-mac_string b (c ∷ cs) h,
      length-mac_string b (c ∷ cs),
      second_colon b c cs,
    )

-- What `ParseMAC` may return.
abbrev pub IsHw : HardwareAddr → Type 0
IsHw m = IsHwLength (length m) × IsBytes m

abbrev Parsed : Option HardwareAddr → Type 0
Parsed none = Unit
Parsed (some m) = IsBytes m

cons_octet-Parsed :
    (o : Option ℕ) (rest : Option HardwareAddr)
    → ((b : ℕ) → o ≡ some b → b < 256)
    → Parsed rest
    → Parsed (cons_octet o rest)
unfolding cons_octet
cons_octet-Parsed none rest h r = tt
cons_octet-Parsed (some b) none h r = tt
cons_octet-Parsed (some b) (some bs) h r = (h b refl, r)

parse_pairs-Parsed : (sep : ℕ) (s : Text) → Parsed (parse_pairs sep s)
unfolding parse_pairs
parse_pairs-Parsed sep [] = tt
parse_pairs-Parsed sep (h ∷ []) = tt
parse_pairs-Parsed sep (h ∷ l ∷ []) = cons_octet-Parsed (octet h l) (some []) (octet-lt h l) tt
parse_pairs-Parsed sep (h ∷ l ∷ e ∷ r) =
    let step =
      cons_octet-Parsed (octet h l) (parse_pairs sep r) (octet-lt h l) (parse_pairs-Parsed sep r) in
    ground (arith, step)

parse_quads-Parsed : (s : Text) → Parsed (parse_quads s)
unfolding parse_quads
parse_quads-Parsed (a ∷ b ∷ c ∷ d ∷ []) =
    cons_octet-Parsed (octet a b) _ (octet-lt a b)
      (cons_octet-Parsed (octet c d) (some []) (octet-lt c d) tt)
parse_quads-Parsed (a ∷ b ∷ c ∷ d ∷ e ∷ r) =
    let step =
      cons_octet-Parsed (octet a b) _ (octet-lt a b)
        (cons_octet-Parsed (octet c d) (parse_quads r) (octet-lt c d) (parse_quads-Parsed r)) in
    ground (arith, step)
parse_quads-Parsed _ = tt

known_length-IsHw :
    (o : Option HardwareAddr) (m : HardwareAddr) → Parsed o → known_length o ≡ some m → IsHw m
unfolding known_length
known_length-IsHw none m p e = cc
known_length-IsHw (some n) m p e = ground arith

-- Whatever parses has a known length and octets below 256.
pub parse_mac-IsHw : (s : Text) (m : HardwareAddr) → parse_mac s ≡ some m → IsHw m
unfolding parse_mac
parse_mac-IsHw s m =
    let nothing : P none = λ e. cc in
    if_intro P _ nothing (
      if_intro P _ (known_length-IsHw _ m (parse_pairs-Parsed b':' s)) (
        if_intro P _ (known_length-IsHw _ m (parse_pairs-Parsed b'-' s))
          (if_intro P _ (known_length-IsHw _ m (parse_quads-Parsed s)) nothing)))
  where
    P : Option HardwareAddr → Type 0
    P o = o ≡ some m → IsHw m

-- The key of a printed address is the printed address.
pub new_mac_key-mac_string : (m : HardwareAddr) → IsHw m → new_mac_key (mac_string m) ≡ mac_string m
unfolding new_mac_key
new_mac_key-mac_string m h = ground (arith, parse_mac-mac_string m h.0 h.1)

empty_key : new_mac_key [] ≡ []
unfolding new_mac_key parse_mac
empty_key = refl

-- The key of the text of a key is that key.
pub new_mac_key_idem : (s : Text) → new_mac_key (new_mac_key s) ≡ new_mac_key s
unfolding new_mac_key
new_mac_key_idem s = elim (Option-cases (parse_mac s)) [
  | inl e ↦ rw (e, new_mac_key) empty_key
  | inr (m, e) ↦ rw (e, new_mac_key) (new_mac_key-mac_string m (parse_mac-IsHw s m e))
]

-- Two texts that parse have the same key exactly when they parse to the same address.
pub new_mac_key-eq_iff :
    (s t : Text) (m n : HardwareAddr)
    → parse_mac s ≡ some m
    → parse_mac t ≡ some n
    → (new_mac_key s ≡ new_mac_key t) ↔ (m ≡ n)
unfolding new_mac_key
new_mac_key-eq_iff s t m n hm hn =
    let hwm = parse_mac-IsHw s m hm in
    let hwn = parse_mac-IsHw t n hn in
    let pm = parse_mac-mac_string m hwm.0 hwm.1 in
    let pn = parse_mac-mac_string n hwn.0 hwn.1 in
    rw (hm, hn, new_mac_key) (λ e. some_inj (sym pm ∙ ap parse_mac e ∙ pn), λ e. ap mac_string e)
