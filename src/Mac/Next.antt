-- ===== src/Mac/Next.antt =====
-- getNextMac of pkg/pool-manager/pool.go: addition of one with carry, modulo 2^48.
use kubemacpool.Prelude.{ℕ, ◌+◌, ◌%◌, ◌^◌, ◌≡◌, [], ◌∷◌, arith, Result, ok, err}
use kubemacpool.Net.{HardwareAddr}
use kubemacpool.Net.RoundTrip.{IsMac}
use kubemacpool.Mac.{get_next_mac}
use kubemacpool.Mac.Value.{value, six_octets}

-- The result is a MAC-48 address that denotes the number `n`.
abbrev pub Denotes : ℕ → Result HardwareAddr → Type 0
Denotes n (ok m) = IsMac m × (value m ≡ n)
Denotes n (err e) = ⊥

next_octets :
    (a b c d e f : ℕ)
    → let m = a ∷ b ∷ c ∷ d ∷ e ∷ f ∷ [] in
      IsMac m → Denotes ((value m + 1) % 2 ^ 48) (get_next_mac m)
unfolding get_next_mac
next_octets a b c d e f h = ground arith

-- getNextMac of a MAC-48 address is the MAC-48 address of the next number modulo 2^48; it never
-- panics.
pub get_next_mac-Denotes :
    (m : HardwareAddr) → IsMac m → Denotes ((value m + 1) % 2 ^ 48) (get_next_mac m)
get_next_mac-Denotes m h =
    six_octets (λ m. IsMac m → Denotes ((value m + 1) % 2 ^ 48) (get_next_mac m)) next_octets m h.0
      h
