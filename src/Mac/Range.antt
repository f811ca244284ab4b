-- ===== src/Mac/Range.antt =====
-- checkRange and GetMacPoolSize of pkg/pool-manager/pool.go. checkRange accepts a range as soon as
-- one octet of the start is below that of the end, also behind an octet that is above it.
use kubemacpool.Prelude.{
  ℕ, ◌+◌, ◌<◌, ◌≤◌, ◌≡◌, [], ◌∷◌, arith, Result, ok, err, Error, sub_ℕ, inl, inr, ltb, Bool-cases,
  if◌then◌else◌,
}
use kubemacpool.Net.{HardwareAddr}
use kubemacpool.Net.RoundTrip.{IsMac}
use kubemacpool.Mac.{check_range, get_mac_pool_size}
use kubemacpool.Mac.Value.{value, six_octets, value-lt, convert_hw_addr_to_int64-mac}

below_or :
    (a b : ℕ) {rest : Result (Unit {0})}
    → (b ≤ a → rest ≡ ok tt)
    → (if ltb a b then ok tt else rest) ≡ ok tt
below_or a b h = elim (Bool-cases (ltb a b)) [
  | inl below ↦ rw below
  | inr above ↦ rw above (h (ground arith))
]

lt_octets :
    (a b c d e f a' b' c' d' e' f' : ℕ)
    → let s = a ∷ b ∷ c ∷ d ∷ e ∷ f ∷ [] in
      let t = a' ∷ b' ∷ c' ∷ d' ∷ e' ∷ f' ∷ [] in value s < value t → check_range s t ≡ ok tt
unfolding check_range
lt_octets a b c d e f a' b' c' d' e' f' h = below_or a a' λ h1. below_or b b' λ h2.
    below_or c c'
      λ h3. below_or d d' λ h4. below_or e e' λ h5. below_or f f' λ h6. absurd (omega arith)

-- A range whose start is below its end is accepted.
pub check_range_lt :
    (s t : HardwareAddr) → IsMac s → IsMac t → value s < value t → check_range s t ≡ ok tt
check_range_lt s t hs ht =
    six_octets (λ s. value s < value t → check_range s t ≡ ok tt)
      (λ a b c d e f.
        six_octets
          (λ t.
            value (a ∷ b ∷ c ∷ d ∷ e ∷ f ∷ []) < value t
            → check_range (a ∷ b ∷ c ∷ d ∷ e ∷ f ∷ []) t ≡ ok tt)
          (lt_octets a b c d e f) t ht.0)
      s hs.0

self_octets :
    (a b c d e f : ℕ)
    → let s = a ∷ b ∷ c ∷ d ∷ e ∷ f ∷ [] in check_range s s ≡ err Error.invalid_range
unfolding check_range
self_octets a b c d e f = ground arith

-- A range of a single address is refused.
pub check_range_self : (s : HardwareAddr) → IsMac s → check_range s s ≡ err Error.invalid_range
check_range_self s h = six_octets (λ s. check_range s s ≡ err Error.invalid_range) self_octets s h.0

-- For MAC-48 bounds that checkRange accepts, GetMacPoolSize is the last number minus the first plus
-- one, as an integer that need not be positive.
pub get_mac_pool_size-value :
    (s t : HardwareAddr)
    → IsMac s
    → IsMac t
    → check_range s t ≡ ok tt
    → get_mac_pool_size s t ≡ ok (sub_ℕ (value t + 1) (value s))
unfolding get_mac_pool_size
get_mac_pool_size-value s t hs ht h =
    rw (h, convert_hw_addr_to_int64-mac s hs, convert_hw_addr_to_int64-mac t ht)
      (ground (arith, value-lt s hs, value-lt t ht))
