-- ===== src/Pool/Ranges.antt =====
-- UpdateRanges and NewPoolManager of pkg/pool-manager/pool.go over MAC-48 addresses.
use kubemacpool.Prelude.{
  ℕ, ◌+◌, ◌-◌, ◌/◌, ◌%◌, ◌^◌, ◌<◌, ◌≡◌, refl, sym, ap, ◌∙◌, subst, Bool, Option, some, [], ◌∷◌,
  Text, arith, Result, ok, err, ok_inj, >>=-eq-ok, ◌>>◌, ◌↔◌,
}
use kubemacpool.Net.{HardwareAddr}
use kubemacpool.Net.RoundTrip.{IsMac}
use kubemacpool.Mac.{check_range, check_cast, generate_random_mac}
use kubemacpool.Mac.Value.{value, six_octets}
use kubemacpool.Mac.Range.{check_range_lt}
use kubemacpool.Mac.Random.{IsRandom, generate_random_mac_bounds, generate_random_mac_total}
use kubemacpool.Collision.{Gauge}
use kubemacpool.Pool.{PoolManager, update_ranges, new_pool_manager}
use kubemacpool.Pool.FreeMac.{IsRanged}

-- The multicast bit, the lowest of the first octet, is off.
abbrev pub IsUnicast : HardwareAddr → Type 0
IsUnicast m = value m / 2 ^ 40 % 2 ≡ 0

cast_octets :
    (a b c d e f : ℕ)
    → let m = a ∷ b ∷ c ∷ d ∷ e ∷ f ∷ [] in IsMac m → (check_cast m ≡ ok tt) ↔ IsUnicast m
unfolding check_cast
cast_octets a b c d e f h =
    let first : value (a ∷ b ∷ c ∷ d ∷ e ∷ f ∷ []) / 2 ^ 40 ≡ a = omega arith in
    rw first (ground arith, ground arith)

-- checkCast accepts a MAC-48 address exactly when its multicast bit is off.
pub check_cast_iff : (m : HardwareAddr) → IsMac m → (check_cast m ≡ ok tt) ↔ IsUnicast m
check_cast_iff m h =
    six_octets (λ m. IsMac m → (check_cast m ≡ ok tt) ↔ IsUnicast m) cast_octets m h.0 h

-- A refused range changes nothing. An accepted one is a range of more than one address between
-- unicast ends, in which the current address lies; nothing but the range has changed.
abbrev pub Updated :
    PoolManager → HardwareAddr → HardwareAddr → PoolManager × Result (Unit {0}) → Type 0
Updated p s t (p', err e) = p' ≡ p
Updated p s t (p', ok _) =
    IsRanged p'
    × (p' ≡ record p { range_start = s; range_end = t; current_mac = p'.current_mac })
    × (value s < value t)
    × IsUnicast s
    × IsUnicast t

module _ (random : ℕ → Option ℕ) (s t : HardwareAddr) (hs : IsMac s) (ht : IsMac t)
    (p : PoolManager) where
  checks_lem : (check_range s t >> check_cast s >> check_cast t) ≡ ok tt → IsUnicast s × IsUnicast t
  checks_lem h =
      let (_, before, last) = >>=-eq-ok (check_range s t >> check_cast s) (λ _. check_cast t) h in
      let (_, _, first) = >>=-eq-ok (check_range s t) (λ _. check_cast s) before in
      ((check_cast_iff s hs).0 first, (check_cast_iff t ht).0 last)

  after_checks : Result HardwareAddr → PoolManager × Result (Unit {0})
  after_checks r =
      let p' = record p { range_start = s; range_end = t } in
      elim r [
        | err e ↦ (record p' { range_start = p.range_start; range_end = p.range_end }, err e)
        | ok mac ↦ (record p' { current_mac = mac }, ok tt)
      ]

  drawn-Updated :
      IsRandom random
      → IsUnicast s
      → IsUnicast t
      → (r : Result HardwareAddr) → generate_random_mac random s t ≡ r
      → Updated p s t (after_checks r)
  unfolding after_checks
  drawn-Updated fair us ut (err e) g = refl
  drawn-Updated fair us ut (ok mac) g =
      let (hm, lo, hi, lt) = generate_random_mac_bounds random s t hs ht mac fair g in
      (record { start_mac = hs; end_mac = ht; current = hm; low = lo; high = hi }, refl, lt, us, ut)

  checked-Updated :
      IsRandom random
      → (r : Result (Unit {0})) → (check_range s t >> check_cast s >> check_cast t) ≡ r
      → Updated p s t
          (elim r [ err e ↦ (p, err e) | ok _ ↦ after_checks (generate_random_mac random s t) ])
  checked-Updated fair (err e) g = refl
  checked-Updated fair (ok u) g =
      let (us, ut) = checks_lem g in drawn-Updated fair us ut (generate_random_mac random s t) refl

  -- For MAC-48 bounds and a source of randomness that answers below its argument, UpdateRanges
  -- either fails and leaves the pool as it was, or sets a range of more than one address between
  -- unicast bounds with the current address inside it, and changes nothing else.
  pub update_ranges-Updated : IsRandom random → Updated p s t (update_ranges random s t p)
  unfolding update_ranges after_checks
  update_ranges-Updated fair =
      checked-Updated fair (check_range s t >> check_cast s >> check_cast t) refl

  -- UpdateRanges accepts MAC-48 unicast bounds with the start below the end whenever the source of
  -- randomness answers.
  pub update_ranges_accepts :
      (r : ℕ)
      → value s < value t
      → IsUnicast s
      → IsUnicast t
      → random (value t + 1 - value s) ≡ some r
      → (update_ranges random s t p).1 ≡ ok tt
  unfolding update_ranges
  update_ranges_accepts r lt us ut answer =
      let range_ok = check_range_lt s t hs ht lt in
      let start_ok = (check_cast_iff s hs).1 us in
      let end_ok = (check_cast_iff t ht).1 ut in
      let (m, drawn) = generate_random_mac_total random s t hs ht r lt answer in
      rw (range_ok, update_ranges, start_ok, end_ok, drawn)

built :
    (s t : HardwareAddr) (p q : PoolManager) (r : PoolManager × Result (Unit {0}))
    → Updated q s t r
    → elim r.1 [ err e ↦ err e | ok _ ↦ ok r.0 ] ≡ ok p
    → IsRanged p × (p.range_start ≡ s) × (p.range_end ≡ t)
built s t p q (p', err e) u h = cc
built s t p q (p', ok _) (ranged, kept, lt, us, ut) h =
    let e = ok_inj h in
    (
      subst IsRanged e ranged,
      sym (ap (λ p. p.range_start) e) ∙ ap (λ p. p.range_start) kept,
      sym (ap (λ p. p.range_end) e) ∙ ap (λ p. p.range_end) kept,
    )

-- For MAC-48 bounds and a source of randomness that answers below its argument, a pool that
-- NewPoolManager returns has the range of the call and its current address inside it.
pub new_pool_manager-IsRanged :
    (gauge : Gauge) (random : ℕ → Option ℕ) (s t : HardwareAddr) (namespace : Text)
    (kubevirt : Bool) (wait : ℕ)
    → IsRandom random
    → IsMac s
    → IsMac t
    → (p : PoolManager) → new_pool_manager gauge random s t namespace kubevirt wait ≡ ok p
    → IsRanged p × (p.range_start ≡ s) × (p.range_end ≡ t)
unfolding new_pool_manager
new_pool_manager-IsRanged gauge random s t namespace kubevirt wait fair hs ht p h =
    built s t p _ _ (update_ranges-Updated random s t hs ht _ fair) h
