-- ===== src/Mac/Random.antt =====
-- generateRandomMac of pkg/pool-manager/pool.go: it draws an address of the range.
use kubemacpool.Prelude.{
  ℕ, suc, ◌+◌, ◌^◌, ◌%◌, ◌<◌, ◌≤◌, ◌≡◌, ◌≢◌, inl, inr, refl, ap, drop, arith, Option, some, ok, ℤ,
  sub_ℕ, pos, negsuc, ◌>>=◌, Result-cases, sym, ◌∙◌, >>=-eq-ok, ok_inj, ◌-◌, zero,
}
use kubemacpool.Net.{HardwareAddr}
use kubemacpool.Net.RoundTrip.{IsMac}
use kubemacpool.Mac.{check_range, get_mac_pool_size, generate_random_mac, random_offset, put_uint64}
use kubemacpool.Mac.Value.{value, value-lt, value_inj, convert_hw_addr_to_int64-mac}
use kubemacpool.Mac.Range.{check_range_lt, check_range_self, get_mac_pool_size-value}

-- What crypto/rand documents of `Int`: a number below the bound.
abbrev pub IsRandom : (ℕ → Option ℕ) → Type 0
IsRandom random = (n r : ℕ) → random n ≡ some r → r < n

-- The six low octets of a number below 2^48 denote it.
low_octets :
    (x : ℕ)
    → x < 2 ^ 48
    → IsMac (drop 2 (put_uint64 (x % 2 ^ 64))) × (value (drop 2 (put_uint64 (x % 2 ^ 64))) ≡ x)
unfolding put_uint64
low_octets x h = (omega arith, omega arith)

-- An offset that is drawn lies below the pool size.
random_offset-lt :
    (random : ℕ → Option ℕ) (a b r : ℕ)
    → IsRandom random
    → random_offset random (sub_ℕ a b) ≡ ok r
    → b + r < a
unfolding random_offset
random_offset-lt random a b r fair h = go (sub_ℕ a b) refl h
  where
    go : (z : ℤ) → sub_ℕ a b ≡ z → random_offset random z ≡ ok r → b + r < a
    go (pos zero) e h = cc
    go (pos (suc n)) e h = ground (arith, fair (suc n) r)
    go (negsuc n) e h = cc

random_offset-pos :
    (random : ℕ → Option ℕ) (n r : ℕ)
    → 0 < n
    → random n ≡ some r
    → random_offset random (pos n) ≡ ok r
unfolding random_offset
random_offset-pos random zero r h answer = absurd (omega arith)
random_offset-pos random (suc n) r h answer = rw (answer, random_offset)

random_offset_answer :
    (random : ℕ → Option ℕ) (a b r : ℕ)
    → b < a
    → random (a - b) ≡ some r
    → random_offset random (sub_ℕ a b) ≡ ok r
random_offset_answer random a b r h answer =
    let size : sub_ℕ a b ≡ pos (a - b) = ground arith in
    rw size (random_offset-pos random (a - b) r (omega arith) answer)

module _ (random : ℕ → Option ℕ) (s t : HardwareAddr) (hs : IsMac s) (ht : IsMac t) where
  drawn_lem :
      check_range s t ≡ ok tt
      → generate_random_mac random s t ≡ (
          random_offset random (sub_ℕ (value t + 1) (value s)) >>= λ r.
          ok (drop 2 (put_uint64 ((value s + r) % 2 ^ 64))))
  unfolding generate_random_mac
  drawn_lem accepted =
      rw (get_mac_pool_size-value s t hs ht accepted, convert_hw_addr_to_int64-mac s hs)

  ends_differ : check_range s t ≡ ok tt → value s ≢ value t
  ends_differ accepted e =
      let refused = check_range_self t ht in cc (rw (value_inj s t hs ht e) at accepted)

  drawn_bounds :
      (m : HardwareAddr) (r : ℕ)
      → IsRandom random
      → check_range s t ≡ ok tt
      → random_offset random (sub_ℕ (value t + 1) (value s)) ≡ ok r
      → drop 2 (put_uint64 ((value s + r) % 2 ^ 64)) ≡ m
      → IsMac m × (value s ≤ value m) × (value m ≤ value t) × (value s < value t)
  drawn_bounds m r fair accepted offset e =
      let below = random_offset-lt random (value t + 1) (value s) r fair offset in
      let (good, low) = low_octets (value s + r) (omega (arith, value-lt t ht)) in
      let ne = ends_differ accepted in rw (← e) (good, omega arith, omega arith, omega arith)

  -- For MAC-48 bounds and a source of randomness that answers below its argument, an address that
  -- generateRandomMac returns lies between the bounds, and the start is below the end.
  pub generate_random_mac_bounds :
      (m : HardwareAddr)
      → IsRandom random
      → generate_random_mac random s t ≡ ok m
      → IsMac m × (value s ≤ value m) × (value m ≤ value t) × (value s < value t)
  unfolding generate_random_mac get_mac_pool_size
  generate_random_mac_bounds m fair h = elim (Result-cases (check_range s t)) [
    | inr (e, refused) ↦ cc (rw refused at h)
    | inl (_, accepted) ↦
        let (r, offset, e) = >>=-eq-ok _ _ (sym (drawn_lem accepted) ∙ h) in
        drawn_bounds m r fair accepted offset (ok_inj e)
  ]

  -- For MAC-48 bounds with the start below the end, generateRandomMac returns an address whenever
  -- the source of randomness answers.
  pub generate_random_mac_total :
      (r : ℕ)
      → value s < value t
      → random (value t + 1 - value s) ≡ some r
      → (m : HardwareAddr) × (generate_random_mac random s t ≡ ok m)
  generate_random_mac_total r h answer = (
    drop 2 (put_uint64 ((value s + r) % 2 ^ 64)),
    drawn_lem (check_range_lt s t hs ht h)
        ∙ ap (λ o. o >>= λ r. ok (drop 2 (put_uint64 ((value s + r) % 2 ^ 64))))
            (random_offset_answer random (value t + 1) (value s) r (omega arith) answer),
  )
