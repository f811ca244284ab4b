-- ===== src/Pool/FreeMac.antt =====
-- getFreeMac of pkg/pool-manager/pool.go over a range of MAC-48 addresses.
use kubemacpool.Prelude.{
  ℕ, ◌+◌, ◌%◌, ◌^◌, ◌<◌, ◌≤◌, ◌≡◌, ◌≢◌, refl, sym, subst, false, [], ◌∷◌, text_eq, arith, Result,
  ok, err, Error, ok_inj, ◌==◌, if◌then◌else◌, if_split,
}
use kubemacpool.Net.{HardwareAddr, mac_string}
use kubemacpool.Net.RoundTrip.{IsMac}
use kubemacpool.Mac.{get_next_mac}
use kubemacpool.Mac.Value.{value, value-lt, six_octets}
use kubemacpool.Mac.Next.{Denotes, get_next_mac-Denotes}
use kubemacpool.Pool.{
  PoolManager, copy_bytes, is_allocated, Scan, free, wrapped, broken, unfinished, scan, hand_out,
  free_mac_pass, mac_space, get_free_mac,
}
use kubemacpool.Pool.Scanning.{text_eq-value, IsFull, Scanned, scan-Scanned}

-- The range is one of MAC-48 addresses, and the current address lies in it.
pub record IsRanged (p : PoolManager) : Type 0 where
  pub start_mac : IsMac p.range_start
  pub end_mac : IsMac p.range_end
  pub current : IsMac p.current_mac
  pub low : value p.range_start ≤ value p.current_mac
  pub high : value p.current_mac ≤ value p.range_end

copy_bytes_lem : (dst src : HardwareAddr) → IsMac dst → IsMac src → copy_bytes dst src ≡ src
unfolding copy_bytes
copy_bytes_lem dst src hd hs =
    six_octets (λ dst. copy_bytes dst src ≡ src)
      (λ a b c d e f.
        six_octets (λ src. copy_bytes (a ∷ b ∷ c ∷ d ∷ e ∷ f ∷ []) src ≡ src)
          (λ a' b' c' d' e' f'. refl) src hs.0)
      dst hd.0

-- The address behind `mac` in the range, which closes to a ring.
abbrev pub successor : PoolManager → HardwareAddr → ℕ
successor p mac = if value mac == value p.range_end then value p.range_start else value mac + 1

-- `mac` has been given out, and nothing but the current address has changed: it has moved on.
abbrev Handed : PoolManager → HardwareAddr → PoolManager × Result HardwareAddr → Type 0
Handed p mac (p', r) =
    (r ≡ ok mac)
    × (p' ≡ record p { current_mac = p'.current_mac })
    × IsMac p'.current_mac
    × (value p'.current_mac ≡ successor p mac)

module _ (p : PoolManager) (ranged : IsRanged p) (mac : HardwareAddr) (hm : IsMac mac)
    (high : value mac ≤ value p.range_end) where
  next-Handed :
      (r : Result HardwareAddr)
      → Denotes ((value mac + 1) % 2 ^ 48) r
      → value mac ≢ value p.range_end
      → Handed p mac
          (elim r [ ok next ↦ (record p { current_mac = next }, ok mac) | err e ↦ (p, err e) ])
  next-Handed (err e) d ne = absurd d
  next-Handed (ok next) d ne = ground (arith, value-lt p.range_end ranged.end_mac)

  hand_out-Handed : Handed p mac (hand_out mac p)
  unfolding hand_out
  hand_out-Handed =
      if_split (Handed p mac) (text_eq (mac_string mac) (mac_string p.range_end))
        (λ last.
          rw (copy_bytes_lem mac p.range_start hm ranged.start_mac)
            (ground (arith, text_eq-value mac p.range_end hm ranged.end_mac)))
        (λ more.
          next-Handed (get_next_mac mac) (get_next_mac-Denotes mac hm)
            (ground (arith, text_eq-value mac p.range_end hm ranged.end_mac)))

room_for : (m : HardwareAddr) → IsMac m → value m < mac_space
unfolding mac_space
room_for m h = value-lt m h

-- Either a free address of the range is given out and the current address moves on behind it, or
-- the whole range is taken and the pool reports it as full.
abbrev pub Freed : PoolManager → PoolManager × Result HardwareAddr → Type 0
Freed p (p', ok mac) =
    IsMac mac
    × (value p.range_start ≤ value mac)
    × (value mac ≤ value p.range_end)
    × (is_allocated p.mac_pool_map mac ≡ false)
    × (p' ≡ record p { current_mac = p'.current_mac })
    × IsRanged p'
    × (value p'.current_mac ≡ successor p mac)
Freed p (p', err e) =
    (e ≡ Error.range_full)
    × IsFull p.mac_pool_map (value p.range_start) (value p.range_end)
    × (p' ≡ record p { current_mac = p.range_start })

after_scan : PoolManager → ℕ → ℕ → Scan → PoolManager × Result HardwareAddr
after_scan p left fuel s = elim s [
  | free mac ↦ hand_out mac (record p { current_mac = mac })
  | wrapped mac ↦ free_mac_pass left fuel (record p { current_mac = copy_bytes mac p.range_start })
  | broken e ↦ (p, err e)
  | unfinished ↦ (p, err Error.out_of_fuel)
]

module _ (p : PoolManager) (ranged : IsRanged p) where
  -- The range invariant at another current address of the range.
  pub moved-IsRanged :
      (c : HardwareAddr)
      → IsMac c
      → value p.range_start ≤ value c
      → value c ≤ value p.range_end
      → IsRanged (record p { current_mac = c })
  moved-IsRanged c hc lo hi = record {
    start_mac = ranged.start_mac;
    end_mac = ranged.end_mac;
    current = hc;
    low = lo;
    high = hi;
  }

  -- Giving out a free address of the range.
  Handed-Freed :
      (mac : HardwareAddr) (r : PoolManager × Result HardwareAddr)
      → IsMac mac
      → value p.range_start ≤ value mac
      → value mac ≤ value p.range_end
      → is_allocated p.mac_pool_map mac ≡ false
      → Handed p mac r
      → Freed p r
  Handed-Freed mac (p', ok given) hm lo hi unused (same, kept, hc, v) =
      let still = moved-IsRanged p'.current_mac hc (ground arith) (ground arith) in
      rw (ok_inj same) (hm, lo, hi, unused, kept, subst IsRanged (sym kept) still, v)
  Handed-Freed mac (p', err e) hm lo hi unused (same, kept, hc, v) = cc

  back_to_start :
      (mac : HardwareAddr)
      → mac ≡ p.range_end
      → record p { current_mac = copy_bytes mac p.range_start }
        ≡ record p { current_mac = p.range_start }
  back_to_start mac last =
      rw (copy_bytes_lem mac p.range_start (subst IsMac (sym last) ranged.end_mac) ranged.start_mac)

  -- The last pass begins at the start of the range.
  last_pass :
      (fuel : ℕ) (s : Scan)
      → Scanned p.mac_pool_map p.range_end p.range_start s
      → Freed p (after_scan p 0 fuel s)
  unfolding after_scan free_mac_pass
  last_pass fuel (free mac) (hm, lo, hi, unused) =
      let here = record p { current_mac = mac } in
      Handed-Freed mac (hand_out mac here) hm lo hi unused
        (hand_out-Handed here (moved-IsRanged mac hm lo hi) mac hm hi)
  last_pass fuel (wrapped mac) (last, full) = (refl, full, back_to_start mac last)
  last_pass fuel (broken e) h = absurd h
  last_pass fuel unfinished h = absurd h

module _ (p : PoolManager) (ranged : IsRanged p) where
  first_pass :
      (fuel : ℕ) (s : Scan)
      → value p.range_end < fuel
      → Scanned p.mac_pool_map p.range_end p.current_mac s
      → Freed p (after_scan p 1 fuel s)
  unfolding after_scan free_mac_pass
  first_pass fuel (free mac) enough (hm, lo, hi, unused) =
      let lo' : value p.range_start ≤ value mac = omega (arith, ranged.low) in
      let here = record p { current_mac = mac } in
      Handed-Freed p ranged mac (hand_out mac here) hm lo' hi unused
        (hand_out-Handed here (moved-IsRanged p ranged mac hm lo' hi) mac hm hi)
  first_pass fuel (wrapped mac) enough (last, full) =
      let start =
        copy_bytes_lem mac p.range_start (subst IsMac (sym last) ranged.end_mac) ranged.start_mac in
      let q = record p { current_mac = p.range_start } in
      let whole : value p.range_start ≤ value p.range_end =
        omega (arith, ranged.low, ranged.high) in
      let rest =
        scan-Scanned p.mac_pool_map p.range_end ranged.end_mac fuel p.range_start ranged.start_mac
          whole (omega arith) in
      rw start (
        last_pass q (moved-IsRanged p ranged p.range_start ranged.start_mac (omega arith) whole)
          fuel (scan fuel p.mac_pool_map p.range_end p.range_start) rest)
  first_pass fuel (broken e) enough h = absurd h
  first_pass fuel unfinished enough h = absurd h

  -- For a pool whose range and current address are MAC-48 addresses with start ≤ current ≤ end,
  -- getFreeMac either gives out an address of the range that the map does not hold, and only moves
  -- the current address to the one behind it (the start behind the end), or reports a full range,
  -- and then every address of the range is in the map; it never panics and the fuel of the model
  -- always suffices.
  pub get_free_mac-Freed : Freed p (get_free_mac p)
  unfolding get_free_mac free_mac_pass after_scan
  get_free_mac-Freed =
      let room : value p.range_end < mac_space = room_for p.range_end ranged.end_mac in
      first_pass mac_space (scan mac_space p.mac_pool_map p.range_end p.current_mac) room (
        scan-Scanned p.mac_pool_map p.range_end ranged.end_mac mac_space p.current_mac
          ranged.current ranged.high (omega arith))
