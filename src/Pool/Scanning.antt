-- ===== src/Pool/Scanning.antt =====
-- The inner loop of getFreeMac (pkg/pool-manager/pool.go): it finds the first free address from the
-- current one on, or shows that the rest of the range is taken.
use kubemacpool.Prelude.{
  ℕ, zero, suc, ◌+◌, ◌%◌, ◌^◌, ◌<◌, ◌≤◌, ◌≡◌, ◌≢◌, inl, inr, sym, ap, ◌∙◌, true, false, not,
  text_eq, text_eq_iff, text_eq_refl, arith, Bool-cases, Result, ok, err, some_inj, ◌==◌, if_split,
}
use kubemacpool.Net.{HardwareAddr, mac_string, parse_mac}
use kubemacpool.Net.RoundTrip.{IsMac, parse_mac-mac_string}
use kubemacpool.Mac.{get_next_mac}
use kubemacpool.Mac.Value.{value, value-lt, value_inj}
use kubemacpool.Mac.Next.{Denotes, get_next_mac-Denotes}
use kubemacpool.MacMap.{MacMap}
use kubemacpool.Pool.{is_allocated, Scan, free, wrapped, broken, unfinished, scan}

pub mac_string_inj : (m n : HardwareAddr) → IsMac m → IsMac n → mac_string m ≡ mac_string n → m ≡ n
mac_string_inj m n hm hn e = some_inj (
    sym (parse_mac-mac_string m (inl hm.0) hm.1)
    ∙ ap parse_mac e
    ∙ parse_mac-mac_string n (inl hn.0) hn.1)

-- The strings of two addresses agree exactly when their numbers do.
pub text_eq-value :
    (m n : HardwareAddr)
    → IsMac m
    → IsMac n
    → text_eq (mac_string m) (mac_string n) ≡ (value m == value n)
text_eq-value m n hm hn = elim (Bool-cases (text_eq (mac_string m) (mac_string n))) [
  | inl same ↦
      let e = mac_string_inj m n hm hn ((text_eq_iff _ _).0 same) in
      rw same (ground (arith, ap value e))
  | inr differ ↦
      let ne : value m ≢ value n =
        λ e. cc (differ, text_eq_refl (mac_string n), value_inj m n hm hn e) in
      rw differ (ground arith)
]

-- Every address of the interval is a key of the map.
abbrev pub IsFull : MacMap → ℕ → ℕ → Type 0
IsFull m lo hi =
    (n : HardwareAddr) → IsMac n → lo ≤ value n → value n ≤ hi → is_allocated m n ≡ true

abbrev pub Scanned : MacMap → HardwareAddr → HardwareAddr → Scan → Type 0
Scanned m range_end current (free mac) =
    IsMac mac
    × (value current ≤ value mac)
    × (value mac ≤ value range_end)
    × (is_allocated m mac ≡ false)
Scanned m range_end current (wrapped mac) =
    (mac ≡ range_end) × IsFull m (value current) (value range_end)
Scanned m range_end current (broken e) = ⊥
Scanned m range_end current unfinished = ⊥

module _ (m : MacMap) (range_end : HardwareAddr) (he : IsMac range_end) where
  -- What the rest of the scan finds is what the whole scan finds.
  Scanned-next :
      (current next : HardwareAddr) (r : Scan)
      → IsMac current
      → value next ≡ value current + 1
      → is_allocated m current ≡ true
      → Scanned m range_end next r
      → Scanned m range_end current r
  Scanned-next current next (free mac) hc v taken (good, lo, hi, unused) =
      (good, omega arith, hi, unused)
  Scanned-next current next (wrapped mac) hc v taken (last, full) = (
    last,
    λ n hn lo hi. elim (Bool-cases (value current == value n)) [
      | inl same ↦ rw (← value_inj current n hc hn (ground arith)) taken
      | inr above ↦ full n hn (ground arith) hi
    ],
  )
  Scanned-next current next (broken e) hc v taken h = h
  Scanned-next current next unfinished hc v taken h = h

  module _ (fuel : ℕ) (current : HardwareAddr) (hc : IsMac current) where
    scan_rest : Result HardwareAddr → Scan
    scan_rest r = elim r [ ok next ↦ scan fuel m range_end next | err e ↦ broken e ]

    Scanned-rest :
        (r : Result HardwareAddr)
        → Denotes ((value current + 1) % 2 ^ 48) r
        → value current < value range_end
        → is_allocated m current ≡ true
        → ((next : HardwareAddr)
            → IsMac next
            → value next ≡ value current + 1
            → Scanned m range_end next (scan fuel m range_end next))
        → Scanned m range_end current (scan_rest r)
    unfolding scan_rest
    Scanned-rest (err e) d lt taken ih = absurd d
    Scanned-rest (ok next) (hn, v) lt taken ih =
        let step : value next ≡ value current + 1 = omega (arith, value-lt range_end he) in
        Scanned-next current next (scan fuel m range_end next) hc step taken (ih next hn step)

  -- With fuel for the rest of the range, the scan stops at the first free address, or has seen
  -- that all the rest is taken.
  pub scan-Scanned :
      (fuel : ℕ) (current : HardwareAddr)
      → IsMac current
      → value current ≤ value range_end
      → value range_end < fuel + value current
      → Scanned m range_end current (scan fuel m range_end current)
  unfolding scan scan_rest
  scan-Scanned zero current hc high enough = absurd (omega arith)
  scan-Scanned (suc fuel) current hc high enough =
      if_split (Scanned m range_end current) (not (is_allocated m current))
        (λ unused. (hc, omega arith, high, ground arith))
        (λ taken.
          if_split (Scanned m range_end current)
            (text_eq (mac_string current) (mac_string range_end))
            (λ last.
              let e = mac_string_inj current range_end hc he ((text_eq_iff _ _).0 last) in
              (
                e,
                λ n hn lo hi.
                    let ev = ap value e in
                    rw (← value_inj current n hc hn (omega arith)) (ground arith),
              ))
            (λ more.
              Scanned-rest fuel current hc (get_next_mac current) (get_next_mac-Denotes current hc)
                (below more) (ground arith)
                (λ next hn v. scan-Scanned fuel next hn (beyond next more v) (omega arith))))
    where
      below :
          text_eq (mac_string current) (mac_string range_end) ≡ false
          → value current < value range_end
      below more = ground (arith, text_eq-value current range_end hc he)

      beyond :
          (next : HardwareAddr)
          → text_eq (mac_string current) (mac_string range_end) ≡ false
          → value next ≡ value current + 1
          → value next ≤ value range_end
      beyond next more v = omega (arith, below more)
