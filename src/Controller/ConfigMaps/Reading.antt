-- ===== src/Controller/ConfigMaps/Reading.antt =====
-- What extractRangesFromConfigMap of pkg/controller/configmap reads.
use kubemacpool.Prelude.{
  lookup, none, some, ap, ◌≡◌, refl, Option, Text, codes, GoMap, Result, ok, err, Error,
}
use kubemacpool.Net.{HardwareAddr, parse_mac}
use kubemacpool.Controller.ConfigMaps.{
  RangeConfig, extract_ranges_from_config_map, new_range_config,
}

-- The values of the config map say the range, and what they say parses.
abbrev pub SaysRange : GoMap Text → HardwareAddr → HardwareAddr → Type 0
SaysRange values start end =
    (a : Text) × (b : Text) × (lookup (codes "RANGE_START") values ≡ some a)
    × (lookup (codes "RANGE_END") values ≡ some b)
    × (parse_mac a ≡ some start)
    × (parse_mac b ≡ some end)

-- extractRangesFromConfigMap fails exactly where the config map says no range.
abbrev pub Read : GoMap Text → Result RangeConfig → Type 0
Read values (ok config) = SaysRange values config.start config.end
Read values (err e) = (start end : HardwareAddr) → ¬ SaysRange values start end

pub extract-Read : (values : GoMap Text) → Read values (extract_ranges_from_config_map values)
unfolding extract_ranges_from_config_map new_range_config
extract-Read values = starts (lookup (codes "RANGE_START") values) refl
  where
    parsed_both :
        (a b : Text) (start : HardwareAddr) (o : Option HardwareAddr)
        → lookup (codes "RANGE_START") values ≡ some a
        → lookup (codes "RANGE_END") values ≡ some b
        → parse_mac a ≡ some start
        → parse_mac b ≡ o
        → Read values (elim o as (λ _. Result RangeConfig) [
          | none ↦ err Error.invalid_mac
          | some end ↦ ok (new_range_config start end)
        ])
    parsed_both a b start none la lb pa pb = λ s t (a', b', la', lb', pa', pb'). cc
    parsed_both a b start (some end) la lb pa pb = (a, b, la, lb, pa, pb)

    parsed :
        (a b : Text) (o : Option HardwareAddr)
        → lookup (codes "RANGE_START") values ≡ some a
        → lookup (codes "RANGE_END") values ≡ some b
        → parse_mac a ≡ o
        → Read values (elim o as (λ _. Result RangeConfig) [
          | none ↦ err Error.invalid_mac
          | some start ↦ elim (parse_mac b) [
            | none ↦ err Error.invalid_mac
            | some end ↦ ok (new_range_config start end)
          ]
        ])
    parsed a b none la lb pa = λ s t (a', b', la', lb', pa', pb'). cc
    parsed a b (some start) la lb pa = parsed_both a b start (parse_mac b) la lb pa refl

    ends :
        (a : Text) (o : Option Text)
        → lookup (codes "RANGE_START") values ≡ some a
        → lookup (codes "RANGE_END") values ≡ o
        → Read values (elim o as (λ _. Result RangeConfig) [
          | none ↦ err Error.range_key_missing
          | some end_str ↦ elim (parse_mac a) [
            | none ↦ err Error.invalid_mac
            | some start ↦ elim (parse_mac end_str) [
              | none ↦ err Error.invalid_mac
              | some end ↦ ok (new_range_config start end)
            ]
          ]
        ])
    ends a none la lb = λ s t (a', b', la', lb', pa', pb'). cc
    ends a (some b) la lb = parsed a b (parse_mac a) la lb refl

    starts :
        (o : Option Text)
        → lookup (codes "RANGE_START") values ≡ o
        → Read values (elim o as (λ _. Result RangeConfig) [
          | none ↦ err Error.range_key_missing
          | some start_str ↦ elim (lookup (codes "RANGE_END") values) [
            | none ↦ err Error.range_key_missing
            | some end_str ↦ elim (parse_mac start_str) [
              | none ↦ err Error.invalid_mac
              | some start ↦ elim (parse_mac end_str) [
                | none ↦ err Error.invalid_mac
                | some end ↦ ok (new_range_config start end)
              ]
            ]
          ]
        ])
    starts none la = λ s t (a', b', la', lb', pa', pb'). cc
    starts (some a) la = ends a (lookup (codes "RANGE_END") values) la refl

-- A config map says one range.
pub only :
    (values : GoMap Text) (s t s' t' : HardwareAddr)
    → SaysRange values s t
    → SaysRange values s' t'
    → (s ≡ s') × (t ≡ t')
only values s t s' t' (a, b, la, lb, pa, pb) (a', b', la', lb', pa', pb') =
    let same_a : a ≡ a' = cc in
    let same_b : b ≡ b' = cc in
    (cc (pa, pa', ap parse_mac same_a), cc (pb, pb', ap parse_mac same_b))
