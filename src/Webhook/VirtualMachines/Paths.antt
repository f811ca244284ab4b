-- ===== src/Webhook/VirtualMachines/Paths.antt =====
-- The paths of the patches of pkg/webhook/virtualmachine tell the interfaces apart.
use kubemacpool.Prelude.{
  ltb→lt, ltb, text_eq_ne, drop, ℕ, zero, suc, ◌+◌, ◌-◌, ◌*◌, ◌<◌, ◌≡◌, sym, ap, ◌∙◌, false, [],
  ◌∷◌, ◌++◌, Text, codes, text_eq, arith, if◌then◌else◌, ◌==◌, if_split,
}
use mathlib.Core.List.{append_assoc}
use Prim.Native.Nat.{◌/◌, ◌%◌}
use kubemacpool.Webhook.VirtualMachines.{decimal_loop, mac_address_path}

-- The number that digits in front of a slash stand for.
abbrev read : ℕ → Text → ℕ
read acc [] = acc
read acc (c ∷ cs) = let rest = read (10 * acc + (c - 48)) cs in if c == b'/' then acc else rest

read_digit :
    (acc d : ℕ) (rest : Text) → d < 10 → read acc ((48 + d) ∷ rest) ≡ read (10 * acc + d) rest
read_digit acc d rest small =
    if_split (λ n. n ≡ read (10 * acc + d) rest) ((48 + d) == b'/') (λ slash. absurd (ground arith))
      (λ digit. ap (λ n. read n rest) (omega arith))

read-decimal_loop :
    (fuel n : ℕ) (rest : Text) → n < fuel → read 0 (decimal_loop fuel n ++ rest) ≡ read n rest
unfolding decimal_loop
read-decimal_loop zero n rest h = absurd (omega arith)
read-decimal_loop (suc fuel) n rest h =
    if_split (λ t. read 0 (t ++ rest) ≡ read n rest) (ltb n 10) {x = (48 + n) ∷ []}
      (λ small. read_digit 0 n rest (ltb→lt n 10 small) ∙ ap (λ n. read n rest) (omega arith))
      (λ large.
        ap (read 0) (append_assoc (decimal_loop fuel (n / 10)) _ rest)
        ∙ (read-decimal_loop fuel (n / 10) _ (ground arith)
            ∙ (read_digit (n / 10) (n % 10) rest (omega arith)
                ∙ ap (λ n. read n rest) (omega arith))))

-- The index of an interface is read back from its path.
abbrev index_of : Text → ℕ
index_of path = read 0 (drop 46 path)

index_of-mac_address_path : (i : ℕ) → index_of (mac_address_path i) ≡ i
unfolding mac_address_path
index_of-mac_address_path i = read-decimal_loop (suc i) i (codes "/macAddress") (omega arith)

pub other_path : (i j : ℕ) → ¬ (j ≡ i) → text_eq (mac_address_path i) (mac_address_path j) ≡ false
other_path i j ne = text_eq_ne (mac_address_path i) (mac_address_path j) (λ e.
    ne (sym (index_of-mac_address_path j) ∙ (ap index_of (sym e) ∙ index_of-mac_address_path i)))
