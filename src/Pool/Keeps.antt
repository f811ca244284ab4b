-- ===== src/Pool/Keeps.antt =====
-- What every allocating operation of pkg/pool-manager keeps: the range invariant, the form of the
-- map, and the addresses of the instances that the operation does not act for.
use kubemacpool.Prelude.{
  keep_if, IsMap, insert-IsMap, any_of, ℕ, ◌≡◌, refl, sym, ap, ◌∙◌, Bool, true, Option, List, [],
  ◌∷◌, Text, text_eq, text_eq_iff, text_eq_ne, GoMap, insert, arith, Result, ok, err, Error, inl,
  inr, if_split, subst,
}
use kubemacpool.Net.{HardwareAddr, new_mac_key}
use kubemacpool.MacMap.{
  MacEntry, MacMap, belongs_to, create_or_update_entry, remove_instance_from_mac, set_transaction,
  reset_transaction, clear_mac_transaction_from_mac_entry,
  update_mac_transaction_timestamp_for_updated_macs,
}
use kubemacpool.MacMap.View.{
  holds, holds_any, is_of, entries_at, entries_of, nonempty, IsCompact, entries_at-insert,
  insert-IsCompact,
}
use kubemacpool.MacMap.Update.{
  holds-create_or_update_entry, entries_of-create, create_or_update_entry-IsCompact,
  create_or_update_entry-IsMap,
}
use kubemacpool.MacMap.Find.{map_first, clear_cases, stamp_cases}
use kubemacpool.MacMap.Remove.{
  any_of-map_first, nonempty-map_first, keep_if-map_first, entries_of-remove, remove-IsCompact,
  remove-IsMap,
}
use kubemacpool.Pool.{PoolManager, get_free_mac}
use kubemacpool.Pool.FreeMac.{IsRanged, Freed, get_free_mac-Freed, moved-IsRanged}
use native.Mathlib.Nat.{le_refl, le_trans}

-- Two maps that differ for the instances of `Mine` at most.
pub record KeepsMap (Mine : Text → Type 0) (m m' : MacMap) : Type 0 where
  -- Under no key does an entry of another instance change, its time included.
  pub others : (k n : Text) → ¬ Mine n → entries_of n k m' ≡ entries_of n k m
  pub compact : IsCompact m → IsCompact m'
  pub once : IsMap m → IsMap m'

-- All that held still holds.
abbrev pub Grows : MacMap → MacMap → Type 0
Grows m m' = (k n i : Text) → holds m k n i ≡ true → holds m' k n i ≡ true

pub record Keeps (Mine : Text → Type 0) (p p' : PoolManager) : Type 0 where
  pub ranged : IsRanged p'
  pub entries : KeepsMap Mine p.mac_pool_map p'.mac_pool_map
  -- Nothing but the current address and the map changes.
  pub others_same : p' ≡ record p { current_mac = p'.current_mac; mac_pool_map = p'.mac_pool_map }

module _ {Mine : Text → Type 0} where
  pub KeepsMap-refl : (m : MacMap) → KeepsMap Mine m m
  KeepsMap-refl m = record { others = λ k n not_mine. refl; compact = λ h. h; once = λ h. h }

  pub KeepsMap-trans : {a b c : MacMap} → KeepsMap Mine a b → KeepsMap Mine b c → KeepsMap Mine a c
  KeepsMap-trans f g = record {
    others = λ k n not_mine. g.others k n not_mine ∙ f.others k n not_mine;
    compact = λ h. g.compact (f.compact h);
    once = λ h. g.once (f.once h);
  }

  pub Keeps-refl : {p : PoolManager} → IsRanged p → Keeps Mine p p
  Keeps-refl {p} ranged = record {
    ranged = ranged;
    entries = KeepsMap-refl p.mac_pool_map;
    others_same = refl;
  }

  pub Keeps-trans : {p q r : PoolManager} → Keeps Mine p q → Keeps Mine q r → Keeps Mine p r
  Keeps-trans {p} {q} {r} f g = record {
    ranged = g.ranged;
    entries = KeepsMap-trans f.entries g.entries;
    others_same =
        g.others_same
        ∙ ap
            (λ (s : PoolManager). record s {
              current_mac = r.current_mac;
              mac_pool_map = r.mac_pool_map;
            })
            f.others_same;
  }

  -- Only the map changes.
  pub Keeps-map :
      {p : PoolManager} {m : MacMap}
      → IsRanged p
      → KeepsMap Mine p.mac_pool_map m
      → Keeps Mine p (record p { mac_pool_map = m })
  Keeps-map r keeps = record {
    ranged = record {
      start_mac = r.start_mac;
      end_mac = r.end_mac;
      current = r.current;
      low = r.low;
      high = r.high;
    };
    entries = keeps;
    others_same = refl;
  }

  pub create-KeepsMap :
      (mac n i : Text) (m : MacMap) → Mine n → KeepsMap Mine m (create_or_update_entry mac n i m)
  create-KeepsMap mac n i m mine = record {
    others = λ k n' not_mine.
        entries_of-create mac n i m k n' (text_eq_ne n n' (λ e. not_mine (subst Mine e mine)));
    compact = create_or_update_entry-IsCompact mac n i m;
    once = create_or_update_entry-IsMap mac n i m;
  }

  pub remove-KeepsMap :
      (mac n : Text) (m : MacMap) → Mine n → KeepsMap Mine m (remove_instance_from_mac mac n m)
  remove-KeepsMap mac n m mine = record {
    others = λ k n' not_mine. entries_of-remove mac n m k n' (λ e. not_mine (subst Mine e mine));
    compact = remove-IsCompact mac n m;
    once = remove-IsMap mac n m;
  }

pub create-Grows : (mac n i : Text) (m : MacMap) → Grows m (create_or_update_entry mac n i m)
create-Grows mac n i m k n' i' h = rw (holds-create_or_update_entry, h) (ground arith)

-- Changing the time of an entry changes nobody's hold.
holds-map_first :
    (k n : Text) (f : MacEntry → MacEntry) (m : MacMap) (j n' i' : Text)
    → ((e : MacEntry) → belongs_to n' i' (f e) ≡ belongs_to n' i' e)
    → holds (insert k (map_first n f (entries_at k m)) m) j n' i' ≡ holds m j n' i'
unfolding holds
holds-map_first k n f m j n' i' keeps = rw entries_at-insert (
    if_split (λ es. any_of (belongs_to n' i') es ≡ any_of (belongs_to n' i') (entries_at j m))
      (text_eq k j)
      (λ same.
        any_of-map_first n n' i' f (entries_at k m) keeps
        ∙ ap (λ k. any_of (belongs_to n' i') (entries_at k m)) ((text_eq_iff k j).0 same))
      (λ other. refl))

present_nonempty :
    (p : MacEntry → Bool) (es : List MacEntry) → any_of p es ≡ true → nonempty es ≡ true
unfolding nonempty
present_nonempty p [] h = cc
present_nonempty p (e ∷ es) h = refl

-- The maps agree on who holds what.
abbrev pub SameHolds : MacMap → MacMap → Type 0
SameHolds m m' = (k n i : Text) → holds m' k n i ≡ holds m k n i

-- A change of the first entry of an instance that keeps its names changes no entry of another one.
change-KeepsMap :
    {Mine : Text → Type 0} (k n : Text) (f : MacEntry → MacEntry) (m : MacMap)
    → Mine n
    → ((e : MacEntry) → (f e).instance_name ≡ e.instance_name)
    → holds_any m k n ≡ true
    → KeepsMap Mine m (insert k (map_first n f (entries_at k m)) m)
unfolding holds_any
change-KeepsMap {Mine} k n f m mine keeps present = record {
  others = λ j n' not_mine. rw entries_at-insert (
      if_split (λ es. keep_if (is_of n') es ≡ entries_of n' j m) (text_eq k j)
        (λ same.
          keep_if-map_first n n' f (entries_at k m) keeps (λ e. not_mine (subst Mine e mine))
          ∙ ap (λ k. entries_of n' k m) ((text_eq_iff k j).0 same))
        (λ other. refl));
  compact = λ h.
      insert-IsCompact k _ m
        (nonempty-map_first n f (entries_at k m)
          ∙ present_nonempty (is_of n) (entries_at k m) present)
        h;
  once = λ h. insert-IsMap k _ m h;
}

pub clear-KeepsMap :
    {Mine : Text → Type 0} (mac n : Text) (m : MacMap)
    → Mine n
    → KeepsMap Mine m (clear_mac_transaction_from_mac_entry mac n m)
unfolding reset_transaction
clear-KeepsMap mac n m mine = elim (clear_cases mac n m) [
  | inl (absent, e) ↦ rw e (KeepsMap-refl m)
  | inr (present, e) ↦
      rw e (change-KeepsMap (new_mac_key mac) n reset_transaction m mine (λ e. refl) present)
]

-- updateMacTransactionTimestampForUpdatedMacs changes no entry of another instance and makes no
-- list empty, wherever its loop ends.
pub stamps-KeepsMap :
    {Mine : Text → Type 0} (n : Text) (timestamp : Option ℕ) (macs : GoMap Text) (m : MacMap)
    → Mine n
    → KeepsMap Mine m (update_mac_transaction_timestamp_for_updated_macs n timestamp macs m).0
unfolding update_mac_transaction_timestamp_for_updated_macs set_transaction
stamps-KeepsMap n timestamp [] m mine = KeepsMap-refl m
stamps-KeepsMap n timestamp ((iface, mac) ∷ macs) m mine = elim (stamp_cases mac n m timestamp) [
  | inl (absent, e, fails) ↦
      rw (fails, update_mac_transaction_timestamp_for_updated_macs) (KeepsMap-refl m)
  | inr (present, stamped) ↦
      let stamp = λ (e : MacEntry). set_transaction e timestamp in
      rw (stamped, update_mac_transaction_timestamp_for_updated_macs)
        (KeepsMap-trans (change-KeepsMap (new_mac_key mac) n stamp m mine (λ e. refl) present)
          (stamps-KeepsMap n timestamp macs _ mine))
]

-- updateMacTransactionTimestampForUpdatedMacs changes for no instance which addresses it holds.
pub stamps-SameHolds :
    (n : Text) (timestamp : Option ℕ) (macs : GoMap Text) (m : MacMap)
    → SameHolds m (update_mac_transaction_timestamp_for_updated_macs n timestamp macs m).0
unfolding update_mac_transaction_timestamp_for_updated_macs belongs_to set_transaction
stamps-SameHolds n timestamp [] m k n' i' = refl
stamps-SameHolds n timestamp ((iface, mac) ∷ macs) m k n' i' =
    elim (stamp_cases mac n m timestamp) [
      | inl (absent, e, fails) ↦ rw (fails, update_mac_transaction_timestamp_for_updated_macs) refl
      | inr (present, stamped) ↦
          let stamp = λ (e : MacEntry). set_transaction e timestamp in
          rw (stamped, update_mac_transaction_timestamp_for_updated_macs)
            (stamps-SameHolds n timestamp macs _ k n' i'
              ∙ holds-map_first (new_mac_key mac) n stamp m k n' i' (λ e. refl))
    ]

-- Giving out a free address touches the current address only.
pub get_free_mac-Keeps :
    {Mine : Text → Type 0} (p : PoolManager)
    → IsRanged p
    → Keeps Mine p (get_free_mac p).0 × ((get_free_mac p).0.mac_pool_map ≡ p.mac_pool_map)
get_free_mac-Keeps {Mine} p ranged = go (get_free_mac p) (get_free_mac-Freed p ranged)
  where
    go :
        (r : PoolManager × Result HardwareAddr)
        → Freed p r
        → Keeps Mine p r.0 × (r.0.mac_pool_map ≡ p.mac_pool_map)
    go (p', ok mac) (hm, lo, hi, unused, kept, ranged', moved) =
        let e = ap (λ q. q.mac_pool_map) kept in
        (
          record {
            ranged = ranged';
            entries = subst (KeepsMap Mine p.mac_pool_map) (sym e) (KeepsMap-refl _);
            others_same =
                ap
                  (λ (q : PoolManager). record q {
                    current_mac = p'.current_mac;
                    mac_pool_map = p'.mac_pool_map;
                  })
                  kept;
          },
          e,
        )
    go (p', err e) (full, all, kept) =
        let e = ap (λ q. q.mac_pool_map) kept in
        let back =
          moved-IsRanged p ranged p.range_start ranged.start_mac (le_refl _)
            (le_trans ranged.low ranged.high) in
        (
          record {
            ranged = subst IsRanged (sym kept) back;
            entries = subst (KeepsMap Mine p.mac_pool_map) (sym e) (KeepsMap-refl _);
            others_same =
                ap
                  (λ (q : PoolManager). record q {
                    current_mac = p'.current_mac;
                    mac_pool_map = p'.mac_pool_map;
                  })
                  kept;
          },
          e,
        )

-- A step that may fail, and what follows on either outcome.
pub Keeps-step {ℓ κ} :
    {Mine : Text → Type 0} {A : Type ℓ} {B : Type κ} {p q : PoolManager} (r : Result A)
    (f : A → PoolManager × Result B) (g : Error → PoolManager × Result B)
    → Keeps Mine p q
    → ((a : A) → r ≡ ok a → Keeps Mine q (f a).0)
    → ((e : Error) → Keeps Mine q (g e).0)
    → Keeps Mine p (elim r as (λ _. PoolManager × Result B) [ ok a ↦ f a | err e ↦ g e ]).0
Keeps-step (ok a) f g first on_ok on_err = Keeps-trans first (on_ok a refl)
Keeps-step (err e) f g first on_ok on_err = Keeps-trans first (on_err e)

-- What is kept but for some instances is kept but for more.
pub Keeps-for :
    {Mine More : Text → Type 0} {p p' : PoolManager}
    → ((n : Text) → Mine n → More n)
    → Keeps Mine p p'
    → Keeps More p p'
Keeps-for more keeps = record {
  ranged = keeps.ranged;
  entries = record {
    others = λ k n not_more. keeps.entries.others k n (λ mine. not_more (more n mine));
    compact = keeps.entries.compact;
    once = keeps.entries.once;
  };
  others_same = keeps.others_same;
}
