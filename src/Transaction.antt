-- ===== src/Transaction.antt =====
-- pkg/pool-manager/transaction.go: the time of a transaction in the annotations of a virtual
-- machine. `format` and `parse` are those of the package time, in the layout RFC3339Nano.
use kubemacpool.Prelude.{
  lookup-insert_self, ℕ, ◌≡◌, refl, Option, none, some, Text, codes, lookup, insert, Result, ok,
  err, Error,
}
use kubemacpool.Kubevirt.{VirtualMachine}

abbrev pub transaction_timestamp_annotation : Text
transaction_timestamp_annotation = codes "kubemacpool.io/transaction-timestamp"

-- The annotations are not nil.
unfoldable pub set_transaction_timestamp_annotation_to_vm :
    (ℕ → Text) → ℕ → VirtualMachine → VirtualMachine
set_transaction_timestamp_annotation_to_vm format timestamp vm = record vm {
  annotations = insert transaction_timestamp_annotation (format timestamp) vm.annotations;
}

unfoldable pub get_transaction_timestamp_annotation_from_vm :
    (Text → Option ℕ) → VirtualMachine → Result ℕ
get_transaction_timestamp_annotation_from_vm parse vm =
    elim (lookup transaction_timestamp_annotation vm.annotations) [
      | none ↦ err Error.not_found
      | some value ↦ elim (parse value) [ none ↦ err Error.bad_timestamp | some t ↦ ok t ]
    ]

-- What is set is read back, where the two are inverse at the time.
pub get_transaction_timestamp-set :
    (format : ℕ → Text) (parse : Text → Option ℕ) (timestamp : ℕ) (vm : VirtualMachine)
    → parse (format timestamp) ≡ some timestamp
    → get_transaction_timestamp_annotation_from_vm parse
        (set_transaction_timestamp_annotation_to_vm format timestamp vm)
      ≡ ok timestamp
unfolding get_transaction_timestamp_annotation_from_vm set_transaction_timestamp_annotation_to_vm
get_transaction_timestamp-set format parse timestamp vm inverse =
    rw
      (
        lookup-insert_self transaction_timestamp_annotation (format timestamp) vm.annotations,
        get_transaction_timestamp_annotation_from_vm,
      )
      (rw inverse refl)
