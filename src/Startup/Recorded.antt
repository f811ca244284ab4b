-- ===== src/Startup/Recorded.antt =====
-- The start-up of pkg/pool-manager records the addresses in use: initVirtualMachineMap enters every
-- address that a virtual machine of a managed namespace asks for.
use kubemacpool.Startup.Entered.{Unless, IsRecorded}
use kubemacpool.Prelude.{ℕ, not, List, GoMap, has_key, All}
use kubemacpool.Kubevirt.{VirtualMachine}
use kubemacpool.Client.{Client}
use kubemacpool.Pool.{PoolManager}

-- The machines of a page that stand in managed namespaces.
abbrev pub PageRecorded : GoMap (Unit {0}) → List VirtualMachine → PoolManager × ℕ → Type 0
PageRecorded managed vms t =
    All (λ vm. Unless (not (has_key vm.namespace managed)) (IsRecorded vm t)) vms
