-- ===== src/Lib.antt =====
-- KubeMacPool gives MAC addresses from a range to the interfaces of KubeVirt virtual machines
-- and of pods, remembers which instance holds which address, and reports addresses that several
-- running objects use. This library models its core: pkg/pool-manager, pkg/webhook,
-- pkg/controller, pkg/tls and the start of pkg/manager. Paths are those of the repository.
--
-- How the parts interact. The pool manager (Pool) keeps the range, the address that is tried
-- first, and the map of the addresses that are held (MacMap). The allocation of a virtual
-- machine (Vm) and of a pod (Pod) draws free addresses from it, makes an entry for each, stamps
-- the entries of a virtual machine with the time of the transaction, and takes them back on an
-- error. Ready commits or heals stamped entries. The webhooks (Webhook) allocate for requests
-- and answer with patches; the controllers (Controller) commit, release and move the range; the
-- start-up (Startup) enters what the cluster uses already; System puts all of these together as
-- steps on the one pool. The reconcilers of Maccollision find the running objects that share an
-- address and hand them to the tracker of the pool manager (Collision), which reports them by a
-- gauge.
--
-- Files.
-- - Prelude: tests, lists, texts, Go maps, results and integers that all parts share. A Go map
--   is an association list; a range over it visits the entries in the order of the list, and the
--   theorems are about every list.
-- - Net: parsing and printing of addresses as the standard library does it, the keys of
--   pkg/pool-manager/mackey.go and NormalizeMacAddress. Net/RoundTrip has the theorems.
-- - Mac: the arithmetic of pkg/pool-manager/pool.go (checkRange, GetMacPoolSize,
--   generateRandomMac, checkCast, getNextMac) and of pkg/utils/utils.go. Mac/Value gives an
--   address its number; Next, Range and Random state the arithmetic by these numbers.
-- - Kubevirt: the fields of the objects of the cluster that the program reads.
-- - MacMap: pkg/pool-manager/macpoolmap.go and macentry.go, one function each. MacMap/View says
--   who holds an address; Find, Update, Remove and Filter say what the operations do to that.
-- - Pool: PoolManager, getFreeMac, UpdateRanges, NewPoolManager and GetCurrentRanges of
--   pkg/pool-manager/pool.go, with theorems in Scanning, FreeMac and Ranges; Keeps has what
--   every allocation keeps.
-- - Vm: pkg/pool-manager/virtualmachine_pool.go, with Update for
--   UpdateMacAddressesForVirtualMachine and Ready for MarkVMAsReady, healStaleMacEntries and
--   commitChangesToMacPoolMap of transaction.go. Served says when an interface is served;
--   Checks, Held, Allocation, Covered, Rollback, Refused with Refused/Faults, Release, Names,
--   Update/Keeps, Ready/Keeps and Ready/Heal have theorems.
-- - Pod: pkg/pool-manager/pod_pool.go; theorems in Pod/Allocation.
-- - Client, Paging: what is asked of the cluster, and the loop over the pages of a list;
--   Paging/Chain, Each and Invariant have its theorems.
-- - Namespaces: the opt modes and the managed namespaces of pkg/pool-manager/pool.go; theorems
--   in Managed and Listing.
-- - Startup: Start and InitMaps of pool.go, initPodMap of pod_pool.go and initVirtualMachineMap
--   of virtualmachine_pool.go; theorems in Entered, Recorded and Kept.
-- - Transaction: the annotation of pkg/pool-manager/transaction.go.
-- - Webhook: VirtualMachines and Pods for pkg/webhook/virtualmachine and pkg/webhook/pod;
--   theorems in Keeps, Patches and Created below them.
-- - Controller: ConfigMaps, VirtualMachines and Pods for pkg/controller/configmap,
--   virtualmachine and pod; ConfigMaps takes the pool as a record of operations and laws, which
--   the pool manager fills. Theorems in Range, Reading and Released.
-- - System: the steps of the program and the states they reach; theorems in Steps, Orderly and
--   Reachable.
-- - Collision: pkg/pool-manager/vmi_collision.go; theorems in Tracking and Gauge.
-- - Maccollision: cache.go, migration.go, vmi_candidates.go and pod_candidates.go of
--   pkg/controller/maccollision; Controllers has the two reconcilers, with theorems in
--   Controllers/Outcome; Predicates has the event filters of predicates.go, with theorems in
--   Predicates/Relevant, Mapping the requests that an event of the other kind makes; Candidates
--   and Migration have theorems on the candidates.
-- - Tls: pkg/tls/tls.go.
-- - Manager: the environment of cmd/manager/main.go, checkForKubevirt and the pool of a round of
--   Run in pkg/manager/manager.go; the theorem in Started is about all the program does from
--   there on.
-- - Tests and its children: concrete inputs on which the theorems apply.
--
-- State and errors. An operation takes the pool manager and returns it with a result; each
-- operation is one step. The source takes a mutex for most of them, but none in InitMaps and
-- another one in UpdateRanges, and the steps in which these could meet an allocation half way
-- are not modelled. A Go error is a value of Error, a panic by an index out of range or a nil
-- pointer is the error panic. Octets are natural numbers below 256 where a theorem says so, with
-- the wrap-around of bytes and of 64-bit integers written out. Times and durations are natural
-- numbers without a bound, so the overflow of a time.Duration is not modelled. A read of the
-- template of a machine that has none is a panic, too. The gauge of the collisions belongs to
-- the process, so NewPoolManager takes what it holds.
--
-- Fuel. The inner loop of getFreeMac has fuel 2^48, the number of MAC-48 addresses, for each of
-- its two passes; the theorem on getFreeMac shows that this suffices for every range of such
-- addresses. The loop over the pages of a list has fuel for its pages; the theorem on it shows
-- that as much fuel as there are pages suffices. All other loops are structural.
--
-- Parameters. The answers of crypto/rand, of the clients of the cluster, of the JSON codec, of
-- the JSON patch library, of the selector library, of the retry on a conflict and of the
-- annotation parser, the printing and reading of times, and the clock are arguments.
--
-- Not modelled: logging, the registration of handlers and controllers with their server, metrics
-- registration, the certificate manager and the rest of the process set-up.
pub mod Prelude
pub mod Net
pub mod Mac
pub mod Kubevirt
pub mod Client
pub mod Paging
pub mod Namespaces
pub mod MacMap
pub mod Collision
pub mod Pool
pub mod Vm
pub mod Pod
pub mod Startup
pub mod Transaction
pub mod Webhook
pub mod Controller
pub mod System
pub mod Tls
pub mod Manager
pub mod Maccollision
mod Tests
