-- ===== src/Hardware.antt =====
-- The cores of a node and the manager of an edge node
-- (src/s2f/os/hardwaremanagers/HardwareManager.{h,cc}, EdgeHardwareManager.{h,cc} and
-- DcHardwareManager.cc). `now` is simTime() in seconds. `coresState` is resized to the total number
-- of cores when the module starts, so the bound `i < getTotalResources().cores` is its length.
pub mod Cores
pub mod Edge
use simcan2fog.Prelude.{
  ℕ, zero, suc, ◌+◌, ◌-◌, Bool, true, false, not, Option, none, some, List, [], ◌∷◌, get_elem?, set,
  length, replicate, ltb, leb, ◌==◌, ◌&&◌, ◌||◌, if◌then◌else◌, add32, sub32, u32_mod, Outcome, ok,
  fault, runtime_error, undefined, or_fault, check, ◌>>=◌, ◌>>◌,
}
use simcan2fog.Resources.{VirtualMachine, NodeResources, vm_fits}
use simcan2fog.Pool.{NodePool}
use simcan2fog.Manager.{Signal, confirm_node_deallocation}

pub record CoreState : Type 0 where
  pub usage_time : ℕ
  pub start_time : ℕ
  pub free : Bool

abbrev pub fresh_core : CoreState
fresh_core = record { usage_time = 0; start_time = 0; free = true }

abbrev pub allocate_core : ℕ → CoreState → CoreState
allocate_core now c = record c { free = false; start_time = now }

-- Time does not run backwards, so the difference is exact.
abbrev pub release_core : ℕ → CoreState → CoreState
release_core now c = record c { free = true; usage_time = c.usage_time + (now - c.start_time) }

-- The loop of allocateCores from core `i` on, with `j` places of the index filled.
unfoldable pub allocate_cores_from :
    ℕ → ℕ → ℕ → ℕ → List CoreState → List ℕ → List CoreState × List ℕ
allocate_cores_from cores now i j [] index = ([], index)
allocate_cores_from cores now i j (c ∷ cs) index = elim (ltb j cores) [
  | false ↦ (c ∷ cs, index)
  | true ↦ elim c.free [
    | true ↦
        let (cs', index') = allocate_cores_from cores now (suc i) (suc j) cs (set index j i) in
        (allocate_core now c ∷ cs', index')
    | false ↦
        let (cs', index') = allocate_cores_from cores now (suc i) j cs index in (c ∷ cs', index')
  ]
]

-- `new uint32_t[cores]{UINT32_MAX}` sets the first place alone, the others are 0; for no place at all
-- it throws.
abbrev pub new_index : ℕ → Outcome (List ℕ)
new_index zero = fault runtime_error
new_index (suc n) = ok (4294967295 ∷ replicate n 0)

unfoldable pub allocate_cores : ℕ → ℕ → List CoreState → Outcome (List CoreState × List ℕ)
unfolding allocate_cores_from
allocate_cores cores now states = do
  index ← new_index cores
  ok (allocate_cores_from cores now 0 0 states index)

-- The loop of deallocateCores; an index outside a vector is undefined.
unfoldable pub deallocate_cores : ℕ → ℕ → List ℕ → List CoreState → Outcome (List CoreState)
deallocate_cores zero now index states = ok states
deallocate_cores (suc n) now [] states = fault undefined
deallocate_cores (suc n) now (i ∷ index) states = do
  c ← or_fault (get_elem? states i) undefined
  deallocate_cores n now index (set states i (release_core now c))

-- checkNodeSetup; the tests `<= 0` on unsigned numbers are tests for 0.
unfoldable pub check_node_setup : Bool → NodeResources → Outcome (Unit {0})
check_node_setup true r = do
  check (not (r.vms == 0 || ltb r.cores r.vms)) runtime_error
  check (not (r.cores == 0)) runtime_error
  check (r.users == r.vms) runtime_error
check_node_setup false r = do
  check (r.vms == 1) runtime_error
  check (not (r.cores == 0)) runtime_error
  check (not (r.users == 0)) runtime_error

pub record EdgeManager : Type 0 where
  pub available : NodeResources
  pub total : NodeResources
  pub cores_state : List CoreState

-- initialize(), after the parameters were read and the disk and memory sizes rounded up.
unfoldable pub initialize : Bool → NodeResources → Outcome EdgeManager
unfolding check_node_setup
initialize is_virtual_hardware total = do
  check_node_setup is_virtual_hardware total
  ok (record { available = total; total = total; cores_state = replicate total.cores fresh_core })

-- What is left of the resources, and what comes back.
abbrev pub take_resources : NodeResources → VirtualMachine → NodeResources
take_resources r vm = record r {
  cores = sub32 r.cores vm.num_cores;
  memory_mib = sub32 r.memory_mib vm.memory_mib;
  disk_mib = sub32 r.disk_mib vm.disk_mib;
  vms = sub32 r.vms 1;
}

abbrev pub give_resources : NodeResources → VirtualMachine → NodeResources
give_resources r vm = record r {
  cores = add32 r.cores vm.num_cores;
  memory_mib = add32 r.memory_mib vm.memory_mib;
  disk_mib = add32 r.disk_mib vm.disk_mib;
  vms = add32 r.vms 1;
}

-- EdgeHardwareManager::tryAllocateResources; `none` is the result false, which leaves the index
-- pointer of the caller as it was.
unfoldable pub try_allocate_resources :
    ℕ → VirtualMachine → EdgeManager → Outcome (Option (List ℕ) × EdgeManager)
try_allocate_resources now vm m = elim (vm_fits vm m.available) [
  | false ↦ ok (none, m)
  | true ↦ allocate_cores vm.num_cores now m.cores_state >>= λ r.
      ok (some r.1, record m { available = take_resources m.available vm; cores_state = r.0 })
]

unfoldable pub deallocate_resources :
    ℕ → VirtualMachine → List ℕ → EdgeManager → Outcome EdgeManager
deallocate_resources now vm index m = do
  states ← deallocate_cores vm.num_cores now index m.cores_state
  ok (record m { available = give_resources m.available vm; cores_state = states })

-- DcHardwareManager: the books of the node are kept by the resource manager.
unfoldable pub dc_try_allocate_resources :
    ℕ → VirtualMachine → List CoreState → Outcome (List CoreState × List ℕ)
dc_try_allocate_resources now vm states = allocate_cores vm.num_cores now states

unfoldable pub dc_deallocate_resources :
    Bool
    → ℕ
    → ℕ
    → VirtualMachine
    → List ℕ
    → List CoreState × NodePool
    → Outcome (List CoreState × NodePool × List Signal)
dc_deallocate_resources has_listeners node_id now vm index (states, p) = do
  states' ← deallocate_cores vm.num_cores now index states
  r ← confirm_node_deallocation has_listeners p node_id vm
  ok (states', r.0, r.1)
