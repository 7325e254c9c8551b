-- ===== src/Pool.antt =====
-- The nodes of a data center and their resources (src/s2f/management/managers/NodePool.{h,cc},
-- Node.{h,cc}). The EV_ log lines and the reservation of capacity in `initialize` have no effect on
-- the state and are left out.
pub mod Selection
pub mod Accounting
use simcan2fog.Prelude.{
  ℕ, ◌+◌, String, Bool, true, false, Option, none, some, List, [], ◌∷◌, ◌++◌, length, get_elem?,
  set, ltb, ◌==◌, if◌then◌else◌, u64_mod, add32, sub32, add64, Outcome, ok, fault, runtime_error,
  undefined, or_fault, ◌>>=◌, u32_mod,
}
use simcan2fog.Resources.{VirtualMachine, NodeResources}
use Prim.Native.Nat.{bit_and, bit_or, bit_xor}

-- `state` is a uint8_t mask of ACTIVE = 1, IN_USE = 2 and MAXED_OUT = 4.
pub record Node : Type 0 where
  pub available_resources : NodeResources
  pub address : ℕ
  pub state : ℕ

abbrev pub active_flag : ℕ
active_flag = 1

abbrev pub in_use_flag : ℕ
in_use_flag = 2

abbrev pub maxed_out_flag : ℕ
maxed_out_flag = 4

-- Each setter first clears the mask: `state ^= state` is 0.
pub set_inactive : Node → Node
set_inactive n = record n { state = 0 }

pub set_active : Node → Node
unfolding set_inactive
set_active n = record n { state = bit_or (set_inactive n).state active_flag }

pub set_in_use : Node → Node
unfolding set_inactive
set_in_use n = record n { state = bit_or (set_inactive n).state in_use_flag }

pub set_maxed_out : Node → Node
unfolding set_inactive
set_maxed_out n = record n { state = bit_or (set_inactive n).state maxed_out_flag }

abbrev has_flag : ℕ → ℕ → Bool
has_flag state flag = if bit_and state flag == 0 then false else true

pub is_active : Node → Bool
is_active n = has_flag n.state active_flag

pub in_use : Node → Bool
in_use n = has_flag n.state in_use_flag

pub is_maxed_out : Node → Bool
is_maxed_out n = has_flag n.state maxed_out_flag

-- What operator<< prints for the state: an element of an array of four names, by the mask itself.
pub state_name : Node → Outcome String
state_name n =
    or_fault (get_elem? ("INACTIVE" ∷ "ACTIVE" ∷ "IN_USE" ∷ "MAXED_OUT" ∷ []) n.state) undefined

pub record PoolResources : Type 0 where
  pub memory_mib : ℕ
  pub disk_mib : ℕ
  pub cores : ℕ
  pub vms : ℕ

pub record NodePool : Type 0 where
  pub nodes : List Node
  pub total_resources : PoolResources
  pub available_resources : PoolResources

abbrev pub no_resources : PoolResources
no_resources = record { memory_mib = 0; disk_mib = 0; cores = 0; vms = 0 }

abbrev pub empty_pool : NodePool
empty_pool = record {
  nodes = [];
  total_resources = no_resources;
  available_resources = no_resources;
}

unfoldable pub finish : NodePool → NodePool
finish p = empty_pool

unfoldable pub get_node : NodePool → ℕ → Outcome Node
get_node p index = or_fault (get_elem? p.nodes index) runtime_error

-- The new node goes to the end; the result is its index.
unfoldable pub add_node : NodePool → ℕ → NodeResources → NodePool × ℕ
unfolding set_active set_inactive
add_node p address resources =
    let node : Node =
      set_active (record { available_resources = resources; address = address; state = 0 }) in
    let old = p.total_resources in
    let total : PoolResources = record {
      memory_mib = add64 old.memory_mib resources.memory_mib;
      disk_mib = add64 old.disk_mib resources.disk_mib;
      cores = add64 old.cores resources.cores;
      vms = add64 old.vms resources.vms;
    } in
    (
      record { nodes = p.nodes ++ node ∷ []; total_resources = total; available_resources = total },
      length p.nodes,
    )

unfoldable pub allocate_on_node : Node → VirtualMachine → Node
allocate_on_node n vm = record n {
  available_resources = record r {
    memory_mib = sub32 r.memory_mib vm.memory_mib;
    disk_mib = sub32 r.disk_mib vm.disk_mib;
    cores = sub32 r.cores vm.num_cores;
    vms = sub32 r.vms 1;
  };
}
  where
    open n use {available_resources as r}

unfoldable pub deallocate_on_node : Node → VirtualMachine → Node
deallocate_on_node n vm = record n {
  available_resources = record r {
    memory_mib = add32 r.memory_mib vm.memory_mib;
    disk_mib = add32 r.disk_mib vm.disk_mib;
    cores = add32 r.cores vm.num_cores;
    vms = add32 r.vms 1;
  };
}
  where
    open n use {available_resources as r}

-- `nodes.at(index)` throws outside the vector.
unfoldable pub allocate_resources : NodePool → ℕ → VirtualMachine → Outcome NodePool
allocate_resources p index vm = do
  node ← or_fault (get_elem? p.nodes index) runtime_error
  ok (record p { nodes = set p.nodes index (allocate_on_node node vm) })

unfoldable pub deallocate_resources : NodePool → ℕ → VirtualMachine → Outcome NodePool
deallocate_resources p index vm = do
  node ← or_fault (get_elem? p.nodes index) runtime_error
  ok (record p { nodes = set p.nodes index (deallocate_on_node node vm) })
