-- ===== src/Resources.antt =====
-- Machine resources and the comparisons of a VM template with a node
-- (src/s2f/os/hardwaremanagers/NodeResources.{h,cc}, src/s2f/management/dataClasses/
-- VirtualMachines/VirtualMachine.h). Every field is a uint32_t, kept as a number.
pub mod Order
use simcan2fog.Prelude.{
  ℕ, ◌+◌, ◌<◌, String, Bool, ◌&&◌, ◌||◌, not, Option, none, some, ltb, leb, ◌==◌, if◌then◌else◌,
  u32_mod, sub32, Outcome, ok, undefined, check, ◌>>◌,
}

-- The price and the scu factor are doubles that no modelled operation reads.
pub record VirtualMachine : Type 0 where
  pub vm_type : String
  pub num_cores : ℕ
  pub disk_mib : ℕ
  pub memory_mib : ℕ

pub record NodeResources : Type 0 where
  pub memory_mib : ℕ
  pub disk_mib : ℕ
  pub cores : ℕ
  pub vms : ℕ
  pub users : ℕ

unfoldable pub has_user_and_vm_space : NodeResources → Bool
has_user_and_vm_space r = ltb 0 r.vms && ltb 0 r.users

-- `cores | memoryMiB | diskMiB` is 0 when each of the three is.
unfoldable pub is_exhausted : NodeResources → Bool
unfolding has_user_and_vm_space
is_exhausted r =
    (r.cores == 0 && (r.memory_mib == 0 && r.disk_mib == 0)) || not (has_user_and_vm_space r)

-- `<` of std::tuple goes by the first place that differs.
unfoldable pub tuple_lt : ℕ × ℕ × ℕ → ℕ × ℕ × ℕ → Bool
tuple_lt (a, b, c) (x, y, z) = ltb a x || (a == x && (ltb b y || (b == y && ltb c z)))

abbrev pub vm_tuple : VirtualMachine → ℕ × ℕ × ℕ
vm_tuple vm = (vm.num_cores, vm.disk_mib, vm.memory_mib)

abbrev pub node_tuple : NodeResources → ℕ × ℕ × ℕ
node_tuple r = (r.cores, r.disk_mib, r.memory_mib)

-- operator==(node, vm); the library compares the tuples place by place.
unfoldable pub node_equals : NodeResources → VirtualMachine → Bool
unfolding has_user_and_vm_space
node_equals r vm =
    (vm.num_cores == r.cores && (vm.disk_mib == r.disk_mib && vm.memory_mib == r.memory_mib))
    && has_user_and_vm_space r

-- operator>=(node, vm)
unfoldable pub node_covers : NodeResources → VirtualMachine → Bool
unfolding has_user_and_vm_space tuple_lt
node_covers r vm = not (tuple_lt (node_tuple r) (vm_tuple vm)) && has_user_and_vm_space r

-- operator<=(vm, node)
unfoldable pub vm_fits : VirtualMachine → NodeResources → Bool
unfolding has_user_and_vm_space tuple_lt
vm_fits vm r = not (tuple_lt (node_tuple r) (vm_tuple vm)) && has_user_and_vm_space r

abbrev pub i32_limit : ℕ
i32_limit = 2147483648

-- A uint32_t difference that is stored in an int is negative from 2^31 on.
abbrev pub is_negative : ℕ → Bool
is_negative d = leb i32_limit d

-- `none` is DBL_MAX. The sum of the three ints is undefined where it passes 2^31 - 1.
unfoldable pub get_logical_distance : NodeResources → VirtualMachine → Outcome (Option ℕ)
unfolding has_user_and_vm_space
get_logical_distance r vm =
    let distance1 = sub32 r.cores vm.num_cores in
    let distance2 = sub32 r.disk_mib vm.disk_mib in
    let distance3 = sub32 r.memory_mib vm.memory_mib in
    let total = distance1 + distance2 + distance3 in
    if not (has_user_and_vm_space r)
    then ok none
    else if is_negative distance1 || (is_negative distance2 || is_negative distance3)
    then ok none
    else check (ltb total i32_limit) undefined >> ok (some total)

-- The fields of a template and of a node are 32-bit words.
pub record IsVmWord (vm : VirtualMachine) : Type 0 where
  pub cores_word : vm.num_cores < u32_mod
  pub disk_word : vm.disk_mib < u32_mod
  pub memory_word : vm.memory_mib < u32_mod

pub record IsNodeWord (r : NodeResources) : Type 0 where
  pub cores_word : r.cores < u32_mod
  pub disk_word : r.disk_mib < u32_mod
  pub memory_word : r.memory_mib < u32_mod
  pub vms_word : r.vms < u32_mod
