-- ===== src/Pool/Accounting.antt =====
-- What allocation does to the books of a node and of the pool.
use simcan2fog.Prelude.{◌<◌, ◌≡◌, some, List, ◌∷◌, arith, ok}
use simcan2fog.Resources.{VirtualMachine, IsVmWord, IsNodeWord, vm_fits}
use simcan2fog.Pool.{Node, allocate_on_node, deallocate_on_node}
use simcan2fog.Pool.Selection.{first_fit, first_fit_from}

pub deallocate-allocate_on_node :
    (n : Node) (vm : VirtualMachine)
    → IsNodeWord n.available_resources
    → IsVmWord vm
    → deallocate_on_node (allocate_on_node n vm) vm ≡ n
unfolding allocate_on_node deallocate_on_node
deallocate-allocate_on_node n vm w v = ground arith

pub allocate_on_node-IsNodeWord :
    (n : Node) (vm : VirtualMachine) → IsNodeWord (allocate_on_node n vm).available_resources
unfolding allocate_on_node
allocate_on_node-IsNodeWord n vm = omega arith

pub deallocate_on_node-IsNodeWord :
    (n : Node) (vm : VirtualMachine) → IsNodeWord (deallocate_on_node n vm).available_resources
unfolding deallocate_on_node
deallocate_on_node-IsNodeWord n vm = omega arith

-- FirstFit takes the first node, where that has room for one more VM and user, for a template that asks
-- for fewer cores but more disk than it has, and then the disk that the node offers grows: the
-- subtraction wraps. The amounts of the template are words.
pub first_fit_overcommits :
    (vm : VirtualMachine) (n : Node) (nodes : List Node)
    → IsVmWord vm
    → 0 < n.available_resources.vms
    → 0 < n.available_resources.users
    → vm.num_cores < n.available_resources.cores
    → n.available_resources.disk_mib < vm.disk_mib
    → (first_fit vm (n ∷ nodes) ≡ ok (some 0))
      × (n.available_resources.disk_mib < (allocate_on_node n vm).available_resources.disk_mib)
unfolding first_fit first_fit_from allocate_on_node vm_fits
first_fit_overcommits vm n nodes w v u c d = (ground arith, omega arith)
