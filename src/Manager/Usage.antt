-- ===== src/Manager/Usage.antt =====
-- The load that the manager reports, over every history of the pool.
use simcan2fog.Prelude.{ℕ, ◌≡◌, refl, ap, arith, ok}
use simcan2fog.Resources.{VirtualMachine, NodeResources}
use simcan2fog.Pool.{
  NodePool, PoolResources, empty_pool, finish, add_node, allocate_resources, deallocate_resources,
}
use simcan2fog.Manager.{get_aggregate_cpu_usage}

-- What can happen to a pool: its four operations that change it.
pub data PoolStep : NodePool → NodePool → Type 0 where
  added :
      (p : NodePool) (address : ℕ) (resources : NodeResources)
      → PoolStep p (add_node p address resources).0
  allocated :
      (p q : NodePool) (index : ℕ) (vm : VirtualMachine)
      → allocate_resources p index vm ≡ ok q
      → PoolStep p q
  deallocated :
      (p q : NodePool) (index : ℕ) (vm : VirtualMachine)
      → deallocate_resources p index vm ≡ ok q
      → PoolStep p q
  finished : (p : NodePool) → PoolStep p (finish p)

pub data Reachable : NodePool → Type 0 where
  initially : Reachable empty_pool
  after : {p q : NodePool} → Reachable p → PoolStep p q → Reachable q

abbrev IsIdle : NodePool → Type 0
IsIdle p = p.available_resources ≡ p.total_resources

allocate_resources-IsIdle :
    (p q : NodePool) (index : ℕ) (vm : VirtualMachine)
    → IsIdle p
    → allocate_resources p index vm ≡ ok q
    → IsIdle q
unfolding allocate_resources
allocate_resources-IsIdle p q index vm i h = ground arith

deallocate_resources-IsIdle :
    (p q : NodePool) (index : ℕ) (vm : VirtualMachine)
    → IsIdle p
    → deallocate_resources p index vm ≡ ok q
    → IsIdle q
unfolding deallocate_resources
deallocate_resources-IsIdle p q index vm i h = ground arith

PoolStep-IsIdle : {p q : NodePool} → PoolStep p q → IsIdle p → IsIdle q
unfolding add_node finish
PoolStep-IsIdle (added p address resources) i = refl
PoolStep-IsIdle (allocated p q index vm h) i = allocate_resources-IsIdle p q index vm i h
PoolStep-IsIdle (deallocated p q index vm h) i = deallocate_resources-IsIdle p q index vm i h
PoolStep-IsIdle (finished p) i = refl

Reachable-IsIdle : {p : NodePool} → Reachable p → IsIdle p
Reachable-IsIdle initially = refl
Reachable-IsIdle (after r s) = PoolStep-IsIdle s (Reachable-IsIdle r)

-- Whatever was placed on the nodes, the manager reports a load of 0.
pub get_aggregate_cpu_usage_zero : {p : NodePool} → Reachable p → (get_aggregate_cpu_usage p).0 ≡ 0
unfolding get_aggregate_cpu_usage
get_aggregate_cpu_usage_zero {p} r =
    let same = ap (λ (x : PoolResources). x.cores) (Reachable-IsIdle r) in omega arith
