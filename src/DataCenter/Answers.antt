-- ===== src/DataCenter/Answers.antt =====
-- How the manager of a data center answers a request for VMs (handleVmRequestFits of DcManager.cc), with
-- what the resource manager does to the pool.
use simcan2fog.Prelude.{
  ℕ, ◌≡◌, refl, String, true, false, Option, none, some, List, [], ◌∷◌, ◌++◌, length, string_key,
  lookup, insert, lookup-insert, Outcome, ok, arith,
}
use simcan2fog.Resources.{VirtualMachine, IsVmWord}
use simcan2fog.Pool.{Node, NodePool}
use simcan2fog.Manager.{NodeVmRecord, Signal, allocate_vms, release_records}
use simcan2fog.Manager.Rollback.{allocate_vms-Settled}
use simcan2fog.Manager.Rollback.Releases.{AllWords}
use simcan2fog.DataCenter.{
  UserVm, VmOfRequest, Action, vms_to_node, respond, update_provider, DcManager, dispatch,
  accept_vm, dispatch_vm, vm_types,
}
use simcan2fog.DataCenter.Dispatching.{AllNamed, AllAccepted, dispatch_vms_lem}
use simcan2fog.DataCenter.Handlers.{vm_answer, handle_vm_request_fits}

-- Every requested VM is accepted, also where one record sends the whole request to its node.
dispatch_accepts :
    (now : ℕ) (records : List NodeVmRecord) (request : UserVm) (dc : DcManager)
    → AllNamed dc records
    → length request.vms ≡ length records
    → (answered : UserVm) × (sent : List Action) × (dispatch now records request dc
        ≡ ok (answered, sent))
      × AllAccepted request.vms answered.vms
unfolding dispatch_vm
dispatch_accepts now [] request dc named same =
    let (after, sent, run, all, _, _) = dispatch_vms_lem now dc [] request named same in
    (record request { vms = after }, _, run, all)
dispatch_accepts now (r ∷ []) request dc ((url, u), named) same = one request.vms refl same
  where
    one :
        (vms : List VmOfRequest)
        → request.vms ≡ vms
        → length vms ≡ 1
        → (answered : UserVm) × (sent : List Action) × (dispatch now (r ∷ []) request dc
            ≡ ok (answered, sent))
          × AllAccepted request.vms answered.vms
    one [] e h = absurd (omega arith)
    one (v ∷ w ∷ vms) e h = absurd (omega arith)
    one (v ∷ []) e h = (
      record request { vms = accept_vm now url v ∷ [] },
      vms_to_node r.node_index (record request { vms = accept_vm now url v ∷ [] }) ∷ [],
      rw (u, e) refl,
      rw e (record { same_type = refl; same_id = refl; now_accepted = refl }, tt),
    )
dispatch_accepts now (r ∷ s ∷ rs) request dc named same =
    let (after, sent, run, all, _, _) = dispatch_vms_lem now dc (r ∷ s ∷ rs) request named same in
    (record request { vms = after }, _, run, all)

module _ (select : VirtualMachine → List Node → Outcome (Option ℕ))
    (search_vm : String → Option VirtualMachine)
    (templates : (t : String) (vm : VirtualMachine) → search_vm t ≡ some vm → IsVmWord vm) (now : ℕ)
    (request : UserVm) (dc : DcManager) (words : AllWords dc.pool.nodes) where
  -- The manager with the pool after the allocation, and the user's topic noted.
  abbrev pub noted : NodePool → DcManager
  noted q = record dc {
    pool = q;
    accepted_users = insert request.user_id request.return_topic dc.accepted_users;
  }

  abbrev pub Answered : Option (List NodeVmRecord) → NodePool → Type 0
  Answered none q =
      handle_vm_request_fits select search_vm now request dc
      ≡ ok (
        dc,
        update_provider dc.pool.total_resources.cores dc.pool.total_resources.memory_mib
              dc.pool.total_resources.disk_mib
            ∷ respond (vm_answer select search_vm false dc request)
            ∷ [],
      )
  Answered (some records) q =
      (answered : UserVm) × (sent : List Action) × (handle_vm_request_fits select search_vm now
          request dc
        ≡ ok (noted q, sent ++ respond (vm_answer select search_vm true (noted q) answered) ∷ []))
      × AllAccepted request.vms answered.vms
      × (lookup request.user_id (noted q).accepted_users ≡ some request.return_topic)
      × (release_records records q ≡ ok dc.pool)

  abbrev Dispatchable : Option (List NodeVmRecord) → NodePool → Type 0
  Dispatchable none q = Unit {0}
  Dispatchable (some records) q = AllNamed (noted q) records × (length request.vms ≡ length records)

  -- Whatever the strategy, and whether the request is met or not, it is answered. If it is refused, the
  -- data center is as before, and tells the cloud provider of all of its resources, those in use
  -- included. If it is met by records with one named node for each VM, every VM is accepted, the user's
  -- topic is noted, and releasing the records gives back the pool.
  pub handle_vm_request_fits-Answered :
      (r : Option (List NodeVmRecord)) (q : NodePool) (signals : List Signal)
      → allocate_vms select search_vm dc.pool (vm_types request.vms) ≡ ok (r, q, signals)
      → Dispatchable r q
      → Answered r q
  unfolding handle_vm_request_fits
  handle_vm_request_fits-Answered none q signals run d =
      let (same, silent) =
        allocate_vms-Settled select search_vm templates dc.pool words (vm_types request.vms) none q
          signals run in
      rw (run, same) refl
  handle_vm_request_fits-Answered (some records) q signals run d =
      let (answered, sent, dispatched, all) =
        dispatch_accepts now records request (noted q) d.0 d.1 in
      (
        answered,
        sent,
        rw (run, dispatched) refl,
        all,
        lookup-insert request.user_id request.return_topic dc.accepted_users,
        allocate_vms-Settled select search_vm templates dc.pool words (vm_types request.vms)
            (some records) q signals run,
      )
