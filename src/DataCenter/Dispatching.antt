-- ===== src/DataCenter/Dispatching.antt =====
-- To which nodes the VMs of a request go (dispatchVms of DcManager.cc).
use mathlib.Core.List.{append-nil, append_assoc}
use simcan2fog.Prelude.{
  ℕ, ◌≡◌, ◌<◌, refl, sym, ap, ◌∙◌, inl, inr, List, [], ◌∷◌, ◌++◌, length, ltb, ◌==◌, if◌then◌else◌,
  Name, ok, arith, Bool-cases,
}
use simcan2fog.Manager.{NodeVmRecord}
use simcan2fog.DataCenter.{
  VmOfRequest, accepted, UserVm, DcManager, accept_vm, url_of, append_vm, dispatch_loop, to_nodes,
  dispatch_vms,
}

-- The VMs in the message to a node.
abbrev pub vms_for : ℕ → List (ℕ × UserVm) → List VmOfRequest
vms_for q [] = []
vms_for q ((k, message) ∷ m) = let rest = vms_for q m in if q == k then message.vms else rest

-- The VMs whose records name a node, in the order of the request.
abbrev pub placed_at : ℕ → List NodeVmRecord → List VmOfRequest → List VmOfRequest
placed_at q [] vms = []
placed_at q (r ∷ rs) [] = []
placed_at q (r ∷ rs) (vm ∷ vms) =
    let rest = placed_at q rs vms in if q == r.node_index then vm ∷ rest else rest

abbrev AllAbove : ℕ → List (ℕ × UserVm) → Type 0
AllAbove k [] = Unit {0}
AllAbove k ((j, message) ∷ m) = (k < j) × AllAbove k m

-- Each node has at most one message.
abbrev pub IsAscending : List (ℕ × UserVm) → Type 0
IsAscending [] = Unit {0}
IsAscending ((k, message) ∷ m) = AllAbove k m × IsAscending m

AllAbove-trans : (j k : ℕ) (m : List (ℕ × UserVm)) → j < k → AllAbove k m → AllAbove j m
AllAbove-trans j k [] h a = tt
AllAbove-trans j k ((i, message) ∷ m) h a = (omega (arith, a.0), AllAbove-trans j k m h a.1)

AllAbove-append_vm :
    (j k : ℕ) (vm : VmOfRequest) (m : List (ℕ × UserVm))
    → j < k
    → AllAbove j m
    → AllAbove j (append_vm k vm m)
unfolding append_vm
AllAbove-append_vm j k vm [] h a = (h, tt)
AllAbove-append_vm j k vm ((i, message) ∷ m) h a = elim (Bool-cases (ltb k i)) [
  | inl t ↦ rw t (h, a)
  | inr f ↦ elim (Bool-cases (k == i)) [
    | inl e ↦ rw (f, e) a
    | inr n ↦ rw (f, n) (a.0, AllAbove-append_vm j k vm m h a.1)
  ]
]

append_vm-IsAscending :
    (k : ℕ) (vm : VmOfRequest) (m : List (ℕ × UserVm))
    → IsAscending m
    → IsAscending (append_vm k vm m)
unfolding append_vm
append_vm-IsAscending k vm [] a = (tt, tt)
append_vm-IsAscending k vm ((i, message) ∷ m) a = elim (Bool-cases (ltb k i)) [
  | inl t ↦ rw t ((ground arith, AllAbove-trans k i m (ground arith) a.0), a)
  | inr f ↦ elim (Bool-cases (k == i)) [
    | inl e ↦ rw (f, e) a
    | inr n ↦
        rw (f, n) (AllAbove-append_vm i k vm m (ground arith) a.0, append_vm-IsAscending k vm m a.1)
  ]
]

vms_for_above : (q : ℕ) (m : List (ℕ × UserVm)) → AllAbove q m → vms_for q m ≡ []
vms_for_above q [] a = refl
vms_for_above q ((k, message) ∷ m) a = ground (arith, a.0, vms_for_above q m a.1)

vms_for-append_vm :
    (q k : ℕ) (vm : VmOfRequest) (m : List (ℕ × UserVm))
    → IsAscending m
    → vms_for q (append_vm k vm m) ≡ (if q == k then vms_for q m ++ vm ∷ [] else vms_for q m)
unfolding append_vm
vms_for-append_vm q k vm [] a = ground arith
vms_for-append_vm q k vm ((i, message) ∷ m) a = elim (Bool-cases (ltb k i)) [
  | inl t ↦ rw t (elim (Bool-cases (q == k)) [
    | inl e ↦
        let above : AllAbove q ((i, message) ∷ m) =
          (ground arith, AllAbove-trans q i m (ground arith) a.0) in
        rw (e, vms_for_above q ((i, message) ∷ m) above) refl
    | inr n ↦ rw n refl
  ])
  | inr f ↦ elim (Bool-cases (k == i)) [
    | inl e ↦ rw (f, e) (ground arith)
    | inr n ↦ rw (f, n) (ground (arith, vms_for-append_vm q k vm m a.1))
  ]
]

-- A VM as it was asked for, now accepted at a URL.
pub record IsAccepted (vm after : VmOfRequest) : Type 0 where
  pub same_type : after.vm_type ≡ vm.vm_type
  pub same_id : after.vm_id ≡ vm.vm_id
  pub now_accepted : after.state ≡ accepted

abbrev pub AllAccepted : List VmOfRequest → List VmOfRequest → Type 0
AllAccepted [] [] = Unit {0}
AllAccepted [] (v ∷ vs) = ⊥
AllAccepted (u ∷ us) [] = ⊥
AllAccepted (u ∷ us) (v ∷ vs) = IsAccepted u v × AllAccepted us vs

-- The node of each record has a name.
abbrev pub AllNamed : DcManager → List NodeVmRecord → Type 0
AllNamed dc [] = Unit {0}
AllNamed dc (r ∷ rs) = ((url : Name) × (url_of dc r ≡ ok url)) × AllNamed dc rs

dispatch_loop_lem :
    (now : ℕ) (dc : DcManager) (rs : List NodeVmRecord) (vms : List VmOfRequest)
    (m : List (ℕ × UserVm))
    → AllNamed dc rs
    → length vms ≡ length rs
    → IsAscending m
    → (after : List VmOfRequest) × (sent : List (ℕ × UserVm)) × (dispatch_loop now dc rs vms m
        ≡ ok (after, sent))
      × AllAccepted vms after
      × IsAscending sent
      × ((q : ℕ) → vms_for q sent ≡ vms_for q m ++ placed_at q rs after)
unfolding dispatch_loop
dispatch_loop_lem now dc [] [] m named same a = ([], m, refl, tt, a, λ q. sym (append-nil _))
dispatch_loop_lem now dc [] (v ∷ vs) m named same a = absurd (omega arith)
dispatch_loop_lem now dc (r ∷ rs) [] m named same a = absurd (omega arith)
dispatch_loop_lem now dc (r ∷ rs) (v ∷ vs) m ((url, u), named) same a =
    let vm = accept_vm now url v in
    let (after, sent, run, all, ascending, at) =
      dispatch_loop_lem now dc rs vs (append_vm r.node_index vm m) named (omega arith)
        (append_vm-IsAscending r.node_index vm m a) in
    (
      vm ∷ after,
      sent,
      rw (u, run) refl,
      (record { same_type = refl; same_id = refl; now_accepted = refl }, all),
      ascending,
      λ q.
          at q
          ∙ ap (λ l. l ++ placed_at q rs after) (vms_for-append_vm q r.node_index vm m a)
          ∙ place q vm after,
    )
  where
    place :
        (q : ℕ) (vm : VmOfRequest) (after : List VmOfRequest)
        → (if q == r.node_index then vms_for q m ++ vm ∷ [] else vms_for q m)
            ++ placed_at q rs after
          ≡ vms_for q m ++ placed_at q (r ∷ rs) (vm ∷ after)
    place q vm after = elim (Bool-cases (q == r.node_index)) [
      | inl e ↦ rw e (append_assoc (vms_for q m) (vm ∷ []) (placed_at q rs after))
      | inr n ↦ rw n refl
    ]

-- With one VM for each record, and a name for each of their nodes, the request is met: every VM is
-- accepted, and the messages that are sent, at most one to a node, hold for each node exactly the VMs
-- that were placed on it, in order.
pub dispatch_vms_lem :
    (now : ℕ) (dc : DcManager) (records : List NodeVmRecord) (request : UserVm)
    → AllNamed dc records
    → length request.vms ≡ length records
    → (after : List VmOfRequest) × (sent : List (ℕ × UserVm)) × (dispatch_vms now records request dc
        ≡ ok (record request { vms = after }, to_nodes sent))
      × AllAccepted request.vms after
      × IsAscending sent
      × ((q : ℕ) → vms_for q sent ≡ placed_at q records after)
unfolding dispatch_vms
dispatch_vms_lem now dc records request named same =
    let (after, sent, run, all, ascending, at) =
      dispatch_loop_lem now dc records request.vms [] named same tt in
    (after, sent, rw run refl, all, ascending, at)
