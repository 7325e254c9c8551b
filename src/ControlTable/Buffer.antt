-- ===== src/ControlTable/Buffer.antt =====
-- The calls that wait for a suspended VM, and the names of the VMs (src/s2f/os/control/VmControlTable.cc).
use simcan2fog.Prelude.{
  ℕ, ◌<◌, ◌≡◌, ◌≢◌, refl, sym, ap, ◌∙◌, String, Option, some, List, [], ◌∷◌, ◌++◌, get_elem?,
  length, Outcome, ok, failed_assert, or_fault, check, ◌>>=◌, lt→ltb, insert, string_key, nat_key,
  runtime_error, get_elem?-set_self, set-set, lookup-insert, lookup-insert_ne,
}
use simcan2fog.ControlTable.{
  Syscall, VmState, vm_running, vm_suspended, VmControlBlock, is_running, is_suspended,
  VmControlTable, put_vm,
}
use simcan2fog.ControlTable.Operations.{
  suspend_vm, buffer_call, resume_vm, create_mapping, get_global_vm_id, get_local_vm_id,
}
use simcan2fog.ControlTable.Slots.{entry-at}

-- Calls that come one after another.
pub buffer_all : Option ℕ → List Syscall → VmControlTable → Outcome VmControlTable
buffer_all id [] t = ok t
buffer_all id (c ∷ calls) t = buffer_call t id c >>= buffer_all id calls

append_assoc :
    (q : List Syscall) (c : Syscall) (calls : List Syscall)
    → (q ++ c ∷ []) ++ calls ≡ q ++ c ∷ calls
append_assoc [] c calls = refl
append_assoc (d ∷ q) c calls = ap (◌∷◌ d) (append_assoc q c calls)

append_nil : (q : List Syscall) → q ++ [] ≡ q
append_nil [] = refl
append_nil (d ∷ q) = ap (◌∷◌ d) (append_nil q)

-- The entry with the state and the buffer given.
abbrev pub with_buffer :
    VmControlTable → ℕ → VmControlBlock → VmState → List Syscall → VmControlTable
with_buffer t i b s q = put_vm t i (record b { state = s; call_buffer = q })

buffer_call-with :
    (t : VmControlTable) (i : ℕ) (b : VmControlBlock) (q : List Syscall) (c : Syscall)
    → get_elem? t.vms i ≡ some b
    → buffer_call (with_buffer t i b vm_suspended q) (some i) c
      ≡ ok (with_buffer t i b vm_suspended (q ++ c ∷ []))
unfolding buffer_call
buffer_call-with t i b q c h =
    let s = record b { state = vm_suspended; call_buffer = q } in
    ap
      (λ m. m >>= λ e. check (is_suspended e.1.state) failed_assert >>= λ _.
        ok (put_vm (put_vm t i s) e.0 (record e.1 { call_buffer = e.1.call_buffer ++ c ∷ [] })))
      (entry-at (put_vm t i s) i s (get_elem?-set_self t.vms i b s h))
    ∙ ap (λ vms. ok (record t { vms = vms }))
        (set-set t.vms i s (record s { call_buffer = q ++ c ∷ [] }))

buffer_all-with :
    (t : VmControlTable) (i : ℕ) (b : VmControlBlock) (q calls : List Syscall)
    → get_elem? t.vms i ≡ some b
    → buffer_all (some i) calls (with_buffer t i b vm_suspended q)
      ≡ ok (with_buffer t i b vm_suspended (q ++ calls))
unfolding buffer_all
buffer_all-with t i b q [] h = ap (λ r. ok (with_buffer t i b vm_suspended r)) (sym (append_nil q))
buffer_all-with t i b q (c ∷ calls) h =
    ap (λ m. m >>= buffer_all (some i) calls) (buffer_call-with t i b q c h)
    ∙ buffer_all-with t i b (q ++ c ∷ []) calls h
    ∙ ap (λ r. ok (with_buffer t i b vm_suspended r)) (append_assoc q c calls)

suspend_vm-running :
    (t : VmControlTable) (i : ℕ) (b : VmControlBlock)
    → get_elem? t.vms i ≡ some b
    → b.state ≡ vm_running
    → suspend_vm t (some i) ≡ ok (with_buffer t i b vm_suspended b.call_buffer)
unfolding suspend_vm
suspend_vm-running t i b h running =
    ap
      (λ m. m >>= λ e. check (is_running e.1.state) failed_assert >>= λ _.
        ok (put_vm t e.0 (record e.1 { state = vm_suspended })))
      (entry-at t i b h)
    ∙ ap
        (λ s. check (is_running s) failed_assert >>= λ _.
          ok (put_vm t i (record b { state = vm_suspended })))
        running

resume_vm-with :
    (t : VmControlTable) (i : ℕ) (b : VmControlBlock) (q : List Syscall)
    → get_elem? t.vms i ≡ some b
    → resume_vm (with_buffer t i b vm_suspended q) (some i) ≡ ok (with_buffer t i b vm_running q, q)
unfolding resume_vm
resume_vm-with t i b q h =
    let s = record b { state = vm_suspended; call_buffer = q } in
    ap
      (λ m. m >>= λ e. check (is_suspended e.1.state) failed_assert >>= λ _.
        ok (put_vm (put_vm t i s) e.0 (record e.1 { state = vm_running }), e.1.call_buffer))
      (entry-at (put_vm t i s) i s (get_elem?-set_self t.vms i b s h))
    ∙ ap (λ vms. ok (record t { vms = vms }, q))
        (set-set t.vms i s (record s { state = vm_running }))

-- A running VM can be suspended; any calls can then be buffered; and resuming it gives back all of
-- them in the order of their arrival, behind what the buffer held before, with the VM running again.
pub resume_after_buffering :
    (t : VmControlTable) (i : ℕ) (b : VmControlBlock) (calls : List Syscall)
    → get_elem? t.vms i ≡ some b
    → b.state ≡ vm_running
    → (suspend_vm t (some i) >>= buffer_all (some i) calls >>= λ u. resume_vm u (some i))
      ≡ ok (with_buffer t i b vm_running (b.call_buffer ++ calls), b.call_buffer ++ calls)
resume_after_buffering t i b calls h running =
    ap (λ m. m >>= buffer_all (some i) calls >>= λ u. resume_vm u (some i))
      (suspend_vm-running t i b h running)
    ∙ ap (λ m. m >>= λ u. resume_vm u (some i)) (buffer_all-with t i b b.call_buffer calls h)
    ∙ resume_vm-with t i b (b.call_buffer ++ calls) h

-- A mapping is found in both directions, and another name keeps what it had.
pub create_mapping_lem :
    (t : VmControlTable) (global other : String) (i : ℕ)
    → i < length t.vms
    → other ≢ global
    → (u : VmControlTable) × (create_mapping t global (some i) ≡ ok u)
      × (get_local_vm_id u global ≡ ok i)
      × (get_global_vm_id u i ≡ ok global)
      × (get_local_vm_id u other ≡ get_local_vm_id t other)
unfolding create_mapping get_local_vm_id get_global_vm_id
create_mapping_lem t global other i h n = (
  _,
  ap
      (λ c. (check c failed_assert >>= λ _. ok i) >>= λ j. ok (record t {
        global_to_local = insert global j t.global_to_local;
        local_to_global = insert j global t.local_to_global;
      }))
      (lt→ltb i (length t.vms) h),
  ap (λ o. or_fault o runtime_error) (lookup-insert global i t.global_to_local),
  ap (λ o. or_fault o runtime_error) (lookup-insert i global t.local_to_global),
  ap (λ o. or_fault o runtime_error) (lookup-insert_ne other global i t.global_to_local n),
)
