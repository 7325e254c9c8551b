-- ===== src/Hypervisor/Suspension.antt =====
-- The system calls of a suspended VM and the answer to the offer to extend it
-- (src/s2f/os/hypervisors/Hypervisor.cc).
use mathlib.Core.List.{append-nil, append_assoc}
use simcan2fog.Prelude.{
  ℕ, ◌≡◌, refl, subst, sym, ap, ◌∙◌, String, Bool, true, false, some, List, [], ◌∷◌, ◌++◌,
  get_elem?, get_elem?-set_self, set-set, set-get_elem?, Outcome, ok, fault, runtime_error,
  failed_assert, ◌>>=◌, check,
}
use simcan2fog.ControlTable.{
  Syscall, vm_suspended, vm_running, VmControlBlock, VmControlTable, put_vm, is_suspended,
}
use simcan2fog.ControlTable.Operations.{
  entry, vm_is_suspended, buffer_call, resume_vm, get_local_vm_id,
}
use simcan2fog.ControlTable.Slots.{entry-at}
use simcan2fog.Hypervisor.{
  Hypervisor, Event, to_app, with_table, buffered, run_syscall, process_syscall_start,
  send_or_buffer_to_app, process_syscall_end, is_progress,
}
use simcan2fog.Hypervisor.Commands.{drain, handle_vm_extension}

-- The entry `i` is suspended.
pub record IsSuspended (t : VmControlTable) (i : ℕ) : Type 0 where
  pub block : VmControlBlock
  pub there : get_elem? t.vms i ≡ some block
  pub suspended : block.state ≡ vm_suspended

module _ (t : VmControlTable) (i : ℕ) (s : IsSuspended t i) where
  vm_is_suspended-true : vm_is_suspended t (some i) ≡ ok true
  unfolding vm_is_suspended
  vm_is_suspended-true =
      ap (λ m. m >>= λ e. ok (is_suspended e.1.state)) (entry-at t i s.block s.there)
      ∙ ap (λ c. ok (is_suspended c)) s.suspended

  -- The table with the call behind the others.
  abbrev pub waiting : Syscall → VmControlTable
  waiting call = put_vm t i (record s.block { call_buffer = s.block.call_buffer ++ call ∷ [] })

  buffer_call-waiting : (call : Syscall) → buffer_call t (some i) call ≡ ok (waiting call)
  unfolding buffer_call
  buffer_call-waiting call =
      ap
        (λ m. m >>= λ e. check (is_suspended e.1.state) failed_assert >>= λ _.
          ok (put_vm t e.0 (record e.1 { call_buffer = e.1.call_buffer ++ call ∷ [] })))
        (entry-at t i s.block s.there)
      ∙ ap (λ c. check (is_suspended c) failed_assert >>= λ _. ok (waiting call)) s.suspended

  buffered-waiting :
      (call : Syscall) → call.vm_id ≡ some i → buffered call t ≡ ok (waiting call, [])
  buffered-waiting call e =
      ap (λ id. buffer_call t id call >>= λ u. ok (u, [])) e
      ∙ ap (λ m. m >>= λ u. ok (u, [])) (buffer_call-waiting call)

  -- The test that processSyscallStart and sendOrBufferToApp share.
  abbrev gate :
      (ℕ → Outcome (VmControlTable × List Event))
      → Syscall
      → ℕ × VmControlBlock
      → Bool
      → Outcome (VmControlTable × List Event)
  gate run call e c = elim c [ true ↦ buffered call t | false ↦ run e.0 ]

  gate-waiting :
      (run : ℕ → Outcome (VmControlTable × List Event)) (call : Syscall)
      → call.vm_id ≡ some i
      → (entry t call.vm_id >>= λ (e : ℕ × VmControlBlock).
          vm_is_suspended t call.vm_id >>= gate run call e)
        ≡ ok (waiting call, [])
  gate-waiting run call h =
      ap (λ id. entry t id >>= λ e. vm_is_suspended t id >>= gate run call e) h
      ∙ ap (λ m. m >>= λ e. vm_is_suspended t (some i) >>= gate run call e)
          (entry-at t i s.block s.there)
      ∙ ap (λ m. m >>= gate run call (i, s.block)) vm_is_suspended-true
      ∙ buffered-waiting call h

  start-waiting :
      (now : ℕ) (call : Syscall)
      → call.vm_id ≡ some i
      → process_syscall_start now call t ≡ ok (waiting call, [])
  unfolding process_syscall_start
  start-waiting now call h = gate-waiting (λ j. run_syscall now j call t) call h

  -- An answer to a call, or an update of the scheduler on one that is complete.
  end-waiting :
      (call : Syscall)
      → call.vm_id ≡ some i
      → is_progress call ≡ false
      → process_syscall_end call t ≡ ok (waiting (record call { is_response = true }), [])
  unfolding process_syscall_end send_or_buffer_to_app
  end-waiting call h e =
      let answer = record call { is_response = true } in
      ap
        (λ c. elim c as (λ _. Outcome (VmControlTable × List Event)) [
          | true ↦ ok (t, [])
          | false ↦ send_or_buffer_to_app answer t
        ])
        e
      ∙ gate-waiting (λ j. ok (t, to_app j answer ∷ [])) answer h

-- What reaches the hypervisor from a VM: a call, and what comes back for one.
pub data Turn : Type 0 where
  starts ends : Syscall → Turn

abbrev pub call_of : Turn → Syscall
call_of (starts call) = call
call_of (ends call) = call

abbrev pub perform : ℕ → Turn → VmControlTable → Outcome (VmControlTable × List Event)
perform now (starts call) t = process_syscall_start now call t
perform now (ends call) t = process_syscall_end call t

abbrev pub perform_all : ℕ → List Turn → VmControlTable → Outcome (VmControlTable × List Event)
perform_all now [] t = ok (t, [])
perform_all now (x ∷ xs) t =
    perform now x t >>= λ r. perform_all now xs r.0 >>= (λ rest. ok (rest.0, r.1 ++ rest.1))

-- What has to be kept for later: every call, and what comes back, except from the scheduler for a
-- request that is not complete.
abbrev pub unless_incomplete : Bool → Bool → Syscall → List Syscall
unless_incomplete true false call = []
unless_incomplete true true call = record call { is_response = true } ∷ []
unless_incomplete false done call = record call { is_response = true } ∷ []

abbrev pub to_keep : Turn → List Syscall
to_keep (starts call) = call ∷ []
to_keep (ends call) = unless_incomplete call.is_exec_cpu call.is_completed call

abbrev pub all_to_keep : List Turn → List Syscall
all_to_keep [] = []
all_to_keep (x ∷ xs) = to_keep x ++ all_to_keep xs

abbrev pub AllOfVm : ℕ → List Turn → Type 0
AllOfVm i [] = Unit {0}
AllOfVm i (x ∷ xs) = ((call_of x).vm_id ≡ some i) × AllOfVm i xs

-- The table with these calls behind those that wait.
abbrev pub buffering : (t : VmControlTable) (i : ℕ) → VmControlBlock → List Syscall → VmControlTable
buffering t i b calls = put_vm t i (record b { call_buffer = b.call_buffer ++ calls })

buffering-none : (t : VmControlTable) (i : ℕ) (s : IsSuspended t i) → buffering t i s.block [] ≡ t
buffering-none t i s =
    ap (λ calls. put_vm t i (record s.block { call_buffer = calls }))
      (append-nil s.block.call_buffer)
    ∙ ap (λ blocks. record t { vms = blocks }) (set-get_elem? t.vms i s.block s.there)

still_suspended :
    (t : VmControlTable) (i : ℕ) (s : IsSuspended t i) (calls : List Syscall)
    → IsSuspended (buffering t i s.block calls) i
still_suspended t i s calls = record {
  block = record s.block { call_buffer = s.block.call_buffer ++ calls };
  there = get_elem?-set_self t.vms i s.block _ s.there;
  suspended = s.suspended;
}

buffering-buffering :
    (t : VmControlTable) (i : ℕ) (s : IsSuspended t i) (calls more : List Syscall)
    → buffering (buffering t i s.block calls) i (still_suspended t i s calls).block more
      ≡ buffering t i s.block (calls ++ more)
unfolding still_suspended
buffering-buffering t i s calls more =
    ap (λ blocks. record t { vms = blocks }) (set-set t.vms i _ _)
    ∙ ap (λ waits. put_vm t i (record s.block { call_buffer = waits }))
        (append_assoc s.block.call_buffer calls more)

perform-buffering :
    (t : VmControlTable) (i now : ℕ) (s : IsSuspended t i) (x : Turn)
    → (call_of x).vm_id ≡ some i
    → perform now x t ≡ ok (buffering t i s.block (to_keep x), [])
unfolding process_syscall_end
perform-buffering t i now s (starts call) h = start-waiting t i s now call h
perform-buffering t i now s (ends call) h = by_kind call.is_exec_cpu call.is_completed refl refl
  where
    goes_on :
        process_syscall_end call t
        ≡ (elim (is_progress call) as (λ _. Outcome (VmControlTable × List Event)) [
          | true ↦ ok (t, [])
          | false ↦ send_or_buffer_to_app (record call { is_response = true }) t
        ])
    goes_on = refl

    by_kind :
        (exec done : Bool)
        → call.is_exec_cpu ≡ exec
        → call.is_completed ≡ done
        → process_syscall_end call t
          ≡ ok (buffering t i s.block (unless_incomplete exec done call), [])
    by_kind true false is_exec is_done =
        goes_on ∙ rw (is_exec, is_done) (ap (λ u. ok (u, [])) (sym (buffering-none t i s)))
    by_kind true true is_exec is_done = end-waiting t i s call h (rw (is_exec, is_done) refl)
    by_kind false done is_exec is_done = end-waiting t i s call h (rw is_exec refl)

-- While a VM is suspended, whatever calls it makes and whatever comes back for them, in any order,
-- nothing is sent. All of it waits behind what waited already, in order, but for updates of the
-- scheduler on requests that are not complete, which are dropped. Nothing else in the table changes.
pub suspended_calls_wait :
    (t : VmControlTable) (i now : ℕ) (xs : List Turn) (s : IsSuspended t i)
    → AllOfVm i xs
    → perform_all now xs t ≡ ok (buffering t i s.block (all_to_keep xs), [])
suspended_calls_wait t i now [] s a = ap (λ u. ok (u, [])) (sym (buffering-none t i s))
suspended_calls_wait t i now (x ∷ xs) s (h, a) =
    ap (λ o. o >>= λ r. perform_all now xs r.0 >>= (λ rest. ok (rest.0, r.1 ++ rest.1)))
      (perform-buffering t i now s x h)
    ∙ ap (λ o. o >>= λ rest. ok (rest.0, rest.1))
        (suspended_calls_wait (buffering t i s.block (to_keep x)) i now xs
          (still_suspended t i s (to_keep x)) a)
    ∙ ap (λ u. ok (u, [])) (buffering-buffering t i s (to_keep x) (all_to_keep xs))

-- How accepting the extension ends, by the calls that wait.
abbrev pub Accepted :
    Hypervisor → ℕ → VmControlBlock → List Syscall → Outcome (Hypervisor × List Event) → Type 0
Accepted h i b [] r = r ≡ fault runtime_error
Accepted h i b (c ∷ calls) r =
    r ≡ ok (with_table h (put_vm h.table i (record b { state = vm_running })), [])

resume_vm-suspended :
    (t : VmControlTable) (i : ℕ) (s : IsSuspended t i)
    → resume_vm t (some i)
      ≡ ok (put_vm t i (record s.block { state = vm_running }), s.block.call_buffer)
unfolding resume_vm
resume_vm-suspended t i s =
    ap
      (λ m. m >>= λ e. check (is_suspended e.1.state) failed_assert >>= λ _.
        ok (put_vm t e.0 (record e.1 { state = vm_running }), e.1.call_buffer))
      (entry-at t i s.block s.there)
    ∙ ap
        (λ c. check (is_suspended c) failed_assert >>= λ _.
          ok (put_vm t i (record s.block { state = vm_running }), s.block.call_buffer))
        s.suspended

-- The accepting branch once the VM has been resumed.
abbrev after_resume :
    ℕ → Hypervisor → Outcome (VmControlTable × List Syscall) → Outcome (Hypervisor × List Event)
after_resume now h m = m >>= drain now 1 >>= λ r. ok (with_table h r.0, r.1)

drained-Accepted :
    (h : Hypervisor) (now i : ℕ) (b : VmControlBlock) (calls : List Syscall)
    → Accepted h i b calls
        (after_resume now h (ok (put_vm h.table i (record b { state = vm_running }), calls)))
unfolding drain
drained-Accepted h now i b [] = refl
drained-Accepted h now i b (c ∷ calls) = refl

handle_vm_extension_resumes :
    (h : Hypervisor) (now i : ℕ) (global : String)
    → get_local_vm_id h.table global ≡ ok i
    → handle_vm_extension now global true h ≡ after_resume now h (resume_vm h.table (some i))
unfolding handle_vm_extension
handle_vm_extension_resumes h now i global e =
    ap (λ m. m >>= λ j. after_resume now h (resume_vm h.table (some j))) e

-- Accepting the extension of a suspended VM with calls waiting makes it run again with all of
-- them still in the buffer and nothing sent; with none waiting it ends in an error.
pub handle_vm_extension-Accepted :
    (h : Hypervisor) (now i : ℕ) (global : String) (s : IsSuspended h.table i)
    → get_local_vm_id h.table global ≡ ok i
    → Accepted h i s.block s.block.call_buffer (handle_vm_extension now global true h)
handle_vm_extension-Accepted h now i global s e =
    subst (Accepted h i s.block s.block.call_buffer)
      (sym (
        handle_vm_extension_resumes h now i global e
        ∙ ap (after_resume now h) (resume_vm-suspended h.table i s)))
      (drained-Accepted h now i s.block s.block.call_buffer)
