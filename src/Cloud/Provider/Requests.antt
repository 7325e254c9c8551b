-- ===== src/Cloud/Provider/Requests.antt =====
-- How the cloud provider answers a request, and what ends a wait in its queue (CloudProvider.cc).
use simcan2fog.Prelude.{
  ℕ, ◌≡◌, ◌≢◌, refl, ap, ◌∙◌, ◌⊎◌, inl, inr, Bool, true, false, Option, none, some, List, [], ◌∷◌,
  ◌++◌, Name, Outcome, ok, ◌>>=◌, ==_iff, ◌==◌, Bool-cases,
}
use simcan2fog.Cloud.Sorted.{All}
use simcan2fog.Cloud.NodeTable.{NodeTable, add_or_update_node}
use simcan2fog.Cloud.Provider.{
  UserVm, QueueElement, Action, send, CloudProvider, UserType, select_node, rejection, forwarded,
  answer, skips, has_to_wait, answer_unless, handle_vm_request, erase_request, expiry,
  handle_subscription_timeout, handle_node_update,
}
use simcan2fog.Cloud.Provider.Dispatching.{
  AllKnown, AllWaitingKnown, IsServing, Keeps, IsStuck, Departs, departures, elements,
  select_node-Keeps, attempt_dispatching_lem,
}

-- The queue without the first element of the request.
erase_request-front :
    (pointer : ℕ) (front : List QueueElement) (e : QueueElement) (back : List QueueElement)
    → All (λ e. e.request.pointer ≢ pointer) front
    → e.request.pointer ≡ pointer
    → erase_request pointer (front ++ e ∷ back) ≡ some (e.request, front ++ back)
unfolding erase_request
erase_request-front pointer [] e back a h = rw ((==_iff e.request.pointer pointer).1 h) refl
erase_request-front pointer (f ∷ front) e back a h =
    elim (Bool-cases (f.request.pointer == pointer)) [
      | inl t ↦ absurd (a.0 ((==_iff f.request.pointer pointer).0 t))
      | inr n ↦ rw (n, erase_request-front pointer front e back a.1 h) refl
    ]

-- The end of a wait takes exactly its request out of the queue, whatever stands before and behind it,
-- and sends it back to its user as timed out.
pub handle_subscription_timeout_lem :
    (now : ℕ) (p : CloudProvider) (front : List QueueElement) (e : QueueElement)
    (back : List QueueElement)
    → p.queue ≡ front ++ e ∷ back
    → All (λ f. f.request.pointer ≢ e.request.pointer) front
    → handle_subscription_timeout now e.request.pointer p
      ≡ ok (record p { queue = front ++ back }, send (expiry now e.request) ∷ [])
unfolding handle_subscription_timeout
handle_subscription_timeout_lem now p front e back split a =
    rw (split, erase_request-front e.request.pointer front e back a refl) refl

module _ (search_vm : Name → Option ℕ) (search_user : Name → Option UserType) (default_zone : Name)
    (dispatch_priority : Bool) where
  abbrev handle : UserVm → CloudProvider → Outcome (CloudProvider × List Action)
  handle = handle_vm_request search_vm search_user default_zone dispatch_priority

  abbrev select : UserVm → NodeTable → Outcome (Option Name × NodeTable)
  select = select_node search_vm default_zone

  -- Refused: the provider stays as it is and the message goes back. It has to wait, or no node was found.
  abbrev pub Refuses :
      CloudProvider → UserVm → Bool → Outcome (CloudProvider × List Action) → Type 0
  Refuses p request waits run =
      (run ≡ ok (p, send (rejection request) ∷ []))
      × ((waits ≡ true) ⊎ (select request p.table ≡ ok (none, p.table)))

  -- Forwarded: it does not have to wait, and goes to the topic that selectNode gives.
  abbrev pub Forwards :
      CloudProvider → UserVm → Bool → Outcome (CloudProvider × List Action) → Type 0
  Forwards p request waits run =
      (topic : Name) × (u : NodeTable) × (waits ≡ false)
      × (run ≡ ok (record p { table = u }, send (forwarded topic request) ∷ []))
      × (select request p.table ≡ ok (some topic, u))
      × IsServing search_vm default_zone u

  -- Over a table that serves (it has the default zone, the ids in its zones and the places of its topics
  -- lie in it, and its nodes have fewer than 2^31 cores), a request of known types, where the type of
  -- its user can be told, is answered by exactly one message. It is refused, and nothing changes, if it
  -- has to wait or no node is found, and else forwarded to the topic that selectNode gives.
  pub handle_vm_request-Answers :
      (p : CloudProvider) (request : UserVm) (skip : Bool)
      → IsServing search_vm default_zone p.table
      → AllKnown search_vm default_zone request.vm_types
      → skips search_vm search_user default_zone dispatch_priority request ≡ ok skip
      → Refuses p request
          (has_to_wait p.queue skip)
          (handle_vm_request search_vm search_user default_zone dispatch_priority request p)
        ⊎ Forwards p request
            (has_to_wait p.queue skip)
            (handle_vm_request search_vm search_user default_zone dispatch_priority request p)
  unfolding handle_vm_request
  handle_vm_request-Answers p request skip s known told =
      elim (Bool-cases (has_to_wait p.queue skip)) [
        | inl waits ↦ inl (
          ap
                (λ m. m >>= λ k.
                  answer_unless search_vm search_user default_zone dispatch_priority p request
                    (has_to_wait p.queue k))
                told
              ∙ ap (answer_unless search_vm search_user default_zone dispatch_priority p request)
                  waits,
          inl waits,
        )
        | inr free ↦
            let begin : handle request p ≡ (select request p.table >>= answer p request) =
              ap
                (λ m. m >>= λ k.
                  answer_unless search_vm search_user default_zone dispatch_priority p request
                    (has_to_wait p.queue k))
                told
              ∙ ap (answer_unless search_vm search_user default_zone dispatch_priority p request)
                  free in
            let (o, run, kept) = select_node-Keeps search_vm default_zone request p.table s known in
            selected free begin o run kept
      ]
    where
      selected :
          has_to_wait p.queue skip ≡ false
          → handle request p ≡ (select request p.table >>= answer p request)
          → (o : Option Name × NodeTable) → select request p.table ≡ ok o
          → Keeps search_vm default_zone p.table o
          → Refuses p request (has_to_wait p.queue skip) (handle request p)
            ⊎ Forwards p request (has_to_wait p.queue skip) (handle request p)
      selected free begin (none, u) run kept = inl (
        begin
            ∙ ap (λ m. m >>= answer p request) run
            ∙ ap (λ v. ok (record p { table = v }, send (rejection request) ∷ [])) kept,
        inr (run ∙ ap (λ v. ok (none, v)) kept),
      )
      selected free begin (some topic, u) run kept =
          inr (topic, u, free, begin ∙ ap (λ m. m >>= answer p request) run, run, kept)

  -- Whenever the update of a node leaves a table that serves, and the types of all waiting VMs are known,
  -- the requests that can leave do, from the front of the queue and in order, until it is empty or
  -- selectNode finds no node for its first request. Each has its timer cancelled and goes to the topic
  -- that selectNode gives for it over the table that those before it have left.
  pub handle_node_update-LeavesFront :
      (topic zone : Name) (cores ram disk id : ℕ) (p : CloudProvider) (t : NodeTable)
      → add_or_update_node topic zone cores ram disk p.table ≡ ok (id, t)
      → IsServing search_vm default_zone t
      → AllWaitingKnown search_vm default_zone p.queue
      → (u : NodeTable) × (rest : List QueueElement) × (front : List (QueueElement × Name))
        × (handle_node_update search_vm default_zone topic zone cores ram disk p
            ≡ ok (record p { table = u; queue = rest }, departures search_vm default_zone front))
        × (p.queue ≡ elements search_vm default_zone front ++ rest)
        × Departs search_vm default_zone t front u
        × IsStuck search_vm default_zone rest u
  unfolding handle_node_update
  handle_node_update-LeavesFront topic zone cores ram disk id p t stored s known =
      let (u, rest, front, run, split, departs, stuck, su) =
        attempt_dispatching_lem search_vm default_zone p.queue t s known in
      (u, rest, front, rw (stored, run) refl, split, departs, stuck)
