-- ===== src/Trace/Stack.antt =====
-- The trace is a stack of nodes, each a stack of modules, each a stack of requests
-- (src/s2f/messages/SIMCAN_Message.cc).
use simcan2fog.Prelude.{
  ℕ, ◌≡◌, refl, sym, ap, ◌∙◌, ◌<◌, List, [], ◌∷◌, ◌++◌, Outcome, ok, Fault, runtime_error,
  undefined, ◌>>=◌, ◌%◌, u32_mod, >>=-ok, arith,
}
use simcan2fog.Trace.{
  TraceComponent, NodeTrace, back, pop_back, at_back, last_module, component, add_module_to_trace,
  remove_last_module_from_trace, add_request_to_trace, remove_last_request_from_trace,
  get_last_gate_id, get_last_module_id, get_current_request,
}

module _ {ℓ} {A : Type ℓ} (e : Fault) where
  pop_back-append : (xs : List A) (x : A) → pop_back e (xs ++ x ∷ []) ≡ ok xs
  pop_back-append [] x = refl
  pop_back-append (y ∷ []) x = refl
  pop_back-append (y ∷ z ∷ xs) x =
      ap (λ m. m >>= λ rest. ok (y ∷ rest)) (pop_back-append (z ∷ xs) x)

  back-append : (xs : List A) (x : A) → back e (xs ++ x ∷ []) ≡ ok x
  back-append [] x = refl
  back-append (y ∷ []) x = refl
  back-append (y ∷ z ∷ xs) x = back-append (z ∷ xs) x

-- A change `f` of the last element that `g` undoes.
module _ {ℓ} {A : Type ℓ} (e : Fault) (f g : A → Outcome A) where
  -- The change of `xs` that puts `b` at the end.
  abbrev Changed : List A → A → Type ℓ
  Changed xs b =
      (ys : List A) × (at_back e f xs ≡ ok ys) × (at_back e g ys ≡ ok xs) × (back e ys ≡ ok b)

  cons-Changed : (x y : A) (xs : List A) (b : A) → Changed (y ∷ xs) b → Changed (x ∷ y ∷ xs) b
  cons-Changed x y xs b ([], h, k, l) = absurd (cc)
  cons-Changed x y xs b (z ∷ ys, h, k, l) = (
    x ∷ z ∷ ys,
    ap (λ m. m >>= λ rest. ok (x ∷ rest)) h,
    ap (λ m. m >>= λ rest. ok (x ∷ rest)) k,
    l,
  )

  change_back : (xs : List A) (a b : A) → back e xs ≡ ok a → f a ≡ ok b → g b ≡ ok a → Changed xs b
  change_back [] a b h k l = cc
  change_back (x ∷ []) a b h k l =
      let same : x ≡ a = cc in
      (
        b ∷ [],
        ap (λ m. m >>= λ y. ok (y ∷ [])) (ap f same ∙ k),
        ap (λ m. m >>= λ y. ok (y ∷ [])) l ∙ ap (λ c. ok (c ∷ [])) (sym same),
        refl,
      )
  change_back (x ∷ y ∷ xs) a b h k l = cons-Changed x y xs b (change_back (y ∷ xs) a b h k l)

abbrev push_request : ℕ → TraceComponent → Outcome TraceComponent
push_request request m = ok (record m { req_sequence = m.req_sequence ++ request ∷ [] })

abbrev drop_request : TraceComponent → Outcome TraceComponent
drop_request m =
    pop_back undefined m.req_sequence >>= λ requests. ok (record m { req_sequence = requests })

abbrev in_node :
    (List TraceComponent → Outcome (List TraceComponent)) → NodeTrace → Outcome NodeTrace
in_node f n = f n.modules >>= λ modules. ok (record n { modules = modules })

-- On a trace that has a node, adding a module succeeds; the last module and gate are then those
-- added, with the request as the current one; and removing the module gives the trace back.
pub add_module_reverses :
    (m gate request : ℕ) (t : List NodeTrace) (n : NodeTrace)
    → back runtime_error t ≡ ok n
    → request < u32_mod
    → (u : List NodeTrace) × (add_module_to_trace m gate request t ≡ ok u)
      × (remove_last_module_from_trace u ≡ ok t)
      × (get_last_module_id u ≡ ok m)
      × (get_last_gate_id u ≡ ok gate)
      × (get_current_request u ≡ ok request)
unfolding add_module_to_trace remove_last_module_from_trace get_last_module_id get_last_gate_id
    get_current_request
add_module_reverses m gate request t n h small =
    let c = component m gate request in
    let r =
      change_back runtime_error (in_node (λ modules. ok (modules ++ c ∷ [])))
        (in_node (pop_back undefined)) t n (record n { modules = n.modules ++ c ∷ [] }) h refl
        (>>=-ok (pop_back undefined (n.modules ++ c ∷ []))
          (λ modules. ok (record n { modules = modules })) n.modules
          (pop_back-append undefined n.modules c)) in
    let last : last_module r.0 ≡ ok c =
      >>=-ok (back runtime_error r.0) (λ n. back undefined n.modules) _ r.3
      ∙ back-append undefined n.modules c in
    (
      r.0,
      r.1,
      r.2,
      ap (λ o. o >>= λ m. ok m.module_id) last,
      ap (λ o. o >>= λ m. ok m.gate_id) last,
      ap (λ o. o >>= λ m. back undefined m.req_sequence >>= λ q. ok (q % u32_mod)) last
          ∙ ap ok (omega arith),
    )

-- On a trace whose last node has a module, adding a request succeeds and makes it the current one,
-- and removing it gives the trace back.
pub add_request_reverses :
    (request : ℕ) (t : List NodeTrace) (n : NodeTrace) (m : TraceComponent)
    → back runtime_error t ≡ ok n
    → back undefined n.modules ≡ ok m
    → request < u32_mod
    → (u : List NodeTrace) × (add_request_to_trace request t ≡ ok u)
      × (remove_last_request_from_trace u ≡ ok t)
      × (get_current_request u ≡ ok request)
unfolding add_request_to_trace remove_last_request_from_trace get_current_request
add_request_reverses request t n m h k small =
    let new = record m { req_sequence = m.req_sequence ++ request ∷ [] } in
    let inner = change_back undefined (push_request request) drop_request n.modules m new k refl (
      ap (λ o. o >>= λ requests. ok (record m { req_sequence = requests }))
        (pop_back-append undefined m.req_sequence request)) in
    let outer =
      change_back runtime_error (in_node (at_back undefined (push_request request)))
        (in_node (at_back undefined drop_request)) t n (record n { modules = inner.0 }) h
        (ap (λ o. o >>= λ modules. ok (record n { modules = modules })) inner.1)
        (ap (λ o. o >>= λ modules. ok (record n { modules = modules })) inner.2) in
    (
      outer.0,
      outer.1,
      outer.2,
      ap
            (λ o. (o >>= λ n. back undefined n.modules) >>= λ m.
              back undefined m.req_sequence >>= λ q. ok (q % u32_mod))
            outer.3
          ∙ ap (λ o. o >>= λ m. back undefined m.req_sequence >>= λ q. ok (q % u32_mod)) inner.3
          ∙ ap (λ o. o >>= λ q. ok (q % u32_mod)) (back-append undefined m.req_sequence request)
          ∙ ap ok (omega arith),
    )
