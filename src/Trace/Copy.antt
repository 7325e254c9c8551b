-- ===== src/Trace/Copy.antt =====
-- What copying a message does to its trace (src/s2f/messages/SIMCAN_Message.cc).
use simcan2fog.Prelude.{
  ◌≡◌, ◌↔◌, refl, sym, ap, ◌∙◌, false, List, [], ◌∷◌, ◌++◌, length, length-append, arith,
}
use simcan2fog.Trace.{
  TraceComponent, NodeTrace, assign_component, copy_components, add_node_trace, copy,
  copy_construct, assign,
}

copy_components-id : (modules : List TraceComponent) → copy_components modules ≡ modules
unfolding copy_components assign_component
copy_components-id [] = refl
copy_components-id (m ∷ modules) = ap (◌∷◌ m) (copy_components-id modules)

append_cons :
    (t : List NodeTrace) (n : NodeTrace) (u : List NodeTrace) → (t ++ n ∷ []) ++ u ≡ t ++ n ∷ u
append_cons [] n u = refl
append_cons (m ∷ t) n u = ap (◌∷◌ m) (append_cons t n u)

append_nil : (t : List NodeTrace) → t ++ [] ≡ t
append_nil [] = refl
append_nil (m ∷ t) = ap (◌∷◌ m) (append_nil t)

copy-append : (other t : List NodeTrace) → copy other t ≡ t ++ other
unfolding copy add_node_trace
copy-append [] t = sym (append_nil t)
copy-append (n ∷ other) t =
    copy-append other (t ++ record n { modules = copy_components n.modules } ∷ [])
    ∙ ap (λ modules. (t ++ record n { modules = modules } ∷ []) ++ other)
        (copy_components-id n.modules)
    ∙ append_cons t n other

append_same : (t other : List NodeTrace) → t ++ other ≡ other → t ≡ []
append_same [] other h = refl
append_same (n ∷ t) other h =
    absurd (omega (arith, length-append t other, ap (length {A = NodeTrace}) h))

-- A copied message has the trace of the original, but an assignment to another message has it
-- exactly if the trace of the message was empty: else the old trace stays in front of the new one.
pub copied_traces :
    (other t : List NodeTrace)
    → (copy_construct other ≡ other)
      × (assign false other t ≡ t ++ other)
      × ((assign false other t ≡ other) ↔ (t ≡ []))
unfolding copy_construct assign
copied_traces other t = (
  copy-append other [],
  copy-append other t,
  (
    λ h. append_same t other (sym (copy-append other t) ∙ h),
    λ h. copy-append other t ∙ ap (λ u. u ++ other) h,
  ),
)
