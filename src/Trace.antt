-- ===== src/Trace.antt =====
-- The trace of a message, a path of nodes, modules and requests
-- (src/s2f/messages/SIMCAN_Message.cc and .h). Identifiers are not negative; a request number is
-- read back as the 32-bit word of an int.
pub mod Stack
pub mod Copy
use simcan2fog.Prelude.{
  ℕ, String, Bool, true, false, Option, none, some, List, [], ◌∷◌, ◌++◌, get_elem?, length, Outcome,
  ok, fault, Fault, runtime_error, undefined, or_fault, ◌>>=◌, ◌%◌, u32_mod,
}

pub record TraceComponent : Type 0 where
  pub module_id : ℕ
  pub gate_id : ℕ
  pub req_sequence : List ℕ

pub record NodeTrace : Type 0 where
  pub host : String
  pub modules : List TraceComponent

-- TraceComponent::operator=
unfoldable pub assign_component : TraceComponent → TraceComponent
assign_component other = record {
  module_id = other.module_id;
  gate_id = other.gate_id;
  req_sequence = other.req_sequence;
}

module _ {ℓ} {A : Type ℓ} where
  -- back() and pop_back(), with what a call on an empty container ends in.
  abbrev pub back : Fault → List A → Outcome A
  back e [] = fault e
  back e (x ∷ []) = ok x
  back e (x ∷ y ∷ xs) = back e (y ∷ xs)

  abbrev pub pop_back : Fault → List A → Outcome (List A)
  pop_back e [] = fault e
  pop_back e (x ∷ []) = ok []
  pop_back e (x ∷ y ∷ xs) = pop_back e (y ∷ xs) >>= λ rest. ok (x ∷ rest)

  -- A change of back().
  abbrev pub at_back : Fault → (A → Outcome A) → List A → Outcome (List A)
  at_back e f [] = fault e
  at_back e f (x ∷ []) = f x >>= λ y. ok (y ∷ [])
  at_back e f (x ∷ y ∷ xs) = at_back e f (y ∷ xs) >>= λ rest. ok (x ∷ rest)

-- An empty trace is an error; a node without modules and a module without requests are not checked.
abbrev pub at_last_node :
    (List TraceComponent → Outcome (List TraceComponent))
    → List NodeTrace
    → Outcome (List NodeTrace)
at_last_node f =
    at_back runtime_error (λ n. f n.modules >>= λ modules. ok (record n { modules = modules }))

abbrev pub at_last_module : (List ℕ → Outcome (List ℕ)) → List NodeTrace → Outcome (List NodeTrace)
at_last_module f = at_last_node (
    at_back undefined
      (λ m. f m.req_sequence >>= λ requests. ok (record m { req_sequence = requests })))

abbrev pub last_module : List NodeTrace → Outcome TraceComponent
last_module t = back runtime_error t >>= λ n. back undefined n.modules

abbrev pub component : ℕ → ℕ → ℕ → TraceComponent
component m gate request = record { module_id = m; gate_id = gate; req_sequence = request ∷ [] }

-- addModuleToTrace and removeLastModuleFromTrace
unfoldable pub add_module_to_trace : ℕ → ℕ → ℕ → List NodeTrace → Outcome (List NodeTrace)
add_module_to_trace m gate request =
    at_last_node (λ modules. ok (modules ++ component m gate request ∷ []))

unfoldable pub remove_last_module_from_trace : List NodeTrace → Outcome (List NodeTrace)
remove_last_module_from_trace = at_last_node (pop_back undefined)

-- addNodeToTrace and removeLastNodeFromTrace
unfoldable pub add_node_to_trace : String → List NodeTrace → List NodeTrace
add_node_to_trace host t = t ++ record { host = host; modules = [] } ∷ []

unfoldable pub remove_last_node_from_trace : List NodeTrace → Outcome (List NodeTrace)
remove_last_node_from_trace = pop_back runtime_error

-- addRequestToTrace and removeLastRequestFromTrace
unfoldable pub add_request_to_trace : ℕ → List NodeTrace → Outcome (List NodeTrace)
add_request_to_trace request = at_last_module (λ requests. ok (requests ++ request ∷ []))

unfoldable pub remove_last_request_from_trace : List NodeTrace → Outcome (List NodeTrace)
remove_last_request_from_trace = at_last_module (pop_back undefined)

unfoldable pub get_last_gate_id : List NodeTrace → Outcome ℕ
get_last_gate_id t = last_module t >>= λ m. ok m.gate_id

unfoldable pub get_last_module_id : List NodeTrace → Outcome ℕ
get_last_module_id t = last_module t >>= λ m. ok m.module_id

unfoldable pub get_current_request : List NodeTrace → Outcome ℕ
get_current_request t = do
  m ← last_module t
  request ← back undefined m.req_sequence
  ok (request % u32_mod)

-- addNodeTrace copies the components one by one.
unfoldable pub copy_components : List TraceComponent → List TraceComponent
unfolding assign_component
copy_components [] = []
copy_components (m ∷ modules) = assign_component m ∷ copy_components modules

unfoldable pub add_node_trace : String → List TraceComponent → List NodeTrace → List NodeTrace
unfolding copy_components
add_node_trace host modules t = t ++ record { host = host; modules = copy_components modules } ∷ []

-- What copy does to the trace `t` of the message that it is called on.
unfoldable pub copy : List NodeTrace → List NodeTrace → List NodeTrace
unfolding add_node_trace
copy [] t = t
copy (n ∷ other) t = copy other (add_node_trace n.host n.modules t)

-- The copy constructor starts from an empty trace; operator= from the trace of the message, unless
-- the message is assigned to itself.
unfoldable pub copy_construct : List NodeTrace → List NodeTrace
unfolding copy
copy_construct other = copy other []

unfoldable pub assign : Bool → List NodeTrace → List NodeTrace → List NodeTrace
unfolding copy
assign is_self other t = elim is_self [ true ↦ t | false ↦ copy other t ]

abbrev pub is_trace_empty : List NodeTrace → Bool
is_trace_empty [] = true
is_trace_empty (n ∷ t) = false

abbrev pub get_trace_array_size : List NodeTrace → ℕ
get_trace_array_size t = length t

-- getInitialModuleName, getNodeTrace and getTrace do not check the index.
unfoldable pub get_initial_module_name : ℕ → List NodeTrace → Outcome String
get_initial_module_name k t = or_fault (get_elem? t k) undefined >>= λ n. ok n.host

unfoldable pub get_node_trace : ℕ → List NodeTrace → Outcome (List TraceComponent)
get_node_trace k t = or_fault (get_elem? t k) undefined >>= λ n. ok n.modules

unfoldable pub get_trace : ℕ → List NodeTrace → Outcome TraceComponent
get_trace k t = or_fault (get_elem? t k) undefined >>= λ n. back undefined n.modules
