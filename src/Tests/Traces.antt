-- ===== src/Tests/Traces.antt =====
-- Traces of messages.
use simcan2fog.Prelude.{◌≡◌, ◌↔◌, false, List, [], ◌∷◌}
use simcan2fog.Trace.{NodeTrace, component, copy_construct, assign}
use simcan2fog.Trace.Copy.{copied_traces}

abbrev node : NodeTrace
node = record { host = "fog"; modules = component 4 1 9 ∷ [] }

abbrev trace : List NodeTrace
trace = record { host = "user"; modules = [] } ∷ node ∷ []

copied_traces_example :
    (copy_construct trace ≡ trace)
    × (assign false trace (node ∷ []) ≡ node ∷ trace)
    × ((assign false trace (node ∷ []) ≡ trace) ↔ (node ∷ [] ≡ []))
copied_traces_example = copied_traces trace (node ∷ [])
