-- ===== src/UserApp.antt =====
-- The deployment request of a user (src/s2f/messages/SM_UserAPP.cc, .h and .msg) and the application
-- states (src/s2f/core/include/SIMCAN_types.h). Simulated times are natural numbers.
pub mod States
use simcan2fog.Prelude.{
  ℕ, suc, String, Bool, true, false, ◌||◌, ◌&&◌, Option, none, some, List, [], ◌∷◌, ◌++◌, get_elem?,
  set, Outcome, ok, or_fault, undefined, ◌>>=◌,
}
use text.Mathlib.Text.{◌==◌ as str_eq}

-- tApplicationState
pub data AppState : Type 0 where
  app_waiting app_running app_finished_ok app_finished_timeout app_finished_error : AppState

pub record AppRequest : Type 0 where
  pub name : String
  pub app_type : String
  pub start_time : ℕ
  pub finish_time : ℕ
  pub state : AppState

-- The fields of SIMCAN_Message and SM_UserAPP that are read with a deployment.
pub record UserApp : Type 0 where
  pub vm_id : String
  pub user_id : String
  pub return_topic : String
  pub destination_topic : String
  pub accepted : Bool
  pub is_response : Bool
  pub apps : List AppRequest

-- isFinishedOK
abbrev pub is_ok : AppState → Bool
is_ok app_finished_ok = true
is_ok _ = false

-- isFinishedKO
abbrev pub is_ko : AppState → Bool
is_ko app_finished_error = true
is_ko app_finished_timeout = true
is_ko _ = false

-- isFinished
abbrev pub is_finished : AppState → Bool
is_finished s = is_ok s || is_ko s

abbrev finish_at : ℕ → AppRequest → AppRequest
finish_at now a = elim (is_finished a.state) [ true ↦ record a { finish_time = now } | false ↦ a ]

-- AppRequest::setState at the time `now`.
unfoldable pub set_state : ℕ → AppState → AppRequest → AppRequest
set_state now s a = finish_at now (record a { state = s })

unfoldable pub create_new_app_request : String → String → ℕ → UserApp → UserApp
unfolding set_state
create_new_app_request name app_type start r = record r {
  apps =
      r.apps
      ++ record {
        name = name;
        app_type = app_type;
        start_time = start;
        finish_time = 0;
        state = app_waiting;
      }
        ∷ [];
}

-- `none` is -1.
unfoldable pub find_request_index : String → List AppRequest → Option ℕ
find_request_index name [] = none
find_request_index name (a ∷ apps) =
    let rest = find_request_index name apps in
    elim (str_eq a.name name) [
      | true ↦ some 0
      | false ↦ elim rest [ none ↦ none | some i ↦ some (suc i) ]
    ]

-- The array is not checked: an index out of it, -1 included, is undefined.
unfoldable pub change_state_by_index : ℕ → Option ℕ → AppState → UserApp → Outcome UserApp
change_state_by_index now index s r = do
  i ← or_fault index undefined
  a ← or_fault (get_elem? r.apps i) undefined
  ok (record r { apps = set r.apps i (set_state now s a) })

unfoldable pub change_state : ℕ → String → AppState → UserApp → Outcome UserApp
change_state now service s r = change_state_by_index now (find_request_index service r.apps) s r

unfoldable pub all_finished : List AppRequest → Bool
all_finished [] = true
all_finished (a ∷ apps) = is_finished a.state && all_finished apps

unfoldable pub all_finished_ok : List AppRequest → Bool
all_finished_ok [] = true
all_finished_ok (a ∷ apps) = is_ok a.state && all_finished_ok apps

-- The body of the loop of abortAllApps.
abbrev pub abort_app : ℕ → AppRequest → AppRequest
abort_app now a = elim (is_finished a.state) [
  | true ↦ a
  | false ↦ set_state now app_finished_timeout a
]

unfoldable pub abort_all : ℕ → List AppRequest → List AppRequest
abort_all now [] = []
abort_all now (a ∷ apps) = abort_app now a ∷ abort_all now apps

unfoldable pub abort_all_apps : ℕ → UserApp → UserApp
abort_all_apps now r = record r { apps = abort_all now r.apps }
