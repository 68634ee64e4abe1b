-- ===== src/SharedUi/Loading/Once.antt =====
-- That the library is loaded once.
use editor_sh.Prelude.{ℕ, Bool, true, false, ◌≤◌, ◌+◌, List, [], ◌∷◌, arith}
use editor_sh.SharedUi.Loading.{
  MonacoLoader, on_got_amd_loader, start_loading, load_monaco_library, on_load_script,
  on_error_script, on_modules, LoadEvent, component, script_loaded, script_failed, modules_arrived,
  on_load_event, new_loader, run,
}

abbrev pub number : Bool → ℕ
number true = 1
number false = 0

-- Nothing was appended or asked for before a component came; at most one script and one request
-- were since, and what still comes was asked for.
pub record IsOnce (l : MonacoLoader) : Type 0 where
  pub scripts_le : l.scripts ≤ number l.monaco_loading
  pub requests_le : l.requests + number l.listens ≤ number l.monaco_loading
  pub coming_le : l.coming ≤ l.requests

event-IsOnce : (event : LoadEvent) (l : MonacoLoader) → IsOnce l → IsOnce (on_load_event l event)
unfolding on_load_event load_monaco_library start_loading on_got_amd_loader on_load_script
    on_error_script on_modules
event-IsOnce (component c) l h = ground arith
event-IsOnce script_loaded l h = ground arith
event-IsOnce script_failed l h = ground arith
event-IsOnce modules_arrived l h = ground arith

foldl-IsOnce : (events : List LoadEvent) (l : MonacoLoader) → IsOnce l → IsOnce (run l events)
foldl-IsOnce [] l h = h
foldl-IsOnce (event ∷ later) l h =
    foldl-IsOnce later (on_load_event l event) (event-IsOnce event l h)

-- However many components come and whatever becomes of the script: at most one script is ever
-- appended and the modules are asked for at most once, and neither before a component came; a script
-- that listens excludes a request that was made.
pub run-IsOnce :
    (monaco amd_require : Bool) (events : List LoadEvent)
    → IsOnce (run (new_loader monaco amd_require) events)
run-IsOnce monaco amd_require events =
    foldl-IsOnce events (new_loader monaco amd_require)
      (record { scripts_le = omega arith; requests_le = omega arith; coming_le = omega arith })
