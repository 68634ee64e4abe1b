-- ===== src/SharedUi/Loading/Tests.antt =====
-- Pages of components that load Monaco.
use editor_sh.Prelude.{false, List, [], ◌∷◌, ◌++◌, ◌≡◌, refl}
use editor_sh.SharedUi.Loading.{
  LoadEvent, component, script_loaded, script_failed, modules_arrived, on_load_event, new_loader,
  run, MonacoLoader,
}
use editor_sh.SharedUi.Loading.Once.{IsOnce, run-IsOnce}
use editor_sh.SharedUi.Loading.Served.{served-callers, served-rejected}

abbrev events : List LoadEvent
events = component 3 ∷ component 4 ∷ script_loaded ∷ component 3 ∷ []

run-IsOnce_example : IsOnce (run (new_loader false false) events)
run-IsOnce_example = run-IsOnce false false events

served-callers_example :
    (run
      (new_loader false false)
      (events ++ (component 5 ∷ script_loaded ∷ modules_arrived ∷ []))).monaco_load_promise.served
    ≡ 3 ∷ 4 ∷ 3 ∷ 5 ∷ []
served-callers_example = served-callers false false events 5 (refl, (refl, (refl, (refl, tt))))

abbrev failed : MonacoLoader
failed = run (new_loader false false) (component 3 ∷ script_failed ∷ [])

served-rejected_example :
    ((run failed (component 4 ∷ script_loaded ∷ modules_arrived ∷ [])).monaco_load_promise.served
      ≡ [])
    × ((run failed (component 4 ∷ script_loaded ∷ modules_arrived ∷ [])).scripts ≡ failed.scripts)
unfolding on_load_event
served-rejected_example =
    served-rejected false false (component 3 ∷ script_failed ∷ [])
      (component 4 ∷ script_loaded ∷ modules_arrived ∷ []) refl
