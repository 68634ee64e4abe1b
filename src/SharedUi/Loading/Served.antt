-- ===== src/SharedUi/Loading/Served.antt =====
-- Which components are told that the library is there.
use editor_sh.Prelude.{ℕ, Bool, true, false, ◌+◌, List, [], ◌∷◌, ◌++◌, ◌≡◌, refl, arith, ◌∙◌, All}
use editor_sh.SharedUi.Loading.{
  Promise, PromiseState, resolved, rejected, MonacoLoader, resolve, reject, then_call,
  on_got_amd_loader, start_loading, load_monaco_library, on_load_script, on_error_script,
  on_modules, LoadEvent, component, script_loaded, script_failed, modules_arrived, on_load_event,
  new_loader, run,
}
use editor_sh.SharedUi.Loading.Once.{number}
use editor_sh.SharedUi.Loading.Fair.{
  callers, IsFair, IsGoing, IsLoading, load-IsGoing, script-IsGoing, failure-IsGoing,
  modules-IsGoing, load-IsFair, script-IsFair, failure-IsFair, modules-IsFair,
}

-- The history goes on from the components that came before.
foldl-IsLoading :
    (events : List LoadEvent) (l : MonacoLoader) (cs : List ℕ)
    → IsLoading l cs
    → IsLoading (run l events) (callers cs events)
unfolding on_load_event
foldl-IsLoading [] l cs h = h
foldl-IsLoading (component c ∷ events) l cs h =
    foldl-IsLoading events (load_monaco_library c l) (cs ++ (c ∷ []))
      (record { fair = load-IsFair c l cs h.fair; going = load-IsGoing c l h.going })
foldl-IsLoading (script_loaded ∷ events) l cs h =
    foldl-IsLoading events (on_load_script l) cs
      (record { fair = script-IsFair l cs h.fair; going = script-IsGoing l h.going })
foldl-IsLoading (script_failed ∷ events) l cs h =
    foldl-IsLoading events (on_error_script l) cs
      (record { fair = failure-IsFair l cs h.fair; going = failure-IsGoing l h.going })
foldl-IsLoading (modules_arrived ∷ events) l cs h =
    foldl-IsLoading events (on_modules l) cs
      (record { fair = modules-IsFair l cs h.fair; going = modules-IsGoing l h.going })

new-IsLoading : (monaco amd_require : Bool) → IsLoading (new_loader monaco amd_require) []
new-IsLoading monaco amd_require = record { fair = (refl, refl); going = refl }

-- A failure of the script
abbrev pub fails : LoadEvent → Bool
fails script_failed = true
fails _ = false

abbrev pub is_rejected : PromiseState → Bool
is_rejected rejected = true
is_rejected _ = false

event_kept :
    (event : LoadEvent) (l : MonacoLoader)
    → fails event ≡ false
    → is_rejected l.monaco_load_promise.state ≡ false
    → is_rejected (on_load_event l event).monaco_load_promise.state ≡ false
unfolding on_load_event load_monaco_library start_loading on_got_amd_loader on_load_script
    on_modules then_call resolve
event_kept (component c) l ok h = ground arith
event_kept script_loaded l ok h = ground arith
event_kept modules_arrived l ok h = ground arith
event_kept script_failed l ok h = cc

foldl_kept :
    (events : List LoadEvent) (l : MonacoLoader)
    → All (λ e. fails e ≡ false) events
    → is_rejected l.monaco_load_promise.state ≡ false
    → is_rejected (run l events).monaco_load_promise.state ≡ false
foldl_kept [] l ok h = h
foldl_kept (event ∷ later) l (ok, rest) h =
    foldl_kept later (on_load_event l event) rest (event_kept event l ok h)

load_started : (c : ℕ) (l : MonacoLoader) → (load_monaco_library c l).monaco_loading ≡ true
unfolding load_monaco_library start_loading on_got_amd_loader
load_started c l = ground arith

script_done :
    (l : MonacoLoader)
    → l.monaco_loading ≡ true
    → ((on_load_script l).monaco_loading ≡ true) × ((on_load_script l).listens ≡ false)
unfolding on_load_script on_got_amd_loader
script_done l started = ground arith

modules_done :
    (l : MonacoLoader)
    → IsGoing l.monaco_loading l.monaco_load_promise.state (number l.listens + l.coming)
    → l.monaco_loading ≡ true
    → l.listens ≡ false
    → is_rejected l.monaco_load_promise.state ≡ false
    → (on_modules l).monaco_load_promise.state ≡ resolved
unfolding on_modules resolve
modules_done l going started quiet ok = ground arith

finish :
    (c : ℕ) (l : MonacoLoader) (cs : List ℕ)
    → IsLoading l cs
    → is_rejected l.monaco_load_promise.state ≡ false
    → (run l (component c ∷ script_loaded ∷ modules_arrived ∷ [])).monaco_load_promise.state
      ≡ resolved
unfolding on_load_event
finish c l cs h ok =
    let asked = load_monaco_library c l in
    let (started, quiet) = script_done asked (load_started c l) in
    modules_done (on_load_script asked) (script-IsGoing asked (load-IsGoing c l h.going)) started
      quiet (foldl_kept (component c ∷ script_loaded ∷ []) l (refl, (refl, tt)) ok)

fair_served : (p : Promise) (cs : List ℕ) → p.state ≡ resolved → IsFair p cs → p.served ≡ cs
fair_served p cs e h = ground arith

fair_rejected : (p : Promise) (cs : List ℕ) → p.state ≡ rejected → IsFair p cs → p.served ≡ []
fair_rejected p cs e h = ground arith

foldl_append : (xs ys : List LoadEvent) (l : MonacoLoader) → run l (xs ++ ys) ≡ run (run l xs) ys
foldl_append [] ys l = refl
foldl_append (x ∷ xs) ys l = foldl_append xs ys (on_load_event l x)

callers-append :
    (xs : List LoadEvent) (before : List ℕ) (c : ℕ)
    → callers before (xs ++ (component c ∷ script_loaded ∷ modules_arrived ∷ []))
      ≡ callers before xs ++ (c ∷ [])
callers-append [] before c = refl
callers-append (component d ∷ xs) before c = callers-append xs (before ++ (d ∷ [])) c
callers-append (script_loaded ∷ xs) before c = callers-append xs before c
callers-append (script_failed ∷ xs) before c = callers-append xs before c
callers-append (modules_arrived ∷ xs) before c = callers-append xs before c

-- After every history in which the script did not fail, in a window with or without the library and
-- the loader: once another component comes, its script loads and the modules arrive, every component
-- that ever came has been told that the library is there, once for each time that it came and in
-- their order.
pub served-callers :
    (monaco amd_require : Bool) (events : List LoadEvent) (c : ℕ)
    → All (λ e. fails e ≡ false) events
    → (run
        (new_loader monaco amd_require)
        (events ++ (component c ∷ script_loaded ∷ modules_arrived ∷ []))).monaco_load_promise.served
      ≡ callers [] events ++ (c ∷ [])
served-callers monaco amd_require events c ok =
    let first = new_loader monaco amd_require in
    let last = component c ∷ script_loaded ∷ modules_arrived ∷ [] in
    let h = foldl-IsLoading events first [] (new-IsLoading monaco amd_require) in
    let resolved_eq =
      finish c (run first events) (callers [] events) h (foldl_kept events first ok refl) in
    let fair = (foldl-IsLoading last (run first events) (callers [] events) h).fair in
    rw (foldl_append events last first)
      (fair_served _ (callers [] events ++ (c ∷ [])) resolved_eq fair)

rejected_kept :
    (event : LoadEvent) (l : MonacoLoader)
    → l.monaco_load_promise.state ≡ rejected
    → l.monaco_loading ≡ true
    → let after = on_load_event l event in
      (after.monaco_load_promise.state ≡ rejected)
      × (after.monaco_loading ≡ true)
      × (after.scripts ≡ l.scripts)
unfolding on_load_event load_monaco_library start_loading on_got_amd_loader on_load_script
    on_modules then_call resolve on_error_script reject
rejected_kept (component c) l e h = ground arith
rejected_kept script_loaded l e h = ground arith
rejected_kept modules_arrived l e h = ground arith
rejected_kept script_failed l e h = ground arith

foldl_rejected :
    (events : List LoadEvent) (l : MonacoLoader)
    → l.monaco_load_promise.state ≡ rejected
    → l.monaco_loading ≡ true
    → ((run l events).monaco_load_promise.state ≡ rejected) × ((run l events).scripts ≡ l.scripts)
foldl_rejected [] l e h = (e, refl)
foldl_rejected (event ∷ later) l e h =
    let (e2, h2, same) = rejected_kept event l e h in
    let (e3, same2) = foldl_rejected later (on_load_event l event) e2 h2 in (e3, same2 ∙ same)

rejected_started :
    (l : MonacoLoader)
    → IsGoing l.monaco_loading l.monaco_load_promise.state (number l.listens + l.coming)
    → l.monaco_load_promise.state ≡ rejected
    → l.monaco_loading ≡ true
rejected_started l h e = ground arith

-- After every history that leaves the promise rejected, whatever happens later: no component was or
-- is ever told that the library is there, and no other script is appended.
pub served-rejected :
    (monaco amd_require : Bool) (events later : List LoadEvent)
    → (run (new_loader monaco amd_require) events).monaco_load_promise.state ≡ rejected
    → let failed = run (new_loader monaco amd_require) events in
      ((run failed later).monaco_load_promise.served ≡ [])
      × ((run failed later).scripts ≡ failed.scripts)
served-rejected monaco amd_require events later e =
    let h =
      foldl-IsLoading events (new_loader monaco amd_require) []
        (new-IsLoading monaco amd_require) in
    let failed = run (new_loader monaco amd_require) events in
    let (kept, same) = foldl_rejected later failed e (rejected_started failed h.going e) in
    (
      fair_rejected _ (callers (callers [] events) later) kept
          (foldl-IsLoading later failed (callers [] events) h).fair,
      same,
    )
