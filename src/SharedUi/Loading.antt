-- ===== src/SharedUi/Loading.antt =====
-- The loading of the library of Monaco (`loadMonacoLibrary` in
-- shared-ui/monaco-editor/components/monaco-editor.component.ts), once for all components of a page.
pub mod Once
pub mod Fair
pub mod Served
mod Tests
use editor_sh.Prelude.{ℕ, zero, suc, Bool, true, false, List, [], ◌∷◌, ◌++◌, foldl, if◌then◌else◌}

-- A promise with the callbacks of `then`, known by the components that passed them: those that wait,
-- and those that were called, in their order. The callbacks of a settled promise run at once.
pub data PromiseState : Type 0 where
  pending resolved rejected : PromiseState

pub record Promise : Type 0 where
  pub state : PromiseState
  pub waiting : List ℕ
  pub served : List ℕ

unfoldable pub resolve : Promise → Promise
resolve p = elim p.state [
  | pending ↦ record { state = resolved; waiting = []; served = p.served ++ p.waiting }
  | resolved ↦ p
  | rejected ↦ p
]

unfoldable pub reject : Promise → Promise
reject p = elim p.state [ pending ↦ record p { state = rejected } | resolved ↦ p | rejected ↦ p ]

unfoldable pub then_call : ℕ → Promise → Promise
then_call c p = elim p.state [
  | pending ↦ record p { waiting = p.waiting ++ (c ∷ []) }
  | resolved ↦ record p { served = p.served ++ (c ∷ []) }
  | rejected ↦ p
]

-- The variables of the module, and of the window: whether it has the library and the loader of
-- modules, how many scripts were appended to the body, whether the last one has its listeners, and
-- how often the modules were asked for and are still to come.
pub record MonacoLoader : Type 0 where
  pub monaco_loading : Bool
  pub monaco_load_promise : Promise
  pub monaco : Bool
  pub amd_require : Bool
  pub scripts : ℕ
  pub listens : Bool
  pub requests : ℕ
  pub coming : ℕ

abbrev settle : (Promise → Promise) → MonacoLoader → MonacoLoader
settle f l = record l { monaco_load_promise = f l.monaco_load_promise }

-- `onGotAmdLoader`
unfoldable pub on_got_amd_loader : MonacoLoader → MonacoLoader
on_got_amd_loader l = record l { requests = suc l.requests; coming = suc l.coming }

-- The body of the promise
unfoldable pub start_loading : MonacoLoader → MonacoLoader
unfolding on_got_amd_loader resolve
start_loading l =
    if l.monaco
    then settle resolve l
    else if l.amd_require
    then on_got_amd_loader l
    else record l { scripts = suc l.scripts; listens = true }

-- `loadMonacoLibrary().then` of a component
unfoldable pub load_monaco_library : ℕ → MonacoLoader → MonacoLoader
unfolding start_loading then_call
load_monaco_library c l =
    if l.monaco_loading
    then settle (then_call c) l
    else settle (then_call c) (start_loading (record l { monaco_loading = true }))

-- The events of the script, whose run defines `require`, and the callback of `require`
unfoldable pub on_load_script : MonacoLoader → MonacoLoader
unfolding on_got_amd_loader
on_load_script l =
    if l.listens then on_got_amd_loader (record l { listens = false; amd_require = true }) else l

unfoldable pub on_error_script : MonacoLoader → MonacoLoader
unfolding reject
on_error_script l = if l.listens then settle reject (record l { listens = false }) else l

abbrev come : ℕ → MonacoLoader → MonacoLoader
come zero l = l
come (suc n) l = settle resolve (record l { monaco = true; coming = n })

unfoldable pub on_modules : MonacoLoader → MonacoLoader
unfolding resolve
on_modules l = come l.coming l

pub data LoadEvent : Type 0 where
  component : ℕ → LoadEvent
  script_loaded script_failed modules_arrived : LoadEvent

unfoldable pub on_load_event : MonacoLoader → LoadEvent → MonacoLoader
unfolding load_monaco_library on_load_script on_error_script on_modules
on_load_event l (component c) = load_monaco_library c l
on_load_event l script_loaded = on_load_script l
on_load_event l script_failed = on_error_script l
on_load_event l modules_arrived = on_modules l

-- A page before the first component, in a window that may have the library or a loader already
abbrev pub new_loader : (monaco amd_require : Bool) → MonacoLoader
new_loader monaco amd_require = record {
  monaco_loading = false;
  monaco_load_promise = record { state = pending; waiting = []; served = [] };
  monaco = monaco;
  amd_require = amd_require;
  scripts = 0;
  listens = false;
  requests = 0;
  coming = 0;
}

abbrev pub run : MonacoLoader → List LoadEvent → MonacoLoader
run l events = foldl on_load_event l events
