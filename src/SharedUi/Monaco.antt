-- ===== src/SharedUi/Monaco.antt =====
-- The editor component (shared-ui/monaco-editor/components/monaco-editor.component.ts): the Monaco
-- editors that it creates and disposes, its listeners to the size of the window, and what it calls.
-- Editors and subscriptions stand by numbers; of an editor's options, what the pages change.
pub mod Lifetime
mod Tests
use editor_sh.Prelude.{
  ℕ, suc, String, Bool, true, false, ◌||◌, Option, none, some, List, [], ◌∷◌, ◌++◌, ◌==◌,
  if◌then◌else◌, is_some, foldl,
}

pub record EditorOptions : Type 0 where
  pub language : Option String
  pub value : Option String
  pub read_only : Bool

-- What is asked of Monaco; a model is made of a text and a language.
pub data MonacoCall : Type 0 where
  create : ℕ → Option EditorOptions → MonacoCall
  dispose : ℕ → MonacoCall
  layout : ℕ → MonacoCall
  set_value : ℕ → String → MonacoCall
  set_model : ℕ → (code editor_language : String) → MonacoCall

-- A TypeError: the layout of an editor, or the change of a language, without an editor or a model.
pub data MonacoFault : Type 0 where
  no_editor_to_lay_out no_model_to_change : MonacoFault

-- The fields of the component, with `awaiting` for its callback on the library and `writes` for
-- its timeouts; then the editors that are not disposed, the listeners of the window, the editors
-- that were announced, the calls, and what was thrown, latest first.
pub record MonacoEditor : Type 0 where
  pub editor : Option ℕ
  pub editor_options : Option EditorOptions
  pub window_resize : Option ℕ
  pub on_change : Bool
  pub awaiting : Bool
  pub writes : List String
  pub created : ℕ
  pub open_editors : List ℕ
  pub window_listeners : List ℕ
  pub mounted : List ℕ
  pub calls : List MonacoCall
  pub faults : List MonacoFault

abbrev pub new_monaco_editor : MonacoEditor
new_monaco_editor = record {
  editor = none;
  editor_options = none;
  window_resize = none;
  on_change = false;
  awaiting = false;
  writes = [];
  created = 0;
  open_editors = [];
  window_listeners = [];
  mounted = [];
  calls = [];
  faults = [];
}

unfoldable pub without : ℕ → List ℕ → List ℕ
without c [] = []
without c (x ∷ xs) = if x == c then without c xs else x ∷ without c xs

abbrev tell : MonacoCall → MonacoEditor → MonacoEditor
tell call m = record m { calls = m.calls ++ (call ∷ []) }

abbrev throw_fault : MonacoFault → MonacoEditor → MonacoEditor
throw_fault e m = record m { faults = e ∷ m.faults }

-- `editor.dispose()`
abbrev dispose_editor : ℕ → MonacoEditor → MonacoEditor
dispose_editor c m = record (tell (MonacoCall.dispose c) m) {
  open_editors = without c m.open_editors;
}

-- `windowResizeSubscription.unsubscribe()`, if there is one
abbrev unsubscribed : Option ℕ → List ℕ → List ℕ
unsubscribed none ls = ls
unsubscribed (some s) ls = without s ls

-- `initMonaco`
unfoldable pub init_monaco : Option EditorOptions → MonacoEditor → MonacoEditor
unfolding without
init_monaco options m = record (tell (MonacoCall.create m.created options) m) {
  editor = some m.created;
  created = suc m.created;
  open_editors = m.open_editors ++ (m.created ∷ []);
  window_listeners = unsubscribed m.window_resize m.window_listeners ++ (m.created ∷ []);
  window_resize = some m.created;
  mounted = m.mounted ++ (m.created ∷ []);
}

-- The setter of `options`
unfoldable pub set_options : Option EditorOptions → MonacoEditor → MonacoEditor
unfolding init_monaco without
set_options value m =
    let stored = record m { editor_options = value } in
    elim m.editor [ none ↦ stored | some c ↦ init_monaco value (dispose_editor c stored) ]

-- `ngAfterViewInit`, and what follows when the library is there
unfoldable pub view_init : Bool → MonacoEditor → MonacoEditor
view_init is_browser m = if is_browser then record m { awaiting = true } else m

unfoldable pub library_loaded : MonacoEditor → MonacoEditor
unfolding init_monaco
library_loaded m =
    if m.awaiting then init_monaco m.editor_options (record m { awaiting = false }) else m

-- `ngOnDestroy`
unfoldable pub destroy : MonacoEditor → MonacoEditor
unfolding without
destroy m =
    let quiet = record m {
      window_listeners = unsubscribed m.window_resize m.window_listeners;
      window_resize = none;
    } in
    elim m.editor [ none ↦ quiet | some c ↦ record (dispose_editor c quiet) { editor = none } ]

-- `writeValue`, and its timeout
unfoldable pub write_value : String → MonacoEditor → MonacoEditor
write_value value m = record m { writes = m.writes ++ (value ∷ []) }

abbrev write_now : String → MonacoEditor → MonacoEditor
write_now value m = elim m.editor [ none ↦ m | some c ↦ tell (MonacoCall.set_value c value) m ]

abbrev first_write : List String → MonacoEditor → MonacoEditor
first_write [] m = m
first_write (value ∷ rest) m = write_now value (record m { writes = rest })

unfoldable pub timeout : MonacoEditor → MonacoEditor
timeout m = first_write m.writes m

-- `registerOnChange`, and what its function is given for a change of the content
unfoldable pub register_on_change : MonacoEditor → MonacoEditor
register_on_change m = record m { on_change = true }

unfoldable pub content_changed : {E : Type 0} → E → MonacoEditor → Option E
content_changed event m = if m.on_change then some event else none

-- `changeLanguage`, where `code` is the text of the model, if the editor has one
unfoldable pub change_language : Option String → String → MonacoEditor → MonacoEditor
change_language code editor_language m = elim m.editor [
  | none ↦ throw_fault no_model_to_change m
  | some c ↦ elim code [
    | none ↦ throw_fault no_model_to_change m
    | some text ↦ tell (MonacoCall.set_model c text editor_language) m
  ]
]

-- `layout`
unfoldable pub lay_out : MonacoEditor → MonacoEditor
lay_out m = elim m.editor [ none ↦ m | some c ↦ tell (MonacoCall.layout c) m ]

-- The listener to the size of the window, which has no test, and all that are subscribed
abbrev on_resize : MonacoEditor → ℕ → MonacoEditor
on_resize m s = elim m.editor [
  | none ↦ throw_fault no_editor_to_lay_out m
  | some c ↦ tell (MonacoCall.layout c) m
]

unfoldable pub resized : MonacoEditor → MonacoEditor
resized m = foldl on_resize m m.window_listeners

-- What happens to a component: by its parent, by Angular, by the window and the timers.
pub data Input : Type 0 where
  options : Option EditorOptions → Input
  loaded destroyed resize laid_out elapsed registered : Input
  written : String → Input
  language : (code : Option String) → (editor_language : String) → Input

unfoldable pub step : MonacoEditor → Input → MonacoEditor
unfolding set_options library_loaded destroy resized lay_out timeout register_on_change write_value
    change_language
step m (options value) = set_options value m
step m loaded = library_loaded m
step m destroyed = destroy m
step m resize = resized m
step m laid_out = lay_out m
step m elapsed = timeout m
step m registered = register_on_change m
step m (written value) = write_value value m
step m (language code editor_language) = change_language code editor_language m

abbrev pub run : MonacoEditor → List Input → MonacoEditor
run m inputs = foldl step m inputs

-- A component in a page, from `ngAfterViewInit` on
unfoldable pub start : Bool → Option EditorOptions → MonacoEditor
unfolding set_options view_init
start is_browser value = view_init is_browser (set_options value new_monaco_editor)
