-- ===== src/SharedUi/Monaco/Lifetime.antt =====
-- How long the editors and the listeners of an editor component live.
use editor_sh.Prelude.{
  ℕ, String, Bool, true, false, ◌&&◌, Option, none, some, List, [], ◌∷◌, ◌≡◌, if◌then◌else◌,
  is_some, arith, All, any,
}
use editor_sh.SharedUi.Monaco.{
  MonacoEditor, MonacoFault, EditorOptions, no_model_to_change, set_options, library_loaded,
  destroy, resized, timeout, lay_out, change_language, Input, options, loaded, destroyed, resize,
  laid_out, elapsed, registered, written, language, step, run, start,
}

-- A layout that failed is not among the faults.
abbrev pub AreLaid : List MonacoFault → Type 0
AreLaid = All (λ e. e ≡ no_model_to_change)

abbrev pub to_list : Option ℕ → List ℕ
to_list none = []
to_list (some c) = c ∷ []

-- No editor is open but the component's own, no listener is subscribed but its own, it has the one
-- exactly with the other, it awaits the library only without an editor, and no layout failed.
pub record IsSound (m : MonacoEditor) : Type 0 where
  pub editors : m.open_editors ≡ to_list m.editor
  pub listeners : m.window_listeners ≡ to_list m.window_resize
  pub paired : is_some m.editor ≡ is_some m.window_resize
  pub waits : (m.awaiting && is_some m.editor) ≡ false
  pub laid : AreLaid m.faults

set_options-IsSound :
    (value : Option EditorOptions) (m : MonacoEditor) → IsSound m → IsSound (set_options value m)
unfolding set_options
set_options-IsSound value m h = ground arith

library_loaded-IsSound : (m : MonacoEditor) → IsSound m → IsSound (library_loaded m)
unfolding library_loaded
library_loaded-IsSound m h = ground arith

destroy-IsSound : (m : MonacoEditor) → IsSound m → IsSound (destroy m)
unfolding destroy
destroy-IsSound m h = ground arith

resized-IsSound : (m : MonacoEditor) → IsSound m → IsSound (resized m)
unfolding resized
resized-IsSound m h = ground arith

timeout-IsSound : (m : MonacoEditor) → IsSound m → IsSound (timeout m)
unfolding timeout
timeout-IsSound m h = ground arith

lay_out-IsSound : (m : MonacoEditor) → IsSound m → IsSound (lay_out m)
unfolding lay_out
lay_out-IsSound m h = ground arith

change_language-IsSound :
    (code : Option String) (l : String) (m : MonacoEditor)
    → IsSound m
    → IsSound (change_language code l m)
unfolding change_language
change_language-IsSound none l m h = ground arith
change_language-IsSound (some code) l m h = ground arith

step-IsSound : (m : MonacoEditor) (input : Input) → IsSound m → IsSound (step m input)
unfolding step
step-IsSound m (options value) h = set_options-IsSound value m h
step-IsSound m loaded h = library_loaded-IsSound m h
step-IsSound m destroyed h = destroy-IsSound m h
step-IsSound m resize h = resized-IsSound m h
step-IsSound m laid_out h = lay_out-IsSound m h
step-IsSound m elapsed h = timeout-IsSound m h
step-IsSound m registered h = ground arith
step-IsSound m (written value) h = ground arith
step-IsSound m (language code l) h = change_language-IsSound code l m h

foldl-step-IsSound : (inputs : List Input) (m : MonacoEditor) → IsSound m → IsSound (run m inputs)
foldl-step-IsSound [] m h = h
foldl-step-IsSound (input ∷ later) m h =
    foldl-step-IsSound later (step m input) (step-IsSound m input h)

start-IsSound :
    (is_browser : Bool) (value : Option EditorOptions) → IsSound (start is_browser value)
unfolding start
start-IsSound is_browser value = ground arith

-- Whatever happens to a component, the Monaco editors that are not disposed and the listeners to the
-- size of the window are its own, so that there is at most one of each, and it has the one exactly
-- with the other; it awaits the library only without an editor; and the layout for a new size of the
-- window never fails.
pub run-IsSound :
    (is_browser : Bool) (value : Option EditorOptions) (inputs : List Input)
    → IsSound (run (start is_browser value) inputs)
run-IsSound is_browser value inputs =
    foldl-step-IsSound inputs (start is_browser value) (start-IsSound is_browser value)

-- What still reaches a component that Angular has destroyed: the library, the window, the timers.
abbrev pub late : Input → Bool
late loaded = true
late resize = true
late elapsed = true
late _ = false

abbrev pub is_loaded : Input → Bool
is_loaded loaded = true
is_loaded _ = false

-- A component that was destroyed, and one whose editor `c` came after that.
record IsEmpty (m : MonacoEditor) (awaiting : Bool) (created : ℕ) : Type 0 where
  no_editor : m.editor ≡ none
  no_resize : m.window_resize ≡ none
  no_open : m.open_editors ≡ []
  no_listener : m.window_listeners ≡ []
  same_awaiting : m.awaiting ≡ awaiting
  same_created : m.created ≡ created

record IsLeft (m : MonacoEditor) (c : ℕ) : Type 0 where
  its_editor : m.editor ≡ some c
  its_open : m.open_editors ≡ c ∷ []
  its_listener : m.window_listeners ≡ c ∷ []
  settled : m.awaiting ≡ false

destroy-IsEmpty : (m : MonacoEditor) → IsSound m → IsEmpty (destroy m) m.awaiting m.created
unfolding destroy
destroy-IsEmpty m h = ground arith

resized-IsEmpty : (m : MonacoEditor) (w : Bool) (n : ℕ) → IsEmpty m w n → IsEmpty (resized m) w n
unfolding resized
resized-IsEmpty m w n h = ground arith

timeout-IsEmpty : (m : MonacoEditor) (w : Bool) (n : ℕ) → IsEmpty m w n → IsEmpty (timeout m) w n
unfolding timeout
timeout-IsEmpty m w n h = ground arith

loaded-IsEmpty : (m : MonacoEditor) (n : ℕ) → IsEmpty m false n → IsEmpty (library_loaded m) false n
unfolding library_loaded
loaded-IsEmpty m n h = ground arith

loaded-IsLeft : (m : MonacoEditor) (n : ℕ) → IsEmpty m true n → IsLeft (library_loaded m) n
unfolding library_loaded
loaded-IsLeft m n h = ground arith

step-IsLeft :
    (m : MonacoEditor) (c : ℕ) (input : Input)
    → late input ≡ true
    → IsLeft m c
    → IsLeft (step m input) c
unfolding step
step-IsLeft m c loaded l h = ground arith
step-IsLeft m c resize l h = ground arith
step-IsLeft m c elapsed l h = ground arith
step-IsLeft m c _ l h = cc

run-IsLeft :
    (later : List Input) (m : MonacoEditor) (c : ℕ)
    → All (λ i. late i ≡ true) later
    → IsLeft m c
    → IsLeft (run m later) c
run-IsLeft [] m c l h = h
run-IsLeft (input ∷ later) m c l h =
    run-IsLeft later (step m input) c l.1 (step-IsLeft m c input l.0 h)

-- What is open in the end, and what listens
abbrev pub Leaves : MonacoEditor → List ℕ → Type 0
Leaves m cs = (m.open_editors ≡ cs) × (m.window_listeners ≡ cs)

run-late :
    (later : List Input) (m : MonacoEditor) (w : Bool) (n : ℕ)
    → All (λ i. late i ≡ true) later
    → IsEmpty m w n
    → Leaves (run m later) (if w && any is_loaded later then n ∷ [] else [])
unfolding step
run-late [] m w n l h = ground arith
run-late (loaded ∷ later) m false n l h =
    run-late later (library_loaded m) false n l.1 (loaded-IsEmpty m n h)
run-late (loaded ∷ later) m true n l h =
    let left = run-IsLeft later (library_loaded m) n l.1 (loaded-IsLeft m n h) in
    (left.its_open, left.its_listener)
run-late (resize ∷ later) m w n l h = run-late later (resized m) w n l.1 (resized-IsEmpty m w n h)
run-late (elapsed ∷ later) m w n l h = run-late later (timeout m) w n l.1 (timeout-IsEmpty m w n h)
run-late (_ ∷ later) m w n l h = cc (l.0)

-- After its destruction a component holds no editor and no listener, whatever the library, the
-- window and the timers still do; but if the library arrives only then, the component creates an
-- editor, which stays open and goes on listening for ever.
pub run_destroyed :
    (is_browser : Bool) (value : Option EditorOptions) (inputs later : List Input)
    → All (λ i. late i ≡ true) later
    → let m = run (start is_browser value) inputs in
      Leaves
        (run m (destroyed ∷ later))
        (if m.awaiting && any is_loaded later then m.created ∷ [] else [])
unfolding step
run_destroyed is_browser value inputs later l =
    let m = run (start is_browser value) inputs in
    run-late later (destroy m) m.awaiting m.created l
      (destroy-IsEmpty m (run-IsSound is_browser value inputs))
