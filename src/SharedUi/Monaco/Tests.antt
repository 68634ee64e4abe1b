-- ===== src/SharedUi/Monaco/Tests.antt =====
-- Inputs for the editor component.
use editor_sh.Prelude.{true, none, some, List, [], ◌∷◌, refl}
use editor_sh.SharedUi.Monaco.{
  EditorOptions, Input, options, loaded, destroyed, resize, elapsed, written, run, start,
  MonacoEditor, step,
}
use editor_sh.SharedUi.Monaco.Lifetime.{IsSound, Leaves, run-IsSound, run_destroyed}

abbrev python : EditorOptions
python = record { language = some "python"; value = none; read_only = true }

abbrev inputs : List Input
inputs = written "x = 1" ∷ loaded ∷ resize ∷ options (some python) ∷ elapsed ∷ resize ∷ []

run-IsSound_example : IsSound (run (start true none) inputs)
run-IsSound_example = run-IsSound true none inputs

-- The library arrives when the page is gone.
abbrev waiting : MonacoEditor
waiting = run (start true (some python)) (written "x = 1" ∷ [])

run_destroyed_example :
    Leaves (run waiting (destroyed ∷ loaded ∷ resize ∷ [])) (waiting.created ∷ [])
unfolding start step
run_destroyed_example =
    run_destroyed true (some python) (written "x = 1" ∷ []) (loaded ∷ resize ∷ [])
      (refl, (refl, tt))
