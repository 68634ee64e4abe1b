-- ===== src/Pages/Dashboard/QuestionPreview/Shown.antt =====
-- What the preview shows of a question.
use editor_sh.Prelude.{
  ℕ, ◌==◌, String, true, false, Option, none, some, List, [], ◌∷◌, ◌++◌, map, length, ◌≡◌, refl, ap,
  sym, ◌∙◌, arith, if◌then◌else◌,
}
use mathlib.Core.List.{append-nil, append_assoc}
use editor_sh.Models.Language.{Language}
use editor_sh.Store.Dashboard.Questions.{Question}
use editor_sh.SharedUi.Monaco.{
  MonacoEditor, MonacoCall, set_value, set_options, init_monaco, write_value, timeout,
  library_loaded,
}
use editor_sh.Pages.Dashboard.QuestionPreview.{
  Preview, read_only_options, get_editor_options, on_latest_changes, PreviewEvent, selected,
  elapsed, library_arrived, on_preview_event, run, drain,
}

-- The text that an editor was given last
abbrev pub text_in : ℕ → Option String → List MonacoCall → Option String
text_in c before [] = before
text_in c before (set_value d value ∷ calls) =
    text_in c (if c == d then some value else before) calls
text_in c before (_ ∷ calls) = text_in c before calls

text_in-append :
    (c : ℕ) (xs ys : List MonacoCall) (before : Option String)
    → text_in c before (xs ++ ys) ≡ text_in c (text_in c before xs) ys
text_in-append c [] ys before = refl
text_in-append c (set_value d value ∷ xs) ys before =
    text_in-append c xs ys (if c == d then some value else before)
text_in-append c (x ∷ xs) ys before = text_in-append c xs ys before

same_number : (c : ℕ) → (c == c) ≡ true
same_number c = ground arith

last_text :
    (c : ℕ) (ws : List String) (v : String) (before : Option String)
    → text_in c before (map (set_value c) (ws ++ (v ∷ []))) ≡ some v
last_text c [] v before = rw (same_number c) refl
last_text c (w ∷ ws) v before = last_text c ws v _

timeout_first :
    (m : MonacoEditor) (c : ℕ) (w : String) (ws : List String)
    → m.editor ≡ some c
    → m.writes ≡ w ∷ ws
    → let after = timeout m in
      (after.editor ≡ some c)
      × (after.writes ≡ ws)
      × (after.calls ≡ m.calls ++ (set_value c w ∷ []))
      × (after.editor_options ≡ m.editor_options)
unfolding timeout
timeout_first m c w ws e f = ground (arith, e, f)

-- As many timeouts as there are writes
drain_lem :
    (ws : List String) (m : MonacoEditor) (c : ℕ)
    → m.editor ≡ some c
    → m.writes ≡ ws
    → let after = drain (length ws) m in
      (after.editor ≡ some c)
      × (after.writes ≡ [])
      × (after.calls ≡ m.calls ++ map (set_value c) ws)
      × (after.editor_options ≡ m.editor_options)
drain_lem [] m c e f = (e, f, sym (append-nil m.calls), refl)
drain_lem (w ∷ ws) m c e f =
    let (e1, f1, calls1, options1) = timeout_first m c w ws e f in
    let (e2, f2, calls2, options2) = drain_lem ws (timeout m) c e1 f1 in
    (
      e2,
      f2,
      calls2
          ∙ ap (λ cs. cs ++ map (set_value c) ws) calls1
          ∙ append_assoc m.calls (set_value c w ∷ []) (map (set_value c) ws),
      options2 ∙ options1,
    )

-- What a selection makes of an editor
selection :
    (preview : Preview) (q : Question) (l : Language) (c : ℕ)
    → preview.alive ≡ true
    → preview.editor.editor ≡ some c
    → q.language ≡ some l
    → let m = (on_latest_changes (some q) preview).editor in
      (m.editor ≡ some preview.editor.created)
      × (m.writes ≡ preview.editor.writes ++ (q.content ∷ []))
      × (m.editor_options ≡ some (read_only_options (some l)))
unfolding on_latest_changes get_editor_options set_options init_monaco write_value
selection preview q l c alive e lang = ground (arith, alive, e, lang)

-- For a preview whose subscription to the selected question is alive, which it is no longer once a
-- question without a language was selected, and whose editor is there, whatever it showed and has
-- still to write: after the selection of a question with a language and the timeouts, nothing is left
-- to write, the editor is a new one with options in the language of this question, and the text that
-- it was given last is the content of this question, also where writes for earlier ones come in
-- between.
pub text_in-on_latest_changes :
    (preview : Preview) (q : Question) (l : Language) (c : ℕ)
    → preview.alive ≡ true
    → preview.editor.editor ≡ some c
    → q.language ≡ some l
    → let m = (on_latest_changes (some q) preview).editor in
      let after = drain (length m.writes) m in
      (after.editor ≡ some preview.editor.created)
      × (after.writes ≡ [])
      × (after.editor_options ≡ some (read_only_options (some l)))
      × (text_in preview.editor.created none after.calls ≡ some q.content)
text_in-on_latest_changes preview q l c alive e lang =
    let m = (on_latest_changes (some q) preview).editor in
    let n = preview.editor.created in
    let (editor_eq, writes_eq, options_eq) = selection preview q l c alive e lang in
    let (e2, f2, calls2, options2) = drain_lem m.writes m n editor_eq refl in
    (
      e2,
      f2,
      options2 ∙ options_eq,
      ap (text_in n none) calls2
          ∙ text_in-append n m.calls (map (set_value n) m.writes) none
          ∙ ap (λ ws. text_in n (text_in n none m.calls) (map (set_value n) ws)) writes_eq
          ∙ last_text n preview.editor.writes q.content (text_in n none m.calls),
    )

timeout_kept : (m : MonacoEditor) → (timeout m).editor_options ≡ m.editor_options
unfolding timeout
timeout_kept m = ground arith

library_loaded_kept : (m : MonacoEditor) → (library_loaded m).editor_options ≡ m.editor_options
unfolding library_loaded init_monaco
library_loaded_kept m = ground arith

event_ended :
    (event : PreviewEvent) (preview : Preview)
    → preview.alive ≡ false
    → let after = on_preview_event preview event in
      (after.alive ≡ false) × (after.editor.editor_options ≡ preview.editor.editor_options)
unfolding on_preview_event on_latest_changes
event_ended (selected question) preview e = ground (arith, e)
event_ended elapsed preview e = (e, timeout_kept preview.editor)
event_ended library_arrived preview e = (e, library_loaded_kept preview.editor)

foldl_ended :
    (events : List PreviewEvent) (preview : Preview)
    → preview.alive ≡ false
    → ((run preview events).alive ≡ false)
      × ((run preview events).editor.editor_options ≡ preview.editor.editor_options)
foldl_ended [] preview e = (e, refl)
foldl_ended (event ∷ later) preview e =
    let (e1, same1) = event_ended event preview e in
    let (e2, same2) = foldl_ended later (on_preview_event preview event) e1 in (e2, same2 ∙ same1)

selection_ended :
    (preview : Preview) (q : Question)
    → preview.alive ≡ true
    → q.language ≡ none
    → let after = on_latest_changes (some q) preview in
      (after.alive ≡ false) × (after.editor.editor_options ≡ preview.editor.editor_options)
unfolding on_latest_changes get_editor_options
selection_ended preview q alive lang = ground (arith, alive, lang)

-- A question without a language that is selected ends the subscription: whatever is selected later,
-- the editor keeps the options that it had before.
pub run_ended :
    (preview : Preview) (q : Question) (events : List PreviewEvent)
    → preview.alive ≡ true
    → q.language ≡ none
    → let after = run preview (selected (some q) ∷ events) in
      (after.alive ≡ false) × (after.editor.editor_options ≡ preview.editor.editor_options)
unfolding on_preview_event
run_ended preview q events alive lang =
    let (e1, same1) = selection_ended preview q alive lang in
    let (e2, same2) = foldl_ended events (on_latest_changes (some q) preview) e1 in
    (e2, same2 ∙ same1)
