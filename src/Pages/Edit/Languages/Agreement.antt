-- ===== src/Pages/Edit/Languages/Agreement.antt =====
-- That the store, the editor and the header agree on the language.
use editor_sh.Prelude.{
  ℕ, String, true, Option, none, some, List, [], ◌∷◌, ◌++◌, str_eq, if◌then◌else◌, ◌≡◌, refl, ap,
  subst, foldl, eq_iff, inl, inr, Bool-cases,
}
use editor_sh.Prelude.Members.{Elem}
use editor_sh.Models.Language.{Language, language_list, get_language_by_id}
use editor_sh.Models.Language.Lookup.{get_language_by_id-listed}
use editor_sh.Service.Message.{set_lang}
use editor_sh.Store.Codepad.{EditorState, CodepadAction, editor_state_reducer}
use editor_sh.SharedUi.Monaco.{MonacoCall, set_model}
use editor_sh.Pages.Edit.Languages.{
  LanguagePage, language_click, LanguageEvent, on_language_event, on_command_sync,
  dispatch_language, clicked, same_language,
}
use editor_sh.Pages.Edit.Languages.Agreeing.{
  Agrees, IsAgreed, told, same_language_eq, sent-IsAgreed, event-IsAgreed,
}

-- Whatever is clicked and typed, and whatever commands the room sends, known languages or not: if
-- the store, the editor and the header agree on the language at first, they do afterwards, and with a
-- language in the store it is one of the list.
pub foldl-on_language_event-IsAgreed :
    (c : ℕ) (events : List LanguageEvent) (page : LanguagePage)
    → IsAgreed c page
    → IsAgreed c (foldl on_language_event page events)
foldl-on_language_event-IsAgreed c [] page h = h
foldl-on_language_event-IsAgreed c (event ∷ later) page h =
    foldl-on_language_event-IsAgreed c later (on_language_event page event)
      (event-IsAgreed c event page h)

empty_id : get_language_by_id "" ≡ none
unfolding get_language_by_id
empty_id = refl

header-Agrees :
    (o : Option String) (id : String) (header : Language) (calls : List MonacoCall)
    → o ≡ some id
    → Agrees o header calls
    → header.id ≡ id
header-Agrees o id header calls e h = (subst (λ p. Agrees p header calls) e h).2

dispatch_lem :
    (c : ℕ) (id : String) (l : Language) (page : LanguagePage)
    → get_language_by_id id ≡ some l
    → IsAgreed c page
    → let after = dispatch_language (CodepadAction.language_changed id) page in
      (after.editor_state.language ≡ some id)
      × (after.header.id ≡ id)
      × (after.editor.calls ≡ (
          if same_language page.editor_state.language (some id)
          then page.editor.calls
          else page.editor.calls ++ (set_model c page.code l.editor_language ∷ [])))
unfolding dispatch_language editor_state_reducer
dispatch_lem c id l page found h =
    let stored = record page { editor_state = record page.editor_state { language = some id } } in
    let (mounted, shown, model, calls, kept) = told c id l stored found h.mounted in
    elim (Bool-cases (same_language page.editor_state.language (some id))) [
      | inl same ↦ rw same (
        refl,
        header-Agrees page.editor_state.language id page.header page.editor.calls
            (same_language_eq page.editor_state.language id same) h.agrees,
        refl,
      )
      | inr other ↦ rw other (ap (λ (s : EditorState). s.language) kept, shown, calls)
    ]

-- What a language of the list does, coming from the room
on_command_sync-found :
    (id : String) (l : Language) (page : LanguagePage)
    → get_language_by_id id ≡ some l
    → on_command_sync (some id) page ≡ dispatch_language (CodepadAction.language_changed id) page
unfolding on_command_sync
on_command_sync-found id l page found = elim (Bool-cases (str_eq id "")) [
  | inl empty ↦
      let no_language : get_language_by_id "" ≡ none = empty_id in
      cc (found, no_language, (eq_iff id "").0 empty)
  | inr full ↦ rw (full, found) refl
]

-- A language of the list that is clicked in the dialog of a page with a client is sent to the room;
-- if the room sends it back, the store has it, the header shows it, and the editor is given a model
-- in its language with the text that it had, unless the store had that language before.
pub clicked-on_command_sync :
    (c : ℕ) (l : Language) (page : LanguagePage)
    → Elem l language_list
    → page.client ≡ true
    → IsAgreed c page
    → let asked = clicked (language_click l) page in
      let after = on_command_sync (some l.id) asked in
      (asked.sent ≡ page.sent ++ (set_lang l.id ∷ []))
      × (after.editor_state.language ≡ some l.id)
      × (after.header.id ≡ l.id)
      × (after.editor.calls ≡ (
          if same_language page.editor_state.language (some l.id)
          then page.editor.calls
          else page.editor.calls ++ (set_model c page.code l.editor_language ∷ [])))
unfolding clicked
clicked-on_command_sync c l page listed client h =
    let asked = record page { sent = page.sent ++ (set_lang l.id ∷ []) } in
    let found = get_language_by_id-listed l listed in
    let sent = sent-IsAgreed c page (page.sent ++ (set_lang l.id ∷ [])) h in
    let same : clicked (language_click l) page ≡ asked = rw client refl in
    rw (same, on_command_sync-found l.id l asked found)
      (let (stored, shown, calls) = dispatch_lem c l.id l asked found sent in
        (refl, stored, shown, calls))
