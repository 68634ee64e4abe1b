-- ===== src/Pages/Edit/Languages/Agreeing.antt =====
-- That one event keeps the language of a page in agreement.
use editor_sh.Prelude.{
  ℕ, String, Bool, true, false, Option, none, some, List, [], ◌∷◌, ◌++◌, str_eq, if◌then◌else◌, ◌≡◌,
  refl, ap, sym, subst, ◌∙◌, arith, eq_iff,
}
use editor_sh.Models.Language.{Language, get_language_by_id}
use editor_sh.Models.Language.Lookup.{id-get_language_by_id}
use editor_sh.Service.Message.{Content, set_lang, reset, run_code}
use editor_sh.Store.Codepad.{EditorState, CodepadAction, editor_state_reducer}
use editor_sh.SharedUi.Monaco.{MonacoCall, set_model, change_language}
use editor_sh.Pages.Edit.Languages.{
  LanguagePage, Click, no_click, info_click, language_click, LanguageEvent, click, command,
  type_text, press_reset, press_run, on_language_event, on_language_changed, on_command_sync,
  dispatch_language, clicked, same_language,
}

-- The language of the model in the editor, which was `initial` before any call
abbrev model_language : String → List MonacoCall → String
model_language initial [] = initial
model_language initial (set_model c code editor_language ∷ calls) =
    model_language editor_language calls
model_language initial (_ ∷ calls) = model_language initial calls

-- With a language in the store, it is one of the list, the header shows it, and the model of the
-- editor is in the language that the list has for it.
abbrev pub Agrees : Option String → Language → List MonacoCall → Type 0
Agrees none header calls = Unit
Agrees (some id) header calls =
    (l : Language) × (get_language_by_id id ≡ some l)
    × (header.id ≡ id)
    × (model_language "typescript" calls ≡ l.editor_language)

pub record IsAgreed (c : ℕ) (page : LanguagePage) : Type 0 where
  pub mounted : page.editor.editor ≡ some c
  pub agrees : Agrees page.editor_state.language page.header page.editor.calls

model_language-append :
    (initial : String) (calls : List MonacoCall) (c : ℕ) (code l : String)
    → model_language initial (calls ++ (set_model c code l ∷ [])) ≡ l
model_language-append initial [] c code l = refl
model_language-append initial (set_model d k m ∷ calls) c code l =
    model_language-append m calls c code l
model_language-append initial (MonacoCall.create d o ∷ calls) c code l =
    model_language-append initial calls c code l
model_language-append initial (MonacoCall.dispose d ∷ calls) c code l =
    model_language-append initial calls c code l
model_language-append initial (MonacoCall.layout d ∷ calls) c code l =
    model_language-append initial calls c code l
model_language-append initial (MonacoCall.set_value d v ∷ calls) c code l =
    model_language-append initial calls c code l

-- A language of the list that the page is told
pub told :
    (c : ℕ) (id : String) (l : Language) (page : LanguagePage)
    → get_language_by_id id ≡ some l
    → page.editor.editor ≡ some c
    → let after = on_language_changed (some id) page in
      (after.editor.editor ≡ some c)
      × (after.header.id ≡ id)
      × (model_language "typescript" after.editor.calls ≡ l.editor_language)
      × (after.editor.calls ≡ page.editor.calls ++ (set_model c page.code l.editor_language ∷ []))
      × (after.editor_state ≡ page.editor_state)
unfolding on_language_changed change_language
told c id l page found e = ground (
  arith,
  id-get_language_by_id id l found,
  eq_iff page.header.id l.id,
  model_language-append "typescript" page.editor.calls c page.code l.editor_language,
)

told-IsAgreed :
    (c : ℕ) (id : String) (l : Language) (page : LanguagePage)
    → get_language_by_id id ≡ some l
    → page.editor.editor ≡ some c
    → page.editor_state.language ≡ some id
    → IsAgreed c (on_language_changed (some id) page)
told-IsAgreed c id l page found e stored =
    let (mounted, shown, model, calls, same) = told c id l page found e in
    let after = on_language_changed (some id) page in
    record {
      mounted = mounted;
      agrees =
          subst (λ o. Agrees o after.header after.editor.calls)
            (sym (ap (λ (s : EditorState). s.language) same ∙ stored)) (l, found, shown, model);
    }

pub same_language_eq :
    (o : Option String) (id : String) → same_language o (some id) ≡ true → o ≡ some id
same_language_eq none id e = cc
same_language_eq (some k) id e = ap some ((eq_iff k id).0 e)

either-IsAgreed :
    (c : ℕ) (b : Bool) (x y : LanguagePage)
    → (b ≡ true → IsAgreed c x)
    → (b ≡ false → IsAgreed c y)
    → IsAgreed c (if b then x else y)
either-IsAgreed c true x y hx hy = hx refl
either-IsAgreed c false x y hx hy = hy refl

-- A change of the store to a language of the list
dispatch-IsAgreed :
    (c : ℕ) (id : String) (l : Language) (page : LanguagePage)
    → get_language_by_id id ≡ some l
    → IsAgreed c page
    → IsAgreed c (dispatch_language (CodepadAction.language_changed id) page)
unfolding dispatch_language editor_state_reducer
dispatch-IsAgreed c id l page found h =
    let stored = record page { editor_state = record page.editor_state { language = some id } } in
    either-IsAgreed c (same_language page.editor_state.language (some id)) stored _
      (λ same. record {
        mounted = h.mounted;
        agrees =
            subst (λ o. Agrees o page.header page.editor.calls)
              (same_language_eq page.editor_state.language id same) h.agrees;
      })
      (λ _. told-IsAgreed c id l stored found h.mounted refl)

command-IsAgreed :
    (c : ℕ) (lang : Option String) (page : LanguagePage)
    → IsAgreed c page
    → IsAgreed c (on_command_sync lang page)
unfolding on_command_sync
command-IsAgreed c none page h = h
command-IsAgreed c (some id) page h =
    either-IsAgreed c (str_eq id "") page _ (λ _. h)
      (λ _. found-IsAgreed (get_language_by_id id) refl)
  where
    found-IsAgreed :
        (o : Option Language)
        → get_language_by_id id ≡ o
        → IsAgreed c (elim o [
          | none ↦ page
          | some l ↦ dispatch_language (CodepadAction.language_changed id) page
        ])
    found-IsAgreed none e = h
    found-IsAgreed (some l) e = dispatch-IsAgreed c id l page e h

-- What only sends something
pub sent-IsAgreed :
    (c : ℕ) (page : LanguagePage) (sent : List Content)
    → IsAgreed c page
    → IsAgreed c (record page { sent = sent })
sent-IsAgreed c page sent h = record { mounted = h.mounted; agrees = h.agrees }

clicked-IsAgreed :
    (c : ℕ) (at : Click) (page : LanguagePage) → IsAgreed c page → IsAgreed c (clicked at page)
unfolding clicked
clicked-IsAgreed c no_click page h = h
clicked-IsAgreed c (info_click l) page h = h
clicked-IsAgreed c (language_click l) page h =
    either-IsAgreed c page.client (record page { sent = page.sent ++ (set_lang l.id ∷ []) }) page
      (λ _. sent-IsAgreed c page (page.sent ++ (set_lang l.id ∷ [])) h) (λ _. h)

pub event-IsAgreed :
    (c : ℕ) (event : LanguageEvent) (page : LanguagePage)
    → IsAgreed c page
    → IsAgreed c (on_language_event page event)
unfolding on_language_event
event-IsAgreed c (click at) page h = clicked-IsAgreed c at page h
event-IsAgreed c (command lang) page h = command-IsAgreed c lang page h
event-IsAgreed c (type_text text) page h = record { mounted = h.mounted; agrees = h.agrees }
event-IsAgreed c press_reset page h =
    either-IsAgreed c page.client (record page { sent = page.sent ++ (reset ∷ []) }) page
      (λ _. sent-IsAgreed c page (page.sent ++ (reset ∷ [])) h) (λ _. h)
event-IsAgreed c press_run page h =
    either-IsAgreed c page.client (record page { sent = page.sent ++ (run_code page.code ∷ []) })
      page (λ _. sent-IsAgreed c page (page.sent ++ (run_code page.code ∷ [])) h) (λ _. h)
