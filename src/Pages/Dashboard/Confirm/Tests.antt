-- ===== src/Pages/Dashboard/Confirm/Tests.antt =====
-- Confirmations of the deletion of a question and of a new key.
use editor_sh.Prelude.{true, false, none, some, List, [], ◌∷◌, foldl, ◌≡◌, refl}
use editor_sh.Service.Api.{question_delete}
use editor_sh.Store.Dashboard.Questions.{Question}
use editor_sh.Store.Dashboard.Questions.Effects.{Dates}
use editor_sh.Store.Website.{Website}
use editor_sh.Store.Website.Session.{opened_page}
use editor_sh.Pages.Dashboard.Confirm.{
  delete_question, reset_api_key, Confirming, ConfirmEvent, ask, close, ok, cancel, run,
}
use editor_sh.Pages.Dashboard.Confirm.Answers.{answer, Refines}
use editor_sh.Pages.Dashboard.Confirm.Requests.{run_lem}

abbrev dates : Dates
dates = record { to_utc_string = λ t. "Mon, 01 Jan 2018 00:00:00 GMT"; new_date = λ s. 0 }

abbrev site : Website
site = opened_page (record { accessible = true; full = false; item = none })

abbrev question : Question
question = record {
  id = 7;
  language = none;
  author = "a";
  title = "t";
  notes = "";
  content = "";
  create_time = none;
  favorite = false;
}

abbrev events : List ConfirmEvent
events =
    ask (delete_question question)
    ∷ close cancel
    ∷ ask reset_api_key
    ∷ ask (delete_question question)
    ∷ close ok
    ∷ []

sent_7 :
    foldl answer (record { pending = []; requests = [] }) events
    ≡ record { pending = reset_api_key ∷ []; requests = question_delete 7 ∷ [] }
sent_7 = refl

run_lem_example :
    (page : Confirming) × (run dates events (record { website = site; asked = []; dialogs = [] })
      ≡ some page)
    × Refines site page (foldl answer (record { pending = []; requests = [] }) events)
run_lem_example = run_lem dates site events
