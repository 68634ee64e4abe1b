-- ===== src/Pages/Dashboard/Confirm/Steps.antt =====
-- One ask or one answer on a page.
use editor_sh.Prelude.{
  ℕ, Option, none, some, List, [], ◌∷◌, ◌++◌, map, length, ◌≡◌, refl, sym, ap, subst, ◌∙◌,
}
use editor_sh.Service.Api.{Request}
use editor_sh.Store.Common.{ConfirmData, object, new_confirm_data, common_state_reducer}
use editor_sh.Store.Common.Effects.{common_effects}
use editor_sh.Store.Dashboard.Questions.{Question, questions_state_reducer}
use editor_sh.Store.Dashboard.Questions.Effects.{Dates, questions_effects}
use editor_sh.Store.Dashboard.Settings.{settings_state_reducer}
use editor_sh.Store.Dashboard.Settings.Effects.{settings_effects}
use editor_sh.Store.Action.{Command}
use editor_sh.Store.Website.{Website, process, reduce, effects, perform}
use editor_sh.Pages.Dashboard.Confirm.{
  Ask, delete_question, reset_api_key, Confirming, ask_at, params_of, Closing, ok, cancel,
  ConfirmEvent, ask, close, on_confirm_event, question_of, close_first, dispatch, confirm,
  handle_confirm_data, ask_for, after_close, after_closed, payload_of,
}
use editor_sh.Pages.Dashboard.Confirm.Answers.{
  Pending, request_of, answer_first, answer, Fits, Refines, ask_at-length, Fits-append,
  trail-append,
}

-- What a page is after a step, with what it does to the website and the dialogs
unfoldable pub Moved : Website → Option Confirming → Pending → Type 0
Moved w after s = (page : Confirming) × (after ≡ some page) × Refines w page s

ask-Refines :
    (dates : Dates) (w : Website) (a : Ask) (page : Confirming) (s : Pending)
    → Refines w page s
    → Moved w (ask_for dates a page) (answer s (ask a))
unfolding Moved ask_for confirm dispatch handle_confirm_data process reduce effects perform
    common_effects common_state_reducer
ask-Refines dates w a page s h =
    let n = length page.asked in
    let params = params_of n a in
    (
      record {
        website = record page.website {
          common = record page.website.common { confirm_data = some (new_confirm_data params) };
        };
        asked = page.asked ++ (a ∷ []);
        dialogs = new_confirm_data params ∷ page.dialogs;
      },
      refl,
      record {
        website_eq =
            ap
              (λ (v : Website). record v {
                common = record v.common { confirm_data = some (new_confirm_data params) };
              })
              h.website_eq;
        fits = (
          (n, ask_at-length page.asked a, refl),
          Fits-append page.asked page.dialogs s.pending a h.fits,
        );
      },
    )

-- What the page does for a dialog that is cancelled
cancelled :
    (dates : Dates) (a : Ask) (n : ℕ) (dialogs : List ConfirmData) (page : Confirming)
    → after_closed dates (new_confirm_data (params_of n a)) none (record page { dialogs = dialogs })
      ≡ some (record {
        website = record page.website {
          common = record page.website.common { confirm_data = none };
        };
        asked = page.asked;
        dialogs = dialogs;
      })
unfolding after_closed after_close params_of confirm dispatch handle_confirm_data process reduce
    effects perform common_effects common_state_reducer new_confirm_data
cancelled dates (delete_question q) n dialogs page = refl
cancelled dates reset_api_key n dialogs page = refl

-- A dialog that is cancelled
cancel-Refines :
    (dates : Dates) (w : Website) (a : Ask) (rest : List Ask) (n : ℕ) (dialogs : List ConfirmData)
    (page : Confirming) (requests : List Request)
    → (page.website ≡ record w {
      common = record w.common { confirm_data = page.website.common.confirm_data };
      trail = w.trail ++ map Command.rest requests;
    })
    → Fits page.asked dialogs rest
    → Moved w
        (after_closed dates
          (new_confirm_data (params_of n a))
          none
          (record page { dialogs = dialogs }))
        (record { pending = rest; requests = requests })
unfolding Moved
cancel-Refines dates w a rest n dialogs page requests same fits = (
  record {
    website = record page.website { common = record page.website.common { confirm_data = none } };
    asked = page.asked;
    dialogs = dialogs;
  },
  cancelled dates a n dialogs page,
  record {
    website_eq =
        ap (λ (v : Website). record v { common = record v.common { confirm_data = none } }) same;
    fits = fits;
  },
)

question_found :
    (q : Question) (n : ℕ) (asked : List Ask)
    → ask_at n asked ≡ some (delete_question q)
    → question_of (some (object n)) asked ≡ some q
question_found q n asked found = rw (question_of, found) refl

-- What the page does for a dialog that is confirmed
sent :
    (dates : Dates) (a : Ask) (n : ℕ) (dialogs : List ConfirmData) (page : Confirming)
    → ask_at n page.asked ≡ some a
    → after_closed dates
        (new_confirm_data (params_of n a))
        (some (payload_of (new_confirm_data (params_of n a))))
        (record page { dialogs = dialogs })
      ≡ some (record {
        website = record page.website {
          common = record page.website.common { confirm_data = none };
          trail = page.website.trail ++ (Command.rest (request_of a) ∷ []);
        };
        asked = page.asked;
        dialogs = dialogs;
      })
unfolding after_closed after_close params_of payload_of confirm dispatch handle_confirm_data process
    reduce effects perform common_effects common_state_reducer new_confirm_data
    questions_state_reducer questions_effects settings_state_reducer settings_effects
sent dates (delete_question q) n dialogs page found =
    rw (found, question_found q n page.asked found) refl
sent dates reset_api_key n dialogs page found = rw found refl

-- A dialog that is confirmed
ok-Refines :
    (dates : Dates) (w : Website) (a : Ask) (rest : List Ask) (n : ℕ) (dialogs : List ConfirmData)
    (page : Confirming) (requests : List Request)
    → (page.website ≡ record w {
      common = record w.common { confirm_data = page.website.common.confirm_data };
      trail = w.trail ++ map Command.rest requests;
    })
    → ask_at n page.asked ≡ some a
    → Fits page.asked dialogs rest
    → Moved w
        (after_closed dates
          (new_confirm_data (params_of n a))
          (some (payload_of (new_confirm_data (params_of n a))))
          (record page { dialogs = dialogs }))
        (record { pending = rest; requests = requests ++ (request_of a ∷ []) })
unfolding Moved
ok-Refines dates w a rest n dialogs page requests same found fits = (
  record {
    website = record page.website {
      common = record page.website.common { confirm_data = none };
      trail = page.website.trail ++ (Command.rest (request_of a) ∷ []);
    };
    asked = page.asked;
    dialogs = dialogs;
  },
  sent dates a n dialogs page found,
  record {
    website_eq =
        ap
          (λ (v : Website). record v {
            common = record v.common { confirm_data = none };
            trail = v.trail ++ (Command.rest (request_of a) ∷ []);
          })
          same
        ∙ ap
            (λ (t : List Command). record w {
              common = record w.common { confirm_data = none };
              trail = t;
            })
            (trail-append w.trail requests (request_of a));
    fits = fits;
  },
)

close-Refines :
    (dates : Dates) (w : Website) (at : Closing) (page : Confirming) (requests : List Request)
    (dialogs : List ConfirmData) (pending : List Ask)
    → (page.website ≡ record w {
      common = record w.common { confirm_data = page.website.common.confirm_data };
      trail = w.trail ++ map Command.rest requests;
    })
    → page.dialogs ≡ dialogs
    → Fits page.asked dialogs pending
    → Moved w (close_first dates at dialogs page) (answer_first at pending requests)
unfolding Moved
close-Refines dates w at page requests [] [] same e fits = (
  page,
  refl,
  record { website_eq = same; fits = subst (λ ds. Fits page.asked ds []) (sym e) tt },
)
close-Refines dates w at page requests [] (a ∷ pending) same e fits = absurd fits
close-Refines dates w at page requests (d ∷ dialogs) [] same e fits = absurd fits
close-Refines dates w cancel page requests (d ∷ dialogs) (a ∷ pending) same e
      ((n, found, data_eq), fits) =
    rw data_eq (cancel-Refines dates w a pending n dialogs page requests same fits)
close-Refines dates w ok page requests (d ∷ dialogs) (a ∷ pending) same e
      ((n, found, data_eq), fits) =
    rw data_eq (ok-Refines dates w a pending n dialogs page requests same found fits)

pub event-Refines :
    (dates : Dates) (w : Website) (event : ConfirmEvent) (page : Confirming) (s : Pending)
    → Refines w page s
    → Moved w (on_confirm_event dates event page) (answer s event)
unfolding on_confirm_event
event-Refines dates w (ask a) page s h = ask-Refines dates w a page s h
event-Refines dates w (close at) page s h =
    close-Refines dates w at page s.requests page.dialogs s.pending h.website_eq refl h.fits
