-- ===== src/Pages/Dashboard/Confirm/Answers.antt =====
-- What is asked and confirmed, apart from the dialogs, and how a page stands to it.
use editor_sh.Prelude.{ℕ, zero, suc, some, List, [], ◌∷◌, ◌++◌, map, length, ◌≡◌, refl, ap}
use editor_sh.Service.Api.{Request, question_delete, setting_refresh_api_key}
use editor_sh.Store.Common.{ConfirmData, new_confirm_data}
use editor_sh.Store.Action.{Command}
use editor_sh.Store.Website.{Website}
use editor_sh.Pages.Dashboard.Confirm.{
  Ask, delete_question, reset_api_key, Confirming, ask_at, params_of, Closing, ok, cancel,
  ConfirmEvent, ask, close,
}

-- What was asked and is not answered yet, latest first, and the requests of what was confirmed.
pub record Pending : Type 0 where
  pub pending : List Ask
  pub requests : List Request

abbrev pub request_of : Ask → Request
request_of (delete_question question) = question_delete question.id
request_of reset_api_key = setting_refresh_api_key

abbrev answered : Closing → Ask → List Ask → List Request → Pending
answered ok a rest requests = record { pending = rest; requests = requests ++ (request_of a ∷ []) }
answered cancel a rest requests = record { pending = rest; requests = requests }

abbrev pub answer_first : Closing → List Ask → List Request → Pending
answer_first at [] requests = record { pending = []; requests = requests }
answer_first at (a ∷ rest) requests = answered at a rest requests

abbrev pub answer : Pending → ConfirmEvent → Pending
answer s (ask a) = record s { pending = a ∷ s.pending }
answer s (close at) = answer_first at s.pending s.requests

-- Each open dialog is the one of a pending ask.
abbrev pub Fits : List Ask → List ConfirmData → List Ask → Type 0
Fits asked [] [] = Unit
Fits asked (data_of ∷ dialogs) (a ∷ rest) =
    ((n : ℕ) × (ask_at n asked ≡ some a) × (data_of ≡ new_confirm_data (params_of n a)))
    × Fits asked dialogs rest
Fits asked _ _ = ⊥

-- The website is the first one, but for the requests that were sent and what the store has to
-- confirm; the dialogs are those of the pending asks.
pub record Refines (w : Website) (page : Confirming) (s : Pending) : Type 0 where
  pub website_eq : page.website ≡ record w {
    common = record w.common { confirm_data = page.website.common.confirm_data };
    trail = w.trail ++ map Command.rest s.requests;
  }
  pub fits : Fits page.asked page.dialogs s.pending

ask_at-append :
    (n : ℕ) (asked : List Ask) (a b : Ask)
    → ask_at n asked ≡ some a
    → ask_at n (asked ++ (b ∷ [])) ≡ some a
ask_at-append n [] a b e = cc
ask_at-append zero (x ∷ asked) a b e = e
ask_at-append (suc n) (x ∷ asked) a b e = ask_at-append n asked a b e

pub ask_at-length :
    (asked : List Ask) (b : Ask) → ask_at (length asked) (asked ++ (b ∷ [])) ≡ some b
ask_at-length [] b = refl
ask_at-length (x ∷ asked) b = ask_at-length asked b

pub Fits-append :
    (asked : List Ask) (dialogs : List ConfirmData) (rest : List Ask) (b : Ask)
    → Fits asked dialogs rest
    → Fits (asked ++ (b ∷ [])) dialogs rest
Fits-append asked [] [] b h = tt
Fits-append asked [] (a ∷ rest) b h = absurd h
Fits-append asked (d ∷ dialogs) [] b h = absurd h
Fits-append asked (d ∷ dialogs) (a ∷ rest) b ((n, e, same), h) =
    ((n, ask_at-append n asked a b e, same), Fits-append asked dialogs rest b h)

pub trail-append :
    (xs : List Command) (rs : List Request) (r : Request)
    → (xs ++ map Command.rest rs) ++ (Command.rest r ∷ []) ≡ xs ++ map Command.rest (rs ++ (r ∷ []))
trail-append [] [] r = refl
trail-append [] (s ∷ rs) r = ap (λ zs. Command.rest s ∷ zs) (trail-append [] rs r)
trail-append (x ∷ xs) rs r = ap (λ zs. x ∷ zs) (trail-append xs rs r)
