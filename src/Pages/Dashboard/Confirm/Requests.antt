-- ===== src/Pages/Dashboard/Confirm/Requests.antt =====
-- The requests that are sent for what is confirmed, and no others.
use editor_sh.Prelude.{some, List, [], ◌∷◌, ◌++◌, foldl, ◌≡◌, refl, sym, ap}
use mathlib.Core.List.{append-nil}
use editor_sh.Store.Dashboard.Questions.Effects.{Dates}
use editor_sh.Store.Action.{Command}
use editor_sh.Store.Website.{Website}
use editor_sh.Pages.Dashboard.Confirm.{Confirming, ConfirmEvent, run}
use editor_sh.Pages.Dashboard.Confirm.Answers.{Pending, answer, Refines}
use editor_sh.Pages.Dashboard.Confirm.Steps.{Moved, event-Refines}

run-Refines :
    (dates : Dates) (w : Website) (events : List ConfirmEvent) (page : Confirming) (s : Pending)
    → Refines w page s
    → Moved w (run dates events page) (foldl answer s events)
unfolding Moved
run-Refines dates w [] page s h = (page, refl, h)
run-Refines dates w (event ∷ later) page s h =
    let (after, e, step) = event-Refines dates w event page s h in
    rw (run, e) (run-Refines dates w later after (answer s event) step)

append_nothing : (w : Website) → w ≡ record w { trail = w.trail ++ [] }
append_nothing w = ap (λ (t : List Command). record w { trail = t }) (sym (append-nil w.trail))

-- Whatever is asked and answered on a dashboard without an open dialog, nothing throws, and what was
-- sent since is the requests of what was confirmed, in the order of the confirmations: nothing for
-- what was cancelled or is still open. Apart from what the store has to confirm nothing else of the
-- website is changed.
pub run_lem :
    (dates : Dates) (w : Website) (events : List ConfirmEvent)
    → (page : Confirming) × (run dates events (record { website = w; asked = []; dialogs = [] })
        ≡ some page)
      × Refines w page (foldl answer (record { pending = []; requests = [] }) events)
unfolding Moved
run_lem dates w events =
    run-Refines dates w events _ _ (record { website_eq = append_nothing w; fits = tt })
