-- ===== src/Store/Website/Cascade.antt =====
-- That the cascades of dispatched actions end.
use editor_sh.Prelude.{
  ℕ, zero, suc, ◌+◌, ◌*◌, ◌≤◌, List, [], ◌∷◌, ◌++◌, length, ◌≡◌, ◌≢◌, arith, none, some, Option,
}
use editor_sh.Store.Common.{CommonAction}
use editor_sh.Store.Common.Effects.{common_effects}
use editor_sh.Store.Auth.{refresh_token}
use editor_sh.Store.Auth.Effects.{auth_effects}
use editor_sh.Store.Dashboard.Questions
use editor_sh.Store.Dashboard.Questions.Effects.{Dates, questions_effects}
use editor_sh.Store.Dashboard.Databases
use editor_sh.Store.Dashboard.Databases.Effects.{databases_effects}
use editor_sh.Store.Dashboard.Pads
use editor_sh.Store.Dashboard.Pads.Effects.{pads_effects}
use editor_sh.Store.Dashboard.Settings.Effects.{settings_effects}
use editor_sh.Store.Action.{WebsiteAction, Command}
use editor_sh.Store.Website.{
  Website, reduce, effects, Performed, done, crashed, perform, after_reduce, handle, threw,
  out_of_fuel, process,
}

-- A bound on the actions that one action brings about, with itself.
abbrev weight : WebsiteAction → ℕ
weight (WebsiteAction.common CommonAction.api_unauthorized_access) = 2
weight (WebsiteAction.common (CommonAction.api_error_state e)) = 2
weight (WebsiteAction.auth refresh_token) = 2
weight (WebsiteAction.questions (Questions.save_success q)) = 2
weight (WebsiteAction.questions (Questions.delete_success id)) = 2
weight (WebsiteAction.databases (Databases.save_success d)) = 2
weight (WebsiteAction.databases (Databases.delete_success id)) = 2
weight (WebsiteAction.pads (Pads.create_pad_success p)) = 2
weight _ = 1

abbrev total : List WebsiteAction → ℕ
total [] = 0
total (a ∷ as') = weight a + total as'

total-append : (xs ys : List WebsiteAction) → total (xs ++ ys) ≡ total xs + total ys
total-append [] ys = omega arith
total-append (x ∷ xs) ys = omega (arith, total-append xs ys)

total-length : (xs : List WebsiteAction) → total xs ≤ 2 * length xs
total-length [] = omega arith
total-length (x ∷ xs) = ground (arith, total-length xs)

abbrev dispatched : List Command → List WebsiteAction
dispatched [] = []
dispatched (Command.dispatch a ∷ rest) = a ∷ dispatched rest
dispatched (_ ∷ rest) = dispatched rest

abbrev later : Performed → List WebsiteAction
later (done w queue) = queue
later (crashed w) = []

later-perform :
    (cs : List Command) (w : Website) → total (later (perform cs w)) ≤ total (dispatched cs)
unfolding perform
later-perform [] w = omega arith
later-perform (Command.dispatch a ∷ rest) w = ground (arith, later-perform rest w)
later-perform (Command.save_token token ∷ rest) w = later-perform rest _
later-perform (Command.destroy_token ∷ rest) w = later-perform rest _
later-perform (Command.crash ∷ rest) w = omega arith
later-perform (Command.navigate path ∷ rest) w = later-perform rest _
later-perform (Command.location_go path ∷ rest) w = later-perform rest _
later-perform (Command.location_href url ∷ rest) w = later-perform rest _
later-perform (Command.graphql call ∷ rest) w = later-perform rest _
later-perform (Command.rest request ∷ rest) w = later-perform rest _

dispatched-effects :
    (dates : Dates) (w : Website) (a : WebsiteAction)
    → suc (total (dispatched (effects dates w a))) ≤ weight a
unfolding effects common_effects auth_effects questions_effects databases_effects pads_effects
    settings_effects
dispatched-effects dates w (WebsiteAction.common a) = ground arith
dispatched-effects dates w (WebsiteAction.auth a) = ground arith
dispatched-effects dates w (WebsiteAction.questions a) = ground arith
dispatched-effects dates w (WebsiteAction.databases a) = ground arith
dispatched-effects dates w (WebsiteAction.pads a) = ground arith
dispatched-effects dates w (WebsiteAction.settings a) = ground arith

later-after_reduce :
    (dates : Dates) (w : Website) (a : WebsiteAction) (r : Option Website)
    → suc (total (later (after_reduce dates w a r))) ≤ weight a
later-after_reduce dates w a none = ground arith
later-after_reduce dates w a (some v) =
    omega (arith, later-perform (effects dates v a) v, dispatched-effects dates v a)

-- What is left after one action, under a bound that holds for the rest.
continue-ends :
    (fuel : ℕ) (dates : Dates) (queue : List WebsiteAction) (p : Performed)
    → ((w : Website) (q : List WebsiteAction)
        → total q ≤ fuel
        → process fuel dates w q ≢ out_of_fuel)
    → total (later p) + total queue ≤ fuel
    → elim p [
      | crashed after ↦ threw after
      | done after more ↦ process fuel dates after (queue ++ more)
    ]
      ≢ out_of_fuel
continue-ends fuel dates queue (crashed w) ih h = λ e. cc
continue-ends fuel dates queue (done w more) ih h =
    ih w (queue ++ more) (omega (arith, total-append queue more))

process_total :
    (fuel : ℕ) (dates : Dates) (w : Website) (queue : List WebsiteAction)
    → total queue ≤ fuel
    → process fuel dates w queue ≢ out_of_fuel
unfolding process
process_total fuel dates w [] h = λ e. cc
process_total zero dates w (a ∷ queue) h = ground arith
process_total (suc fuel) dates w (a ∷ queue) h =
    continue-ends fuel dates queue (handle dates w a) (process_total fuel dates)
      (omega (arith, later-after_reduce dates w a (reduce w a)))

-- However the store is and whatever is dispatched, the cascade of actions ends, by finishing or by
-- an exception: fuel for two actions for each that is dispatched is never used up.
pub process-ends :
    (dates : Dates) (w : Website) (queue : List WebsiteAction) (fuel : ℕ)
    → 2 * length queue ≤ fuel
    → process fuel dates w queue ≢ out_of_fuel
process-ends dates w queue fuel h =
    process_total fuel dates w queue (omega (arith, total-length queue))
