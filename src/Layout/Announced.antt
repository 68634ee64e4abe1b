-- ===== src/Layout/Announced.antt =====
-- Which messages the snack bar shows.
use editor_sh.Prelude.{
  Bool, true, false, Option, none, some, List, [], ◌∷◌, ◌++◌, str_eq, foldl, if◌then◌else◌, ◌≡◌,
  refl, ap, sym, ◌∙◌, eq_iff,
}
use mathlib.Core.List.{append-nil, append_assoc}
use editor_sh.Store.Common.{
  SnackBarMessage, new_snack_bar_message, CommonState, CommonAction, common_state_reducer,
}
use editor_sh.Layout.{Frame, on_snack_bar_message, on_common_action}

abbrev only_full : SnackBarMessage → List SnackBarMessage
only_full msg = if str_eq msg.message "" then [] else msg ∷ []

-- The messages of some actions that have a text, with the defaults
abbrev pub announced : List CommonAction → List SnackBarMessage
announced [] = []
announced (CommonAction.snack_bar_message payload ∷ actions) =
    only_full (new_snack_bar_message payload) ++ announced actions
announced (_ ∷ actions) = announced actions

-- A state, but for the message
abbrev pub quiet : CommonState → CommonState
quiet state = record state { snack_bar_message = none }

-- Only a message without a text stays in the store.
abbrev pub IsQuiet : Option SnackBarMessage → Type 0
IsQuiet none = Unit
IsQuiet (some msg) = msg.message ≡ ""

-- What is shown of one message
shown_if :
    (b : Bool) (msg : SnackBarMessage) (frame : Frame)
    → str_eq msg.message "" ≡ b
    → let after =
        if b
        then record frame { common = record frame.common { snack_bar_message = some msg } }
        else record {
          common = record frame.common { snack_bar_message = none };
          opened = frame.opened ++ (msg ∷ []);
        } in
      (after.opened ≡ frame.opened ++ (if b then [] else msg ∷ []))
      × (quiet after.common ≡ quiet frame.common)
      × IsQuiet after.common.snack_bar_message
shown_if true msg frame e = (sym (append-nil frame.opened), refl, (eq_iff msg.message "").0 e)
shown_if false msg frame e = (refl, refl, tt)

quiet-common_state_reducer :
    (s t : CommonState) (action : CommonAction)
    → quiet s ≡ quiet t
    → quiet (common_state_reducer s action) ≡ quiet (common_state_reducer t action)
unfolding common_state_reducer
quiet-common_state_reducer s t (CommonAction.snack_bar_message payload) e = e
quiet-common_state_reducer s t CommonAction.snack_bar_message_reset e = e
quiet-common_state_reducer s t (CommonAction.api_error_state payload) e =
    ap
      (λ (q : CommonState). record q {
        api_error_state = some (record { errors = payload.errors });
      })
      e
quiet-common_state_reducer s t CommonAction.api_error_state_reset e =
    ap (λ (q : CommonState). record q { api_error_state = none }) e
quiet-common_state_reducer s t CommonAction.api_unauthorized_access e = e
quiet-common_state_reducer s t (CommonAction.confirm_dialog payload) e =
    ap (λ (q : CommonState). quiet (common_state_reducer q (CommonAction.confirm_dialog payload))) e

quiet-foldl :
    (actions : List CommonAction) (s t : CommonState)
    → quiet s ≡ quiet t
    → quiet (foldl common_state_reducer s actions) ≡ quiet (foldl common_state_reducer t actions)
quiet-foldl [] s t e = e
quiet-foldl (action ∷ later) s t e =
    quiet-foldl later (common_state_reducer s action) (common_state_reducer t action)
      (quiet-common_state_reducer s t action e)

-- Over every sequence of actions of the common feature: the snack bar is opened once for each
-- message that has a text, in their order and with its defaults, and for no other; and apart from the
-- message, of which only one without a text stays in the store, the state is what the reducer alone
-- makes of the actions.
pub foldl-on_common_action :
    (actions : List CommonAction) (frame : Frame)
    → IsQuiet frame.common.snack_bar_message
    → let after = foldl on_common_action frame actions in
      (after.opened ≡ frame.opened ++ announced actions)
      × (quiet after.common ≡ quiet (foldl common_state_reducer frame.common actions))
      × IsQuiet after.common.snack_bar_message
unfolding on_common_action on_snack_bar_message common_state_reducer
foldl-on_common_action [] frame h = (sym (append-nil frame.opened), refl, h)
foldl-on_common_action (CommonAction.snack_bar_message payload ∷ later) frame h =
    let msg = new_snack_bar_message payload in
    let next = on_common_action frame (CommonAction.snack_bar_message payload) in
    let (opened1, quiet1, silent1) = shown_if (str_eq msg.message "") msg frame refl in
    let (opened2, quiet2, silent2) = foldl-on_common_action later next silent1 in
    (
      opened2
          ∙ ap (λ os. os ++ announced later) opened1
          ∙ append_assoc frame.opened (only_full msg) (announced later),
      quiet2 ∙ quiet-foldl later next.common _ quiet1,
      silent2,
    )
foldl-on_common_action (CommonAction.snack_bar_message_reset ∷ later) frame h =
    foldl-on_common_action later _ tt
foldl-on_common_action (action ∷ later) frame h = foldl-on_common_action later _ h
