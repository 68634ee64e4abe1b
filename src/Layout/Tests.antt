-- ===== src/Layout/Tests.antt =====
-- Actions with messages, one of them without a text.
use editor_sh.Prelude.{none, some, List, [], ◌∷◌, foldl, ◌≡◌}
use editor_sh.Store.Common.{
  SnackBarMessageParams, CommonAction, initial_common_state, common_state_reducer,
}
use editor_sh.Layout.{Frame, on_common_action}
use editor_sh.Layout.Announced.{announced, quiet, IsQuiet, foldl-on_common_action}

abbrev saved : SnackBarMessageParams
saved = record { message = some "Question Saved"; action = none }

abbrev empty : SnackBarMessageParams
empty = record { message = none; action = some "OK" }

abbrev actions : List CommonAction
actions =
    CommonAction.snack_bar_message saved
    ∷ CommonAction.api_error_state_reset
    ∷ CommonAction.snack_bar_message empty
    ∷ CommonAction.snack_bar_message saved
    ∷ CommonAction.snack_bar_message empty
    ∷ []

abbrev frame : Frame
frame = record { common = initial_common_state; opened = [] }

foldl-on_common_action_example :
    let after = foldl on_common_action frame actions in
    (after.opened ≡ announced actions)
    × (quiet after.common ≡ quiet (foldl common_state_reducer initial_common_state actions))
    × IsQuiet after.common.snack_bar_message
foldl-on_common_action_example = foldl-on_common_action actions frame tt
