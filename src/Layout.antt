-- ===== src/Layout.antt =====
-- The frame of the website (layout/main/website.component.ts): the snack bar over the common feature
-- of the store, and the bar that shows a navigation.
pub mod Announced
mod Tests
use editor_sh.Prelude.{
  Bool, true, false, Option, none, some, List, [], ◌∷◌, ◌++◌, str_eq, foldl, if◌then◌else◌,
}
use editor_sh.Store.Common.{SnackBarMessage, CommonState, CommonAction, common_state_reducer}

-- The state of the common feature, and the messages that the snack bar was opened with.
pub record Frame : Type 0 where
  pub common : CommonState
  pub opened : List SnackBarMessage

-- What `ngAfterViewInit` does for a message of the store
unfoldable pub on_snack_bar_message : Option SnackBarMessage → Frame → Frame
unfolding common_state_reducer
on_snack_bar_message none frame = frame
on_snack_bar_message (some msg) frame = if str_eq msg.message "" then frame else record {
  common = common_state_reducer frame.common CommonAction.snack_bar_message_reset;
  opened = frame.opened ++ (msg ∷ []);
}

-- An action of the common feature. The component hears of every new message, since each is an
-- object of its own, and of the message that goes; the other actions leave the message as it was.
unfoldable pub on_common_action : Frame → CommonAction → Frame
unfolding on_snack_bar_message common_state_reducer
on_common_action frame (CommonAction.snack_bar_message payload) =
    let after = common_state_reducer frame.common (CommonAction.snack_bar_message payload) in
    on_snack_bar_message after.snack_bar_message (record frame { common = after })
on_common_action frame action = record frame { common = common_state_reducer frame.common action }

pub data RouterEvent : Type 0 where
  navigation_start navigation_end navigation_cancel navigation_error : RouterEvent

-- `handleRouterEvent`: whether the progress bar runs
unfoldable pub handle_router_event : Bool → RouterEvent → Bool
handle_router_event running navigation_start = true
handle_router_event running navigation_end = false
handle_router_event running navigation_cancel = false
handle_router_event running navigation_error = running
