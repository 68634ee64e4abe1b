-- ===== src/Pages/Edit/Tests.antt =====
-- Two pages of a room.
use editor_sh.Prelude.{true, false, none, some, List, [], ◌∷◌, ◌++◌, ◌≡◌, refl}
use editor_sh.Service.Message.{CursorPosition, CursorChangedEvent, EditorSyncParams}
use editor_sh.Pages.Edit.{
  EditPage, EditorCall, EditorEvent, MonacoChange, content_changed, execute_edits, on_editor_event,
  on_editor_sync,
}
use editor_sh.Pages.Edit.Sync.{
  calls_of, operations, on_editor_sync-calls, on_editor_sync-on_editor_event,
}

abbrev open_page : EditPage
open_page = record {
  is_remote_edits = false;
  client = true;
  peer_cursors = [];
  calls = [];
  sent = [];
}

abbrev typed : MonacoChange
typed = record {
  range = record { start_line_number = 1; start_column = 1; end_line_number = 1; end_column = 1 };
  text = "x";
}

-- An editor that tells of each change
abbrev fires : EditorCall → List EditorEvent
fires call = content_changed 2 (typed ∷ []) ∷ []

abbrev here : CursorPosition
here = record { line = 3; column = 4 }

abbrev moved : CursorChangedEvent
moved = record { peer_id = 8; position = some here; secondary_positions = [] }

abbrev cursor_message : EditorSyncParams
cursor_message = record { changed = none; text = none; cursor = some moved }

abbrev text_message : EditorSyncParams
text_message = record { changed = none; text = some "all"; cursor = none }

on_editor_sync-calls_example :
    ((on_editor_sync fires open_page text_message).sent ≡ open_page.sent)
    × ((on_editor_sync fires open_page text_message).calls
        ≡ open_page.calls ++ calls_of text_message)
    × ((on_editor_sync fires open_page text_message).is_remote_edits ≡ false)
    × ((on_editor_sync fires open_page text_message).client ≡ open_page.client)
on_editor_sync-calls_example = on_editor_sync-calls fires text_message open_page

on_editor_sync-on_editor_event_example :
    (params : EditorSyncParams) × ((on_editor_event open_page (content_changed 2 (typed ∷ []))).sent
      ≡ open_page.sent ++ (params ∷ []))
    × ((on_editor_sync fires open_page params).calls
        ≡ open_page.calls ++ (execute_edits (operations 2 0 (typed ∷ [])) ∷ []))
on_editor_sync-on_editor_event_example =
    on_editor_sync-on_editor_event fires 2 (typed ∷ []) open_page open_page refl refl
