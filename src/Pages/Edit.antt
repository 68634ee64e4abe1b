-- ===== src/Pages/Edit.antt =====
-- The edit page of a codepad (pages/codepad/pages/edit/codepad-edit.component.ts): what it sends for
-- the events of the Monaco editor, what it does to the editor for a message of the room, and the
-- cursors of the peers. The decorations that show the cursors belong to the editor, and are left out.
pub mod Sync
pub mod Peers
pub mod Channels
pub mod Visit
pub mod Languages
mod Tests
use editor_sh.Prelude.{
  ℕ, suc, String, Bool, true, false, Option, none, some, List, [], ◌∷◌, ◌++◌, map, ◌==◌, not, ◌||◌,
  if◌then◌else◌,
}
use editor_sh.Models.Language.{get_language_by_id}
use editor_sh.Service.Message.{
  CursorPosition, TextRange, TextChange, EditorChangedEvent, CursorChangedEvent, EditorSyncParams,
}
use editor_sh.Store.Codepad.{CodepadAction}

-- The editor's own range, position and change
pub record MonacoRange : Type 0 where
  pub start_line_number : ℕ
  pub start_column : ℕ
  pub end_line_number : ℕ
  pub end_column : ℕ

pub record MonacoPosition : Type 0 where
  pub line_number : ℕ
  pub column : ℕ

pub record MonacoChange : Type 0 where
  pub range : MonacoRange
  pub text : String

-- The events of the editor that the page listens to
pub data EditorEvent : Type 0 where
  content_changed : (version_id : ℕ) → (changes : List MonacoChange) → EditorEvent
  cursor_moved : (position : MonacoPosition) → (secondary : List MonacoPosition) → EditorEvent

-- One of the edits of `executeEdits`, with the two parts of its identifier
pub record EditOperation : Type 0 where
  pub major : ℕ
  pub minor : ℕ
  pub text : String
  pub range : MonacoRange

-- What the page does to the editor
pub data EditorCall : Type 0 where
  set_value : String → EditorCall
  execute_edits : List EditOperation → EditorCall

pub record PeerCursor : Type 0 where
  pub peer_id : ℕ
  pub positions : List CursorPosition

-- `client` tells whether the service has a current client; `calls` and `sent` are what was done to
-- the editor and what was sent to the room so far.
pub record EditPage : Type 0 where
  pub is_remote_edits : Bool
  pub client : Bool
  pub peer_cursors : List PeerCursor
  pub calls : List EditorCall
  pub sent : List EditorSyncParams

abbrev pub range_of : MonacoRange → TextRange
range_of r = record {
  start_line = r.start_line_number;
  start_column = r.start_column;
  end_line = r.end_line_number;
  end_column = r.end_column;
}

abbrev pub change_of : MonacoChange → TextChange
change_of item = record { text = item.text; range = range_of item.range }

abbrev pub position_of : MonacoPosition → CursorPosition
position_of p = record { line = p.line_number; column = p.column }

-- What `onEditorChanged` and `onCursorPositionChanged` send
unfoldable pub sync_params : EditorEvent → EditorSyncParams
sync_params (content_changed version_id changes) = record {
  changed = some (record { version = version_id; changes = map change_of changes });
  text = none;
  cursor = none;
}
sync_params (cursor_moved position secondary) = record {
  changed = none;
  text = none;
  cursor = some (record {
    peer_id = 0;
    position = some (position_of position);
    secondary_positions = map position_of secondary;
  });
}

-- `onEditorChanged` and `onCursorPositionChanged`
unfoldable pub on_editor_event : EditPage → EditorEvent → EditPage
unfolding sync_params
on_editor_event page event =
    if page.is_remote_edits
    then page
    else if page.client
    then record page { sent = page.sent ++ (sync_params event ∷ []) }
    else page

abbrev pub monaco_range : TextRange → MonacoRange
monaco_range r = record {
  start_line_number = r.start_line;
  start_column = r.start_column;
  end_line_number = r.end_line;
  end_column = r.end_column;
}

-- `changes.map((item, idx) => ...)`, from the index `idx` on
unfoldable pub edits_of : ℕ → ℕ → List TextChange → List EditOperation
edits_of version idx [] = []
edits_of version idx (item ∷ rest) =
    record { major = version; minor = idx; text = item.text; range = monaco_range item.range }
    ∷ edits_of version (suc idx) rest

-- `getOrCreatePeer` with the change of its positions
unfoldable pub set_positions : ℕ → List CursorPosition → List PeerCursor → List PeerCursor
set_positions peer_id positions [] = record { peer_id = peer_id; positions = positions } ∷ []
set_positions peer_id positions (peer ∷ rest) =
    if peer.peer_id == peer_id
    then record peer { positions = positions } ∷ rest
    else peer ∷ set_positions peer_id positions rest

abbrev pub positions_of : CursorChangedEvent → List CursorPosition
positions_of cursor = elim cursor.position [
  | none ↦ cursor.secondary_positions
  | some position ↦ position ∷ cursor.secondary_positions
]

abbrev pub on_events : EditPage → List EditorEvent → EditPage
on_events page [] = page
on_events page (event ∷ rest) = on_events (on_editor_event page event) rest

-- What a message does: `fires` tells which events the editor fires, at once, for a call.
module _ (fires : EditorCall → List EditorEvent) where
  -- A call of the editor
  abbrev pub call_editor : EditorCall → EditPage → EditPage
  call_editor call page = on_events (record page { calls = page.calls ++ (call ∷ []) }) (fires call)

  -- The body of `onEditorSync`: the first of `text`, `changed` and `cursor` that is there counts.
  unfoldable pub apply_sync : EditorSyncParams → EditPage → EditPage
  unfolding on_editor_event edits_of set_positions
  apply_sync params page = elim params.text [
    | some text ↦ call_editor (set_value text) page
    | none ↦ elim params.changed [
      | some changed ↦ call_editor (execute_edits (edits_of changed.version 0 changed.changes)) page
      | none ↦ elim params.cursor [
        | some cursor ↦ record page {
          peer_cursors = set_positions cursor.peer_id (positions_of cursor) page.peer_cursors;
        }
        | none ↦ page
      ]
    ]
  ]

  -- `onEditorSync`
  unfoldable pub on_editor_sync : EditPage → EditorSyncParams → EditPage
  unfolding apply_sync
  on_editor_sync page params = record (apply_sync params (record page { is_remote_edits = true })) {
    is_remote_edits = false;
  }
