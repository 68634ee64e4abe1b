-- ===== src/Pages/Edit/Peers.antt =====
-- The cursors of the peers.
use editor_sh.Prelude.{ℕ, Option, none, some, List, [], ◌∷◌, ◌≡◌, refl, ◌==◌, if◌then◌else◌, arith}
use editor_sh.Service.Message.{CursorPosition, CursorChangedEvent, EditorSyncParams}
use editor_sh.Pages.Edit.{
  EditPage, EditorCall, EditorEvent, PeerCursor, positions_of, set_positions, on_editor_sync,
  apply_sync,
}

-- `getPeer`: the positions of the first entry of a peer
abbrev pub positions_at : ℕ → List PeerCursor → Option (List CursorPosition)
positions_at id [] = none
positions_at id (peer ∷ rest) =
    if peer.peer_id == id then some peer.positions else positions_at id rest

-- No peer has two entries.
abbrev pub IsUnique : List PeerCursor → Type 0
IsUnique [] = Unit
IsUnique (peer ∷ rest) = (positions_at peer.peer_id rest ≡ none) × IsUnique rest

positions_at-set_positions :
    (id j : ℕ) (positions : List CursorPosition) (peers : List PeerCursor)
    → positions_at j (set_positions id positions peers)
      ≡ (if id == j then some positions else positions_at j peers)
unfolding set_positions
positions_at-set_positions id j positions [] = refl
positions_at-set_positions id j positions (peer ∷ rest) =
    ground (arith, positions_at-set_positions id j positions rest)

set_positions-IsUnique :
    (id : ℕ) (positions : List CursorPosition) (peers : List PeerCursor)
    → IsUnique peers
    → IsUnique (set_positions id positions peers)
unfolding set_positions
set_positions-IsUnique id positions [] h = (refl, tt)
set_positions-IsUnique id positions (peer ∷ rest) h = ground (
  arith,
  set_positions-IsUnique id positions rest h.1,
  positions_at-set_positions id peer.peer_id positions rest,
)

-- After a message that moves the cursor of a peer, and has neither a text nor a change, that peer
-- has the positions of the message, the others have theirs, and no peer has two entries.
pub peer_cursors-on_editor_sync :
    (fires : EditorCall → List EditorEvent) (params : EditorSyncParams) (page : EditPage)
    (cursor : CursorChangedEvent) (j : ℕ)
    → params.text ≡ none
    → params.changed ≡ none
    → params.cursor ≡ some cursor
    → IsUnique page.peer_cursors
    → let after = on_editor_sync fires page params in
      (positions_at j after.peer_cursors ≡ (
        if cursor.peer_id == j
        then some (positions_of cursor)
        else positions_at j page.peer_cursors))
      × IsUnique after.peer_cursors
unfolding on_editor_sync apply_sync
peer_cursors-on_editor_sync fires params page cursor j no_text no_change moved h =
    rw (no_text, no_change, moved)
      (
        positions_at-set_positions cursor.peer_id j (positions_of cursor) page.peer_cursors,
        set_positions-IsUnique cursor.peer_id (positions_of cursor) page.peer_cursors h,
      )
