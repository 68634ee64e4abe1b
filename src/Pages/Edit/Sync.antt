-- ===== src/Pages/Edit/Sync.antt =====
-- The edits of one page on the page of a peer, without an echo.
use editor_sh.Prelude.{
  ℕ, suc, true, false, none, some, List, [], ◌∷◌, ◌++◌, map, ◌≡◌, refl, ap, ◌∙◌, arith, sym,
  Option-cases, inl, inr,
}
use mathlib.Core.List.{append-nil}
use editor_sh.Service.Message.{EditorSyncParams}
use editor_sh.Pages.Edit.{
  EditPage, EditorEvent, EditorCall, MonacoChange, EditOperation, content_changed, set_value,
  execute_edits, change_of, sync_params, on_editor_event, edits_of, on_events, call_editor,
  apply_sync, on_editor_sync,
}

-- While a remote edit is applied, the events of the editor change nothing.
on_events_remote :
    (events : List EditorEvent) (page : EditPage)
    → page.is_remote_edits ≡ true
    → on_events page events ≡ page
unfolding on_editor_event
on_events_remote [] page remote = refl
on_events_remote (event ∷ rest) page remote =
    let ignored : on_editor_event page event ≡ page = ground arith in
    ap (λ p. on_events p rest) ignored ∙ on_events_remote rest page remote

call_editor_remote :
    (fires : EditorCall → List EditorEvent) (call : EditorCall) (page : EditPage)
    → page.is_remote_edits ≡ true
    → call_editor fires call page ≡ record page { calls = page.calls ++ (call ∷ []) }
call_editor_remote fires call page remote =
    on_events_remote (fires call) (record page { calls = page.calls ++ (call ∷ []) }) remote

-- What a message calls of the editor, and the cursors after it
abbrev pub calls_of : EditorSyncParams → List EditorCall
calls_of params = elim params.text [
  | some text ↦ set_value text ∷ []
  | none ↦ elim params.changed [
    | some changed ↦ execute_edits (edits_of changed.version 0 changed.changes) ∷ []
    | none ↦ []
  ]
]

-- A message of the room is never echoed: whatever events the editor fires while it is applied, what
-- was sent stays as it was, the editor is called as the message says, and afterwards the page
-- listens to its own user again.
pub on_editor_sync-calls :
    (fires : EditorCall → List EditorEvent) (params : EditorSyncParams) (page : EditPage)
    → let after = on_editor_sync fires page params in
      (after.sent ≡ page.sent)
      × (after.calls ≡ page.calls ++ calls_of params)
      × (after.is_remote_edits ≡ false)
      × (after.client ≡ page.client)
unfolding on_editor_sync apply_sync
on_editor_sync-calls fires params page =
    let remote = record page { is_remote_edits = true } in
    elim (Option-cases params.text) [
      | inr (text, e) ↦
          rw (e, call_editor_remote fires (set_value text) remote refl) (refl, refl, refl, refl)
      | inl e ↦ elim (Option-cases params.changed) [
        | inr (changed, e') ↦
            let edits = edits_of changed.version 0 changed.changes in
            rw (e, e', call_editor_remote fires (execute_edits edits) remote refl)
              (refl, refl, refl, refl)
        | inl e' ↦ elim (Option-cases params.cursor) [
          | inr (cursor, e'') ↦ rw (e, e', e'') (refl, sym (append-nil page.calls), refl, refl)
          | inl e'' ↦ rw (e, e', e'') (refl, sym (append-nil page.calls), refl, refl)
        ]
      ]
    ]

-- The edits that a change becomes on the page of a peer
abbrev pub operations : ℕ → ℕ → List MonacoChange → List EditOperation
operations version idx [] = []
operations version idx (item ∷ rest) =
    record { major = version; minor = idx; text = item.text; range = item.range }
    ∷ operations version (suc idx) rest

edits_of-map :
    (version idx : ℕ) (changes : List MonacoChange)
    → edits_of version idx (map change_of changes) ≡ operations version idx changes
unfolding edits_of
edits_of-map version idx [] = refl
edits_of-map version idx (item ∷ rest) =
    ap (λ es. record { major = version; minor = idx; text = item.text; range = item.range } ∷ es)
      (edits_of-map version (suc idx) rest)

-- A change by the user of a page with a client is sent to the room as one message, which makes the
-- editor of a peer execute the same changes, in their order, with the same texts and ranges.
pub on_editor_sync-on_editor_event :
    (fires : EditorCall → List EditorEvent) (version : ℕ) (changes : List MonacoChange)
    (page peer : EditPage)
    → page.is_remote_edits ≡ false
    → page.client ≡ true
    → (params : EditorSyncParams) × ((on_editor_event page (content_changed version changes)).sent
        ≡ page.sent ++ (params ∷ []))
      × ((on_editor_sync fires peer params).calls
          ≡ peer.calls ++ (execute_edits (operations version 0 changes) ∷ []))
unfolding on_editor_event sync_params
on_editor_sync-on_editor_event fires version changes page peer local client =
    let params = sync_params (content_changed version changes) in
    (
      params,
      rw (local, client) refl,
      (on_editor_sync-calls fires params peer).1
          ∙ ap (λ es. peer.calls ++ (execute_edits es ∷ [])) (edits_of-map version 0 changes),
    )
