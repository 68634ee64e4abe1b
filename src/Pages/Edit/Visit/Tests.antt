-- ===== src/Pages/Edit/Visit/Tests.antt =====
-- Visits to rooms.
use editor_sh.Prelude.{ℕ, ◌+◌, ◌≤◌, map, true, false, inl, List, [], ◌∷◌, none, foldl, ◌≡◌, refl}
use editor_sh.Service.Endpoint.{Location}
use editor_sh.Service.Client.{is_listening, add_listener, remove_listener}
use editor_sh.Store.Codepad.{ConnectStatus, client_state_reducer}
use editor_sh.Store.Codepad.Connection.{
  status, socket_opened, socket_ended, step, start, connect_effect, disconnect_effect,
  create_client, make_client, listen, fire_each, call,
}
use editor_sh.Store.Codepad.Connection.Rest.{is_busy}
use editor_sh.Store.Codepad.Consistency.Runs.{run-IsConsistent}
use editor_sh.Pages.Edit.Channels.{terminado_detach, get_message}
use editor_sh.Pages.Edit.Visit.{
  Visit, turn_to, mount, conn_step, on_destroy, terminado_attach, on_editor_did_mount,
  on_terminal_did_mount, open_page, unsubscribe,
}
use editor_sh.Service.Message.Registry.{
  adaptor, add_message_listener, remove_message_listener, find_adaptor, splice_first,
}
use editor_sh.Service.Message.Calls.{count}
use editor_sh.Pages.Edit.Visit.Tidy.{removals, times, terminal_listeners}
use editor_sh.Pages.Edit.Visit.Mounting.{whole_visit}
use editor_sh.Pages.Edit.Visit.Turning.{IsStranded, mounted_page, mount-IsStranded}
use editor_sh.Pages.Edit.Visit.Histories.{
  Happening, editor_did_mount, terminal_did_mount, destroyed, turned, opened, closed, happen,
  first_visit, on_destroy_lem,
}

abbrev site : Location
site = record { https = true; host = "editor.sh" }

abbrev fresh : Visit
fresh = first_visit "start"

fresh_status : status fresh.conn ≡ ConnectStatus.none
unfolding first_visit
fresh_status = refl

fresh_conn : fresh.conn ≡ start
unfolding first_visit
fresh_conn = refl

abbrev joined : Visit
joined = conn_step site (socket_opened fresh.conn.count) (mount true site (turn_to "abc" fresh))

abbrev left : Visit
left = conn_step site (socket_ended fresh.conn.count) (on_destroy site joined)

whole_visit_example :
    ((status joined.conn ≡ ConnectStatus.connected) × (joined.attached ≡ fresh.conn.count ∷ []))
    × (status left.conn ≡ ConnectStatus.closed)
    × (left.conn.current ≡ none)
whole_visit_example =
    whole_visit site "abc" true fresh (rw fresh_conn (run-IsConsistent site [])) (inl fresh_status)

abbrev history : List Happening
history =
    terminal_did_mount
    ∷ editor_did_mount
    ∷ opened 0
    ∷ turned "xyz"
    ∷ closed 0
    ∷ editor_did_mount
    ∷ terminal_did_mount
    ∷ []

abbrev last_seen : Visit
last_seen = foldl (happen site) (first_visit "abc") history

abbrev over : Visit
over = on_destroy site last_seen

on_destroy_lem_example :
    (over.page.subscriptions ≡ [])
    × (is_busy (status over.conn) ≡ false)
    × ((c : ℕ)
        → ((over.messages c).socket_listeners ≡ map adaptor (over.messages c).message_listeners)
          × ((l : ℕ)
              → count l (over.messages c).message_listeners
                ≤ times l (terminal_listeners c over.attachments))
          × ((l : ℕ)
              → count l (over.messages c).message_listeners
                  + times l (removals c last_seen.page.subscriptions)
                ≤ 1))
on_destroy_lem_example = on_destroy_lem site "abc" history

-- A page that was left while it was in its room, whose socket has not ended yet
abbrev leaving : Visit
leaving =
    foldl (happen site) (first_visit "abc")
      (editor_did_mount ∷ terminal_did_mount ∷ opened 0 ∷ destroyed ∷ [])

leaving_status : status leaving.conn ≡ ConnectStatus.disconnecting
unfolding happen first_visit step connect_effect disconnect_effect create_client make_client listen
    fire_each call client_state_reducer is_listening add_listener remove_listener
leaving_status = refl

mount-IsStranded_example :
    IsStranded (mounted_page "xyz") leaving.messages leaving.attachments leaving.conn.created (
      foldl
        (λ u i. conn_step site i u)
        (mount true site (turn_to "xyz" leaving))
        (socket_ended 0 ∷ []))
mount-IsStranded_example =
    mount-IsStranded site "xyz" true leaving (socket_ended 0 ∷ []) leaving_status (refl, tt)

-- The listener of the terminal is the one that a page leaves on its client, until the socket ends.
left_behind : (leaving.messages 0).message_listeners ≡ (2, 2) ∷ []
unfolding happen first_visit step connect_effect disconnect_effect create_client make_client listen
    fire_each call client_state_reducer is_listening add_listener remove_listener
    add_message_listener remove_message_listener find_adaptor splice_first terminado_attach
    on_editor_did_mount on_terminal_did_mount open_page unsubscribe on_destroy conn_step
left_behind = refl

taken_back : ((conn_step site (socket_ended 0) leaving).messages 0).message_listeners ≡ []
unfolding happen first_visit step connect_effect disconnect_effect create_client make_client listen
    fire_each call client_state_reducer is_listening add_listener remove_listener
    add_message_listener remove_message_listener find_adaptor splice_first terminado_attach
    terminado_detach get_message on_editor_did_mount on_terminal_did_mount open_page unsubscribe
    on_destroy conn_step
taken_back = refl
