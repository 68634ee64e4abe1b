-- ===== src/Store/Codepad/Connection/Tests.antt =====
-- Histories of the connection.
use editor_sh.Prelude.{true, Option, List, [], ◌∷◌, ◌++◌, ◌≡◌, refl}
use editor_sh.Service.Endpoint.{Location}
use editor_sh.Service.Client.{is_listening, add_listener, remove_listener}
use editor_sh.Store.Codepad.{ConnectStatus, client_state_reducer}
use editor_sh.Store.Codepad.Connection.{
  status, Input, connect, disconnect, socket_opened, socket_failed, socket_ended, step, start, run,
  connect_effect, disconnect_effect, create_client, make_client, listen, fire_each, call,
}
use editor_sh.Store.Codepad.Consistency.{IsConsistent}
use editor_sh.Store.Codepad.Consistency.Runs.{run-IsConsistent}
use editor_sh.Store.Codepad.Connection.Stuck.{IsStuck, run_given_up, run_left}

abbrev page : Location
page = record { https = true; host = "editor.sh" }

abbrev into_room : List Input
into_room = connect "abc" (Option.some 1) ∷ connect "xyz" Option.none ∷ socket_opened 0 ∷ []

-- The first room is left for the second.
abbrev second_room : List Input
second_room = into_room ++ (disconnect ∷ socket_ended 0 ∷ connect "xyz" Option.none ∷ [])

in_first_room : status (run page start into_room) ≡ ConnectStatus.connected
unfolding step connect_effect disconnect_effect create_client make_client listen fire_each call
    client_state_reducer is_listening add_listener remove_listener
in_first_room = refl

first_client : (run page start into_room).current ≡ Option.some 0
unfolding step connect_effect disconnect_effect create_client make_client listen fire_each call
    client_state_reducer is_listening add_listener remove_listener
first_client = refl

run-IsConsistent_example : IsConsistent (run page start second_room)
run-IsConsistent_example = run-IsConsistent page second_room

joining_second : status (run page start second_room) ≡ ConnectStatus.connecting
unfolding step connect_effect disconnect_effect create_client make_client listen fire_each call
    client_state_reducer is_listening add_listener remove_listener
joining_second = refl

second_client : (run page start second_room).current ≡ Option.some 1
unfolding step connect_effect disconnect_effect create_client make_client listen fire_each call
    client_state_reducer is_listening add_listener remove_listener
second_client = refl

run_given_up_example :
    IsStuck (run page (run page start second_room) (disconnect ∷ socket_failed 1 ∷ into_room))
run_given_up_example = run_given_up page second_room 1 into_room joining_second second_client

run_left_example :
    (status (run page (run page start into_room) (disconnect ∷ socket_ended 0 ∷ []))
      ≡ ConnectStatus.closed)
    × ((run page (run page start into_room) (disconnect ∷ socket_ended 0 ∷ [])).current
        ≡ Option.none)
run_left_example = run_left page into_room 0 in_first_room first_client
