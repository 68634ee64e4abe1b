-- ===== src/Pages/Edit/Visit/Turning.antt =====
-- A page that is opened while the room of the page before it is still being left.
use editor_sh.Prelude.{
  ℕ, ◌+◌, String, subst, Bool, true, false, none, some, List, [], ◌∷◌, foldl, ◌≡◌, refl, arith, inr,
  All,
}
use editor_sh.Service.Endpoint.{Location}
use editor_sh.Service.Message.Registry.{MessageListeners}
use editor_sh.Store.Codepad.{ConnectStatus}
use editor_sh.Store.Codepad.Connection.{status, Input, step}
use editor_sh.Store.Codepad.Connection.Rest.{is_busy, is_socket_event, IsResting, step-IsResting}
use editor_sh.Store.Codepad.Consistency.Steps.{connect_ignored}
use editor_sh.Pages.Edit.Visit.Losing.{IsLess, IsLess-refl, IsLess-trans, told-IsLess}
use editor_sh.Pages.Edit.Channels.{Attachment}
use editor_sh.Pages.Edit.Visit.{
  Visit, EditPage, client_state, language_state, open_page, on_editor_did_mount,
  on_terminal_did_mount, conn_step, turn_to, mount, newest, told, on_client_state_changed,
}

newest_same : (cs : List (ℕ × ℕ)) → newest cs cs ≡ none
newest_same [] = refl
newest_same ((f, c) ∷ rest) = ground arith

-- What a page has that no room ever reached: its two subscriptions to the store, no client, and
-- nothing that is attached to its terminal. Its clients have lost no listener since they had
-- `messages`, except for those of the terminals of the channels in `given`, and gained none.
pub record IsStranded (page : EditPage) (messages : ℕ → MessageListeners) (given : List Attachment)
    (created : List (ℕ × ℕ)) (v : Visit) : Type 0 where
  pub same_page : v.page ≡ page
  pub less_messages : (c : ℕ) → IsLess given (v.messages c) (messages c)
  pub same_attachments : v.attachments ≡ given
  pub resting : IsResting created v.conn
  pub attached_none : v.attached ≡ []

abbrev pub mounted_page : String → EditPage
mounted_page key = record {
  editor_mounted = true;
  terminal_mounted = true;
  room_key = key;
  subscriptions = client_state ∷ language_state ∷ [];
}

mount_leaving :
    (loc : Location) (key : String) (first : Bool) (v : Visit)
    → status v.conn ≡ ConnectStatus.disconnecting
    → mount first loc (turn_to key v)
      ≡ record v { page = mounted_page key; attached = []; terminal = v.terminal + 1 }
unfolding on_editor_did_mount on_terminal_did_mount open_page conn_step
mount_leaving loc key true v st =
    ground (arith, connect_ignored loc key (some 0) v.conn (inr st), newest_same v.conn.created)
mount_leaving loc key false v st =
    ground (arith, connect_ignored loc key (some 0) v.conn (inr st), newest_same v.conn.created)

conn_step_resting :
    (loc : Location) (input : Input) (v : Visit)
    → is_busy (status (step loc v.conn input)) ≡ false
    → conn_step loc input v ≡ record v { conn = step loc v.conn input; messages = told input v }
unfolding conn_step on_client_state_changed
conn_step_resting loc input v h = ground (arith, h)

conn_step-IsStranded :
    (loc : Location) (input : Input) (page : EditPage) (messages : ℕ → MessageListeners)
    (given : List Attachment) (cs : List (ℕ × ℕ)) (v : Visit)
    → is_socket_event input ≡ true
    → IsStranded page messages given cs v
    → IsStranded page messages given cs (conn_step loc input v)
conn_step-IsStranded loc input page messages given cs v s h =
    let after = step-IsResting loc cs input v.conn s h.resting in
    rw (conn_step_resting loc input v after.at_rest) (record {
      same_page = h.same_page;
      less_messages = λ c.
          IsLess-trans given (told input v c) (v.messages c) (messages c)
            (subst (λ g. IsLess g (told input v c) (v.messages c)) h.same_attachments
              (told-IsLess input v c))
            (h.less_messages c);
      same_attachments = h.same_attachments;
      resting = after;
      attached_none = h.attached_none;
    })

foldl-conn_step-IsStranded :
    (loc : Location) (inputs : List Input) (page : EditPage) (messages : ℕ → MessageListeners)
    (given : List Attachment) (cs : List (ℕ × ℕ)) (v : Visit)
    → All (λ i. is_socket_event i ≡ true) inputs
    → IsStranded page messages given cs v
    → IsStranded page messages given cs (foldl (λ u i. conn_step loc i u) v inputs)
foldl-conn_step-IsStranded loc [] page messages given cs v s h = h
foldl-conn_step-IsStranded loc (input ∷ later) page messages given cs v s h =
    foldl-conn_step-IsStranded loc later page messages given cs (conn_step loc input v) s.1
      (conn_step-IsStranded loc input page messages given cs v s.0 h)

-- A page that is mounted while the store is still leaving a room, in either order, is stranded:
-- whatever the sockets do from then on, the page has no client to listen to and nothing attached to
-- its terminal, no client gets a listener or loses one that is not of a terminal of the pages before,
-- `onCreated` is not called, and the store neither joins a room nor is in one.
pub mount-IsStranded :
    (loc : Location) (key : String) (first : Bool) (v : Visit) (later : List Input)
    → status v.conn ≡ ConnectStatus.disconnecting
    → All (λ i. is_socket_event i ≡ true) later
    → IsStranded
        (mounted_page key)
        v.messages
        v.attachments
        v.conn.created
        (foldl (λ u i. conn_step loc i u) (mount first loc (turn_to key v)) later)
mount-IsStranded loc key first v later st s =
    foldl-conn_step-IsStranded loc later (mounted_page key) v.messages v.attachments v.conn.created
      (mount first loc (turn_to key v)) s
      (rw (mount_leaving loc key first v st) (record {
        same_page = refl;
        less_messages = λ c. IsLess-refl v.attachments (v.messages c);
        same_attachments = refl;
        resting = record { at_rest = ground arith; same = refl };
        attached_none = refl;
      }))
