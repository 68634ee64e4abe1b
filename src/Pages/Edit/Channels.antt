-- ===== src/Pages/Edit/Channels.antt =====
-- The channels between the terminals of the pages and the clients (`XTermSocketChannel` in
-- shared-ui/xterm/components/xterm.socket.channel.ts), and how a terminal is taken off them
-- (`terminadoDetach` in shared-ui/xterm/components/xterm.socket.addon.ts). Terminals, clients and
-- closures stand by numbers.
use editor_sh.Prelude.{ℕ, Option, none, some, List, [], ◌∷◌, ◌==◌, if◌then◌else◌, foldl}
use editor_sh.Service.Message.Registry.{MessageListeners, remove_message_listener}

-- A channel that a terminal was given: the terminal, the client of the channel, and the `message`
-- listener that was made for it (`__getMessage`). The `close` and `error` listeners of the channel
-- stand on the socket for good.
pub record Attachment : Type 0 where
  pub terminal : ℕ
  pub client : ℕ
  pub listener : ℕ

-- `__getMessage` of a terminal: each attachment sets it anew.
unfoldable pub get_message : ℕ → List Attachment → Option ℕ
get_message t [] = none
get_message t (a ∷ later) = elim (get_message t later) [
  | none ↦ if a.terminal == t then some a.listener else none
  | some l ↦ some l
]

-- `terminadoDetach`, of what the channels `all` have made of the terminals
unfoldable pub terminado_detach :
    List Attachment → (ℕ → MessageListeners) → Attachment → ℕ → MessageListeners
unfolding remove_message_listener get_message
terminado_detach all messages a j = elim (get_message a.terminal all) [
  | none ↦ messages j
  | some l ↦ if j == a.client then remove_message_listener l (messages j) else messages j
]

-- The `close` or the `error` listeners of the channels to the client `c`, in turn
abbrev pub tell : List Attachment → (ℕ → MessageListeners) → ℕ → ℕ → MessageListeners
tell all messages c =
    foldl (λ ms a. if a.client == c then terminado_detach all ms a else ms) messages all
