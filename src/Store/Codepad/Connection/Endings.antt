-- ===== src/Store/Codepad/Connection/Endings.antt =====
-- What the `error` and the `close` of the current client bring about.
use editor_sh.Prelude.{ℕ, true, false, Option, ◌≡◌, ◌≢◌, refl, ◌⊎◌, inl, inr, arith}
use editor_sh.Service.Client.{EventType, listens_to, Callback}
use editor_sh.Store.Codepad.{ConnectStatus, client_state_reducer}
use editor_sh.Store.Codepad.Connection.{Connection, status, call, fire}
use editor_sh.Store.Codepad.Connection.Firing.{
  hears, fire_each-keeps, fire_each-reaches, hears-call,
}
use editor_sh.Store.Codepad.Connection.Listeners.{is_listening-remove_listener}

-- The client is the current one, and the service listens to its closing.
pub record IsOwned (c : ℕ) (conn : Connection) : Type 0 where
  pub current : conn.current ≡ Option.some c
  pub own : hears Callback.on_client_closed c conn ≡ true

pub error-IsOwned :
    (c : ℕ) (f : Callback) (conn : Connection)
    → listens_to EventType.error f ≡ true
    → IsOwned c conn
    → IsOwned c (call c f conn)
unfolding call
error-IsOwned c (Callback.on_error q) conn l h = record {
  current = h.current;
  own =
      ground
        (arith, hears-call c (Callback.on_error q) Callback.on_client_closed conn h.current, h.own);
}
error-IsOwned c (Callback.on_open q) conn l h = cc
error-IsOwned c (Callback.on_close q) conn l h = cc
error-IsOwned c Callback.on_client_closed conn l h = cc

error-status :
    (c : ℕ) (f : Callback) (conn : Connection)
    → listens_to EventType.error f ≡ true
    → ((status conn ≡ ConnectStatus.connecting) ⊎ (status conn ≡ ConnectStatus.closed)
        → status (call c f conn) ≡ ConnectStatus.closed)
      × (status conn ≡ ConnectStatus.disconnecting
          → status (call c f conn) ≡ ConnectStatus.disconnecting)
unfolding call client_state_reducer
error-status c (Callback.on_error q) conn l = (λ h. ground arith, λ h. ground arith)
error-status c (Callback.on_open q) conn l = cc
error-status c (Callback.on_close q) conn l = cc
error-status c Callback.on_client_closed conn l = cc

-- The error of the client leaves it the current one.
pub fire-error-IsOwned :
    (c : ℕ) (conn : Connection) → IsOwned c conn → IsOwned c (fire c EventType.error conn)
fire-error-IsOwned c conn h =
    fire_each-keeps c EventType.error (IsOwned c) _ conn (λ f at l m i. error-IsOwned c f at l i) h

-- The error of a client that the store is connecting to closes the store.
pub fire-error-connecting :
    (c r : ℕ) (conn : Connection)
    → status conn ≡ ConnectStatus.connecting
    → hears (Callback.on_error r) c conn ≡ true
    → status (fire c EventType.error conn) ≡ ConnectStatus.closed
fire-error-connecting c r conn st o =
    fire_each-reaches c EventType.error (λ at. status at ≡ ConnectStatus.closed)
      (λ at. (status at ≡ ConnectStatus.connecting) × (hears (Callback.on_error r) c at ≡ true))
      (Callback.on_error r) _ conn (λ f at l m e. (error-status c f at l).0 (inr e))
      (λ f at l m (e, d). inl ((error-status c f at l).0 (inl e))) (λ at (e, d). d) refl o (st, o)

pub fire-error-disconnecting :
    (c : ℕ) (conn : Connection)
    → status conn ≡ ConnectStatus.disconnecting
    → status (fire c EventType.error conn) ≡ ConnectStatus.disconnecting
fire-error-disconnecting c conn st =
    fire_each-keeps c EventType.error (λ at. status at ≡ ConnectStatus.disconnecting) _ conn
      (λ f at l m e. (error-status c f at l).1 e) st

unheard-error :
    (c : ℕ) (f : Callback) (conn : Connection) {A : Type 0}
    → listens_to EventType.error f ≡ true
    → hears f c conn ≡ true
    → ((s : ℕ) → hears (Callback.on_error s) c conn ≡ false)
    → A
unheard-error c (Callback.on_error q) conn l m deaf = cc (m, deaf q)
unheard-error c (Callback.on_open q) conn l m deaf = cc
unheard-error c (Callback.on_close q) conn l m deaf = cc
unheard-error c Callback.on_client_closed conn l m deaf = cc

-- Where no run listens to the error, nothing happens: the status and the listener for the end stay.
pub fire-error-unheard :
    (c r : ℕ) (conn : Connection)
    → status conn ≡ ConnectStatus.connected
    → hears (Callback.on_close r) c conn ≡ true
    → ((s : ℕ) → hears (Callback.on_error s) c conn ≡ false)
    → hears (Callback.on_close r) c (fire c EventType.error conn) ≡ true
fire-error-unheard c r conn st h deaf =
    (fire_each-keeps c EventType.error
      (λ at.
        (hears (Callback.on_close r) c at ≡ true)
        × ((s : ℕ) → hears (Callback.on_error s) c at ≡ false))
      _ conn (λ f at l m (e, d). unheard-error c f at l m d) (h, deaf)).0

close-status :
    (c : ℕ) (f : Callback) (conn : Connection)
    → listens_to EventType.close f ≡ true
    → (status conn ≡ ConnectStatus.closed → status (call c f conn) ≡ ConnectStatus.closed)
      × ((status conn ≡ ConnectStatus.closed) ⊎ (status conn ≡ ConnectStatus.disconnecting)
          → (status (call c f conn) ≡ ConnectStatus.closed)
            ⊎ (status (call c f conn) ≡ ConnectStatus.disconnecting))
unfolding call client_state_reducer
close-status c (Callback.on_close q) conn l = (λ h. ground arith, λ h. inl (ground arith))
close-status c (Callback.on_open q) conn l = cc
close-status c (Callback.on_error q) conn l = cc
close-status c Callback.on_client_closed conn l = (λ h. ground arith, λ h. ground arith)

close-call :
    (c r : ℕ) (f : Callback) (conn : Connection)
    → listens_to EventType.close f ≡ true
    → hears (Callback.on_close r) c conn ≡ true
    → (status (call c f conn) ≡ ConnectStatus.closed)
      ⊎ ((f ≢ Callback.on_close r) × (hears (Callback.on_close r) c (call c f conn) ≡ true))
unfolding call client_state_reducer
close-call c r (Callback.on_close q) conn l h = inl (ground arith)
close-call c r (Callback.on_open q) conn l h = cc
close-call c r (Callback.on_error q) conn l h = cc
close-call c r Callback.on_client_closed conn l h = inr (
  λ e. cc,
  ground (
    arith,
    is_listening-remove_listener (Callback.on_close r) Callback.on_client_closed
        (conn.clients c).listeners,
  ),
)

IsOwned-call :
    (c : ℕ) (f : Callback) (conn : Connection)
    → listens_to EventType.close f ≡ true
    → IsOwned c conn
    → let after = call c f conn in
      ((after.current ≡ Option.none) × (hears Callback.on_client_closed c after ≡ false))
      ⊎ ((f ≢ Callback.on_client_closed) × IsOwned c after)
unfolding call
IsOwned-call c (Callback.on_close q) conn l h = inr (
  λ e. cc,
  record {
    current = h.current;
    own =
        ground (
          arith,
          hears-call c (Callback.on_close q) Callback.on_client_closed conn h.current,
          h.own,
        );
  },
)
IsOwned-call c (Callback.on_open q) conn l h = cc
IsOwned-call c (Callback.on_error q) conn l h = cc
IsOwned-call c Callback.on_client_closed conn l h = inl (
  ground (arith, h.current),
  ground (arith, hears-call c Callback.on_client_closed Callback.on_client_closed conn h.current),
)

left-call :
    (c : ℕ) (f : Callback) (conn : Connection)
    → listens_to EventType.close f ≡ true
    → hears f c conn ≡ true
    → conn.current ≡ Option.none
    → hears Callback.on_client_closed c conn ≡ false
    → ((call c f conn).current ≡ Option.none)
      × (hears Callback.on_client_closed c (call c f conn) ≡ false)
unfolding call
left-call c (Callback.on_close q) conn l m e d = (
  e,
  ground (
    arith,
    hears-call c (Callback.on_close q) Callback.on_client_closed
        (record conn { current = Option.some c }) refl,
    d,
  ),
)
left-call c (Callback.on_open q) conn l m e d = cc
left-call c (Callback.on_error q) conn l m e d = cc
left-call c Callback.on_client_closed conn l m e d = cc

-- The end of the client closes the store, if a run listens to it.
pub fire-close-status :
    (c r : ℕ) (conn : Connection)
    → hears (Callback.on_close r) c conn ≡ true
    → status (fire c EventType.close conn) ≡ ConnectStatus.closed
fire-close-status c r conn o =
    fire_each-reaches c EventType.close (λ at. status at ≡ ConnectStatus.closed)
      (λ at. hears (Callback.on_close r) c at ≡ true) (Callback.on_close r) _ conn
      (λ f at l m e. (close-status c f at l).0 e) (λ f at l m e. close-call c r f at l e)
      (λ at d. d) refl o o

-- The end of a client leaves the store closed or disconnecting, if it is that before.
pub fire-close-leaving :
    (c : ℕ) (conn : Connection)
    → (status conn ≡ ConnectStatus.closed) ⊎ (status conn ≡ ConnectStatus.disconnecting)
    → let after = fire c EventType.close conn in
      (status after ≡ ConnectStatus.closed) ⊎ (status after ≡ ConnectStatus.disconnecting)
fire-close-leaving c conn h =
    fire_each-keeps c EventType.close
      (λ at. (status at ≡ ConnectStatus.closed) ⊎ (status at ≡ ConnectStatus.disconnecting)) _ conn
      (λ f at l m e. (close-status c f at l).1 e) h

-- The end of the current client leaves the service without a client.
pub fire-close-current :
    (c : ℕ) (conn : Connection)
    → IsOwned c conn
    → (fire c EventType.close conn).current ≡ Option.none
fire-close-current c conn h =
    (fire_each-reaches c EventType.close
      (λ at. (at.current ≡ Option.none) × (hears Callback.on_client_closed c at ≡ false))
      (IsOwned c) Callback.on_client_closed _ conn (λ f at l m (e, d). left-call c f at l m e d)
      (λ f at l m i. IsOwned-call c f at l i) (λ at i. i.own) refl h.own h).0
