-- ===== src/Store/Codepad/Connection/Silence.antt =====
-- The failure of a client that the store has given up: the closures for its error remove those for
-- its end, so that nothing is dispatched any more.
use editor_sh.Prelude.{ℕ, true, false, not, ◌&&◌, ◌≡◌, ◌≢◌, refl, ◌∙◌, inl, inr, Bool-cases, arith}
use editor_sh.Service.Client.{EventType, listens_to, Callback, callback_eq}
use editor_sh.Store.Codepad.{ConnectStatus}
use editor_sh.Store.Codepad.Connection.{Connection, status, call, fire}
use editor_sh.Store.Codepad.Connection.Listeners.{callback_eq_refl, is_listening-remove_listener}
use editor_sh.Store.Codepad.Connection.Firing.{
  hears, fire_each-keeps, fire_each-reaches, hears-call,
}
use editor_sh.Store.Codepad.Connection.Events.{EndsAlike}
use editor_sh.Store.Codepad.Connection.Endings.{IsOwned, error-IsOwned}

error-EndsAlike :
    (c : ℕ) (f : Callback) (conn : Connection)
    → listens_to EventType.error f ≡ true
    → IsOwned c conn × EndsAlike c conn
    → IsOwned c (call c f conn) × EndsAlike c (call c f conn)
error-EndsAlike c (Callback.on_error q) conn l (h, alike) = (
  error-IsOwned c (Callback.on_error q) conn l h,
  λ s. ground (
    arith,
    alike s,
    hears-call c (Callback.on_error q) (Callback.on_close s) conn h.current,
    hears-call c (Callback.on_error q) (Callback.on_error s) conn h.current,
  ),
)
error-EndsAlike c (Callback.on_open q) conn l h = cc
error-EndsAlike c (Callback.on_close q) conn l h = cc
error-EndsAlike c Callback.on_client_closed conn l h = cc

errors-after :
    (c s : ℕ) (f : Callback) (conn : Connection)
    → listens_to EventType.error f ≡ true
    → IsOwned c conn × EndsAlike c conn
    → hears (Callback.on_error s) c (call c f conn)
      ≡ (not (callback_eq (Callback.on_error s) f) && hears (Callback.on_error s) c conn)
errors-after c s (Callback.on_error q) conn l (h, alike) =
    hears-call c (Callback.on_error q) (Callback.on_error s) conn h.current
errors-after c s (Callback.on_open q) conn l h = cc
errors-after c s (Callback.on_close q) conn l h = cc
errors-after c s Callback.on_client_closed conn l h = cc

unequal_error : (f g : Callback) → callback_eq g f ≡ false → f ≢ g
unequal_error f g e same = cc (e, callback_eq_refl g, same)

-- After the error no run listens to the end of the client.
pub fire-error-deaf :
    (c s : ℕ) (conn : Connection)
    → IsOwned c conn
    → EndsAlike c conn
    → hears (Callback.on_close s) c (fire c EventType.error conn) ≡ false
fire-error-deaf c s conn h alike =
    let P : Connection → Type 0 =
      λ at. (IsOwned c at × EndsAlike c at) × (hears (Callback.on_error s) c at ≡ false) in
    let Q : Connection → Type 0 =
      λ at. (IsOwned c at × EndsAlike c at) × (hears (Callback.on_error s) c at ≡ true) in
    let keep-P : (f : Callback) (at : Connection)
        → listens_to EventType.error f ≡ true
        → hears f c at ≡ true
        → P at
        → P (call c f at) =
      λ f at l m (i, e).
        (error-EndsAlike c f at l i, ground (arith, errors-after c s f at l i, e)) in
    let end : (at : Connection) → P at → hears (Callback.on_close s) c at ≡ false =
      λ at ((i, a), e). a s ∙ e in
    elim (Bool-cases (hears (Callback.on_error s) c conn)) [
      | inr e ↦ end _ (fire_each-keeps c EventType.error P _ conn keep-P ((h, alike), e))
      | inl e ↦ end _ (
          fire_each-reaches c EventType.error P Q (Callback.on_error s) _ conn keep-P
            (λ f at l m (i, d). elim (Bool-cases (callback_eq (Callback.on_error s) f)) [
              | inl same ↦
                  inl (error-EndsAlike c f at l i, ground (arith, errors-after c s f at l i))
              | inr other ↦ inr (
                unequal_error f (Callback.on_error s) other,
                (error-EndsAlike c f at l i, ground (arith, errors-after c s f at l i)),
              )
            ])
            (λ at (i, d). d) refl e ((h, alike), e))
    ]

silent-call :
    (c : ℕ) (f : Callback) (conn : Connection)
    → listens_to EventType.close f ≡ true
    → hears f c conn ≡ true
    → (status conn ≡ ConnectStatus.disconnecting)
      × ((s : ℕ) → hears (Callback.on_close s) c conn ≡ false)
    → (status (call c f conn) ≡ ConnectStatus.disconnecting)
      × ((s : ℕ) → hears (Callback.on_close s) c (call c f conn) ≡ false)
unfolding call
silent-call c (Callback.on_close q) conn l m (st, deaf) = cc (m, deaf q)
silent-call c (Callback.on_open q) conn l m h = cc
silent-call c (Callback.on_error q) conn l m h = cc
silent-call c Callback.on_client_closed conn l m (st, deaf) = (
  ground arith,
  λ s. ground (
    arith,
    deaf s,
    is_listening-remove_listener (Callback.on_close s) Callback.on_client_closed
        (conn.clients c).listeners,
  ),
)

-- The end of a client to whose end no run listens leaves the store disconnecting.
pub fire-close-silent :
    (c : ℕ) (conn : Connection)
    → status conn ≡ ConnectStatus.disconnecting
    → ((s : ℕ) → hears (Callback.on_close s) c conn ≡ false)
    → status (fire c EventType.close conn) ≡ ConnectStatus.disconnecting
fire-close-silent c conn st deaf =
    (fire_each-keeps c EventType.close
      (λ at.
        (status at ≡ ConnectStatus.disconnecting)
        × ((s : ℕ) → hears (Callback.on_close s) c at ≡ false))
      _ conn (λ f at l m h. silent-call c f at l m h) (st, deaf)).0
