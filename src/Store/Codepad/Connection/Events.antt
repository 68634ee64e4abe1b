-- ===== src/Store/Codepad/Connection/Events.antt =====
-- What the events of the current client bring about, as a whole.
use editor_sh.Prelude.{
  ℕ, true, false, not, ◌&&◌, Option, ◌≡◌, ◌≢◌, refl, ◌∙◌, ◌⊎◌, inl, inr, Bool-cases, arith,
}
use editor_sh.Service.Client.{EventType, listens_to, Callback, callback_eq}
use editor_sh.Store.Codepad.Connection.Listeners.{callback_eq_refl}
use editor_sh.Store.Codepad.{ConnectStatus, client_state_reducer}
use editor_sh.Store.Codepad.Connection.{Connection, status, call, fire}
use editor_sh.Store.Codepad.Connection.Firing.{
  hears, fire_each-keeps, fire_each-reaches, hears-call,
}

-- The listeners of a client that is the current one: the service's own, and one of the connect
-- effect for its end.
pub record IsCurrent (c r : ℕ) (conn : Connection) : Type 0 where
  pub current : conn.current ≡ Option.some c
  pub own : hears Callback.on_client_closed c conn ≡ true
  pub ends : hears (Callback.on_close r) c conn ≡ true

abbrev pub OpensAlike : ℕ → Connection → Type 0
OpensAlike c conn = (s : ℕ) → hears (Callback.on_error s) c conn ≡ hears (Callback.on_open s) c conn

abbrev pub EndsAlike : ℕ → Connection → Type 0
EndsAlike c conn = (s : ℕ) → hears (Callback.on_close s) c conn ≡ hears (Callback.on_error s) c conn

opened-IsCurrent :
    (c r : ℕ) (f : Callback) (conn : Connection)
    → listens_to EventType.opened f ≡ true
    → IsCurrent c r conn × OpensAlike c conn
    → IsCurrent c r (call c f conn) × OpensAlike c (call c f conn)
unfolding call
opened-IsCurrent c r (Callback.on_open q) conn l (h, alike) = (
  record {
    current = h.current;
    own =
        ground (
          arith,
          hears-call c (Callback.on_open q) Callback.on_client_closed conn h.current,
          h.own,
        );
    ends =
        ground
          (arith, hears-call c (Callback.on_open q) (Callback.on_close r) conn h.current, h.ends);
  },
  λ s. ground (
    arith,
    alike s,
    hears-call c (Callback.on_open q) (Callback.on_open s) conn h.current,
    hears-call c (Callback.on_open q) (Callback.on_error s) conn h.current,
  ),
)
opened-IsCurrent c r (Callback.on_close q) conn l h = cc
opened-IsCurrent c r (Callback.on_error q) conn l h = cc
opened-IsCurrent c r Callback.on_client_closed conn l h = cc

opened-status :
    (c : ℕ) (f : Callback) (conn : Connection)
    → listens_to EventType.opened f ≡ true
    → (status conn ≡ ConnectStatus.connecting) ⊎ (status conn ≡ ConnectStatus.connected)
    → status (call c f conn) ≡ ConnectStatus.connected
unfolding call client_state_reducer
opened-status c (Callback.on_open q) conn l h = ground arith
opened-status c (Callback.on_close q) conn l h = cc
opened-status c (Callback.on_error q) conn l h = cc
opened-status c Callback.on_client_closed conn l h = cc

-- Whether the opening of run `s` is still awaited, over the calls for `open`.
opens-after :
    (c r s : ℕ) (f : Callback) (conn : Connection)
    → listens_to EventType.opened f ≡ true
    → IsCurrent c r conn × OpensAlike c conn
    → hears (Callback.on_open s) c (call c f conn)
      ≡ (not (callback_eq (Callback.on_open s) f) && hears (Callback.on_open s) c conn)
opens-after c r s (Callback.on_open q) conn l (h, alike) =
    hears-call c (Callback.on_open q) (Callback.on_open s) conn h.current
opens-after c r s (Callback.on_close q) conn l h = cc
opens-after c r s (Callback.on_error q) conn l h = cc
opens-after c r s Callback.on_client_closed conn l h = cc

unequal : (f g : Callback) → callback_eq g f ≡ false → f ≢ g
unequal f g e same = cc (e, callback_eq_refl g, same)

-- After `open` no run awaits the opening of the client any more.
fire-opened-hears :
    (c r s : ℕ) (conn : Connection)
    → IsCurrent c r conn
    → OpensAlike c conn
    → hears (Callback.on_error s) c (fire c EventType.opened conn) ≡ false
fire-opened-hears c r s conn h alike =
    let P : Connection → Type 0 =
      λ at. (IsCurrent c r at × OpensAlike c at) × (hears (Callback.on_open s) c at ≡ false) in
    let Q : Connection → Type 0 =
      λ at. (IsCurrent c r at × OpensAlike c at) × (hears (Callback.on_open s) c at ≡ true) in
    let keep-P : (f : Callback) (at : Connection)
        → listens_to EventType.opened f ≡ true
        → hears f c at ≡ true
        → P at
        → P (call c f at) =
      λ f at l m (i, e).
        (opened-IsCurrent c r f at l i, ground (arith, opens-after c r s f at l i, e)) in
    let end : (at : Connection) → P at → hears (Callback.on_error s) c at ≡ false =
      λ at ((i, a), e). a s ∙ e in
    elim (Bool-cases (hears (Callback.on_open s) c conn)) [
      | inr e ↦ end _ (fire_each-keeps c EventType.opened P _ conn keep-P ((h, alike), e))
      | inl e ↦ end _ (
          fire_each-reaches c EventType.opened P Q (Callback.on_open s) _ conn keep-P
            (λ f at l m (i, d). elim (Bool-cases (callback_eq (Callback.on_open s) f)) [
              | inl same ↦
                  inl (opened-IsCurrent c r f at l i, ground (arith, opens-after c r s f at l i))
              | inr other ↦ inr (
                unequal f (Callback.on_open s) other,
                (opened-IsCurrent c r f at l i, ground (arith, opens-after c r s f at l i)),
              )
            ])
            (λ at (i, d). d) refl e ((h, alike), e))
    ]

-- A client whose socket opens, while the store is connecting: the store is connected, and only the
-- closures for its end are left.
pub fire-opened :
    (c r : ℕ) (conn : Connection)
    → status conn ≡ ConnectStatus.connecting
    → hears (Callback.on_open r) c conn ≡ true
    → IsCurrent c r conn
    → OpensAlike c conn
    → let after = fire c EventType.opened conn in
      (status after ≡ ConnectStatus.connected)
      × IsCurrent c r after
      × ((s : ℕ) → hears (Callback.on_error s) c after ≡ false)
fire-opened c r conn st o h alike = (
  fire_each-reaches c EventType.opened (λ at. status at ≡ ConnectStatus.connected)
      (λ at. (status at ≡ ConnectStatus.connecting) × (hears (Callback.on_open r) c at ≡ true))
      (Callback.on_open r) _ conn (λ f at l m e. opened-status c f at l (inr e))
      (λ f at l m (e, d). inl (opened-status c f at l (inl e))) (λ at (e, d). d) refl o (st, o),
  (fire_each-keeps c EventType.opened (λ at. IsCurrent c r at × OpensAlike c at) _ conn
      (λ f at l m i. opened-IsCurrent c r f at l i) (h, alike)).0,
  λ s. fire-opened-hears c r s conn h alike,
)
