-- ===== src/Store/Codepad/Connection/Firing.antt =====
-- An event of a socket, by the closures that are called for it: two principles on what holds after
-- all of them, and what one call changes.
use editor_sh.Prelude.{
  ℕ, Bool, true, false, not, ◌&&◌, Option, List, [], ◌∷◌, ◌≡◌, ◌≢◌, refl, sym, ◌∙◌, ◌⊎◌, inl, inr,
  Bool-cases, arith, ◌==◌,
}
use editor_sh.Service.Client.{
  EventType, listens_to, Callback, callback_eq, is_listening, remove_listener,
}
use editor_sh.Store.Codepad.{client_state_reducer}
use editor_sh.Store.Codepad.Connection.{Connection, call, fire_each}
use editor_sh.Store.Codepad.Connection.Listeners.{callback_eq-true, is_listening-remove_listener}

abbrev pub hears : Callback → ℕ → Connection → Bool
hears f c conn = is_listening f (conn.clients c).listeners

is_listening-tail :
    (g f : Callback) (fs : List Callback)
    → f ≢ g
    → is_listening g (f ∷ fs) ≡ true
    → is_listening g fs ≡ true
unfolding is_listening
is_listening-tail g f fs other m = elim (Bool-cases (callback_eq g f)) [
  | inl same ↦ absurd (other (sym (callback_eq-true g f same)))
  | inr e ↦ ground arith
]

uncalled :
    (t : EventType) (f g : Callback) (ls : List Callback)
    → listens_to t g ≡ true
    → is_listening g ls ≡ true
    → (listens_to t f && is_listening f ls) ≡ false
    → f ≢ g
uncalled t f g ls e l passed same = cc (same, e, l, passed)

module _ (c : ℕ) (t : EventType) where
  -- What every call keeps is kept by the event.
  pub fire_each-keeps :
      (P : Connection → Type 0) (fs : List Callback) (conn : Connection)
      → ((f : Callback) (at : Connection)
          → listens_to t f ≡ true
          → hears f c at ≡ true
          → P at
          → P (call c f at))
      → P conn
      → P (fire_each c t fs conn)
  unfolding fire_each
  fire_each-keeps P [] conn k h = h
  fire_each-keeps P (f ∷ fs) conn k h = elim (Bool-cases (listens_to t f && hears f c conn)) [
    | inl e ↦
        rw e (fire_each-keeps P fs (call c f conn) k (k f conn (ground arith) (ground arith) h))
    | inr e ↦ rw e (fire_each-keeps P fs conn k h)
  ]

  -- What the call of one closure brings about, and every call keeps, holds after the event, if that
  -- closure is called unless it holds before.
  pub fire_each-reaches :
      (P Q : Connection → Type 0) (g : Callback) (fs : List Callback) (conn : Connection)
      → ((f : Callback) (at : Connection)
          → listens_to t f ≡ true
          → hears f c at ≡ true
          → P at
          → P (call c f at))
      → ((f : Callback) (at : Connection)
          → listens_to t f ≡ true
          → hears f c at ≡ true
          → Q at
          → P (call c f at) ⊎ ((f ≢ g) × Q (call c f at)))
      → ((at : Connection) → Q at → hears g c at ≡ true)
      → listens_to t g ≡ true
      → is_listening g fs ≡ true
      → Q conn
      → P (fire_each c t fs conn)
  unfolding fire_each is_listening
  fire_each-reaches P Q g [] conn k s l e m h = cc
  fire_each-reaches P Q g (f ∷ fs) conn k s l e m h =
      elim (Bool-cases (listens_to t f && hears f c conn)) [
        | inl called ↦ rw called (elim (s f conn (ground arith) (ground arith) h) [
          | inl there ↦ fire_each-keeps P fs (call c f conn) k there
          | inr (other, next) ↦
              fire_each-reaches P Q g fs (call c f conn) k s l e (is_listening-tail g f fs other m)
                next
        ])
        | inr passed ↦ rw passed (
            fire_each-reaches P Q g fs conn k s l e
              (is_listening-tail g f fs (uncalled t f g _ e (l conn h) passed) m) h)
      ]

-- The state of the store and of the sockets apart from what listens: no call changes the room of
-- the store, the ready states or the rooms of the clients.
pub record IsFrame (before after : Connection) : Type 0 where
  pub pad_hash : after.client_state.pad_hash ≡ before.client_state.pad_hash
  pub ready : (j : ℕ) → (after.clients j).ready_state ≡ (before.clients j).ready_state
  pub room : (j : ℕ) → (after.clients j).room_key ≡ (before.clients j).room_key

call-IsFrame : (c : ℕ) (f : Callback) (conn : Connection) → IsFrame conn (call c f conn)
unfolding call client_state_reducer
call-IsFrame c (Callback.on_open r) conn = record {
  pad_hash = ground arith;
  ready = λ j. ground arith;
  room = λ j. ground arith;
}
call-IsFrame c (Callback.on_close r) conn = record {
  pad_hash = ground arith;
  ready = λ j. ground arith;
  room = λ j. ground arith;
}
call-IsFrame c (Callback.on_error r) conn = record {
  pad_hash = ground arith;
  ready = λ j. ground arith;
  room = λ j. ground arith;
}
call-IsFrame c Callback.on_client_closed conn = record {
  pad_hash = ground arith;
  ready = λ j. ground arith;
  room = λ j. ground arith;
}

pub fire_each-IsFrame :
    (c : ℕ) (t : EventType) (fs : List Callback) (conn : Connection)
    → IsFrame conn (fire_each c t fs conn)
fire_each-IsFrame c t fs conn =
    fire_each-keeps c t (IsFrame conn) fs conn
      (λ f at l h frame.
        let next = call-IsFrame c f at in
        record {
          pad_hash = next.pad_hash ∙ frame.pad_hash;
          ready = λ j. next.ready j ∙ frame.ready j;
          room = λ j. next.room j ∙ frame.room j;
        })
      (record { pad_hash = refl; ready = λ j. refl; room = λ j. refl })

-- Whether the closure `f`, when it is called, removes `g`.
abbrev pub removes : Callback → Callback → Bool
removes (Callback.on_open r) (Callback.on_open s) = s == r
removes (Callback.on_open r) (Callback.on_error s) = s == r
removes (Callback.on_close r) (Callback.on_open s) = s == r
removes (Callback.on_close r) (Callback.on_error s) = s == r
removes (Callback.on_close r) (Callback.on_close s) = s == r
removes (Callback.on_error r) (Callback.on_open s) = s == r
removes (Callback.on_error r) (Callback.on_error s) = s == r
removes (Callback.on_error r) (Callback.on_close s) = s == r
removes Callback.on_client_closed Callback.on_client_closed = true
removes _ _ = false

-- While the client of the event is the current one, what listens to it after a call is what did
-- before and was not removed.
pub hears-call :
    (c : ℕ) (f g : Callback) (conn : Connection)
    → conn.current ≡ Option.some c
    → hears g c (call c f conn) ≡ (not (removes f g) && hears g c conn)
unfolding call
hears-call c (Callback.on_open r) g conn e =
    let ls = (conn.clients c).listeners in
    ground (
      arith,
      is_listening-remove_listener g (Callback.on_open r) ls,
      is_listening-remove_listener g (Callback.on_error r)
          (remove_listener (Callback.on_open r) ls),
    )
hears-call c (Callback.on_close r) g conn e =
    let ls = (conn.clients c).listeners in
    let ks = remove_listener (Callback.on_open r) ls in
    ground (
      arith,
      is_listening-remove_listener g (Callback.on_open r) ls,
      is_listening-remove_listener g (Callback.on_error r) ks,
      is_listening-remove_listener g (Callback.on_close r)
          (remove_listener (Callback.on_error r) ks),
    )
hears-call c (Callback.on_error r) g conn e =
    let ls = (conn.clients c).listeners in
    let ks = remove_listener (Callback.on_open r) ls in
    ground (
      arith,
      is_listening-remove_listener g (Callback.on_open r) ls,
      is_listening-remove_listener g (Callback.on_error r) ks,
      is_listening-remove_listener g (Callback.on_close r)
          (remove_listener (Callback.on_error r) ks),
    )
hears-call c Callback.on_client_closed g conn e =
    let ls = (conn.clients c).listeners in
    ground (arith, is_listening-remove_listener g Callback.on_client_closed ls)
