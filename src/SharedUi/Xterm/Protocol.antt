-- ===== src/SharedUi/Xterm/Protocol.antt =====
-- That a terminal is used between its opening and its end only.
use editor_sh.Prelude.{
  ℕ, Bool, true, false, ◌&&◌, ◌==◌, Option, none, some, is_some, List, [], ◌∷◌, ◌++◌, foldl, ◌≡◌,
  refl, arith, ap, sym, ◌∙◌, if◌then◌else◌,
}
use editor_sh.SharedUi.Xterm.{
  TerminalCall, Xterm, XtermEvent, loaded, resized, destroyed, laid_out, cleared, attached, written,
  call_terminal, init, layout, clear_screen, attach_socket_channel, write_line, init_terminal,
  library_loaded, destroy_component, on_xterm_event, start, run,
}

-- What a user of terminals may do, with the open terminal: `broken` for a call to another terminal
-- than the open one, and for an opening while one is open.
pub data Protocol : Type 0 where
  closed broken : Protocol
  using : ℕ → Protocol

abbrev pub used_by : ℕ → ℕ → Protocol
used_by c d = if c == d then using c else broken

module _ {C : Type 0} where
  abbrev pub obey : Protocol → TerminalCall C → Protocol
  obey closed (TerminalCall.open_in d) = using d
  obey (using c) (TerminalCall.fit d) = used_by c d
  obey (using c) (TerminalCall.clear d) = used_by c d
  obey (using c) (TerminalCall.attach d channel) = used_by c d
  obey (using c) (TerminalCall.writeln d line) = used_by c d
  obey (using c) (TerminalCall.destroy d) = if c == d then closed else broken
  obey _ _ = broken

abbrev pub protocol_of : Option ℕ → Protocol
protocol_of none = closed
protocol_of (some c) = using c

same_number : (c : ℕ) → (c == c) ≡ true
same_number c = ground arith

same_use : (c : ℕ) → used_by c c ≡ using c
same_use c = rw (same_number c) refl

same_end : (c : ℕ) → (if c == c then closed else broken) ≡ closed
same_end c = rw (same_number c) refl

module _ {C : Type 0} where
  -- The calls so far obey, the terminal of the component is the open one, and the component awaits
  -- the library only without one.
  record IsObeying (x : Xterm C) : Type 0 where
    obeys : foldl obey closed x.calls ≡ protocol_of x.terminal
    waits : (x.awaiting && is_some x.terminal) ≡ false

  obey-append :
      (p : Protocol) (calls : List (TerminalCall C)) (call : TerminalCall C)
      → foldl obey p (calls ++ (call ∷ [])) ≡ obey (foldl obey p calls) call
  obey-append p [] call = refl
  obey-append p (c ∷ calls) call = obey-append (obey p c) calls call

  -- A call that the open terminal may be sent
  call-IsObeying :
      (call : ℕ → TerminalCall C)
      → ((c : ℕ) → obey (using c) (call c) ≡ using c)
      → (x : Xterm C) → IsObeying x
      → IsObeying (call_terminal call x)
  call-IsObeying call allowed x h = at x.terminal refl
    where
      at :
          (t : Option ℕ)
          → x.terminal ≡ t
          → IsObeying (elim t [ none ↦ x | some c ↦ record x { calls = x.calls ++ (call c ∷ []) } ])
      at none e = h
      at (some c) e = record {
        obeys =
            obey-append closed x.calls (call c)
            ∙ ap (λ p. obey p (call c)) (h.obeys ∙ ap protocol_of e)
            ∙ allowed c
            ∙ sym (ap protocol_of e);
        waits = h.waits;
      }

  -- A component that awaits the library has no terminal.
  no_terminal : (x : Xterm C) → IsObeying x → x.awaiting ≡ true → x.terminal ≡ none
  no_terminal x h e = ground arith

  opened_calls :
      (c : ℕ) (calls : List (TerminalCall C))
      → foldl obey closed calls ≡ closed
      → foldl obey closed ((calls ++ (TerminalCall.open_in c ∷ [])) ++ (TerminalCall.fit c ∷ []))
        ≡ using c
  opened_calls c calls e =
      obey-append closed (calls ++ (TerminalCall.open_in c ∷ [])) (TerminalCall.fit c)
      ∙ ap (λ p. obey {C = C} p (TerminalCall.fit c))
          (obey-append closed calls (TerminalCall.open_in c)
            ∙ ap (λ p. obey {C = C} p (TerminalCall.open_in c)) e)
      ∙ same_use c

  either-IsObeying :
      (b : Bool) (x y : Xterm C)
      → (b ≡ true → IsObeying x)
      → (b ≡ false → IsObeying y)
      → IsObeying (if b then x else y)
  either-IsObeying true x y hx hy = hx refl
  either-IsObeying false x y hx hy = hy refl

  library_loaded-IsObeying : (x : Xterm C) → IsObeying x → IsObeying (library_loaded x)
  unfolding library_loaded init_terminal layout
  library_loaded-IsObeying x h =
      either-IsObeying x.awaiting (init_terminal (record x { awaiting = false })) x
        (λ waits. record {
          obeys = opened_calls x.created x.calls (h.obeys ∙ ap protocol_of (no_terminal x h waits));
          waits = refl;
        })
        (λ idle. h)

  ended_calls :
      (c : ℕ) (calls : List (TerminalCall C))
      → foldl obey closed calls ≡ using c
      → foldl obey closed (calls ++ (TerminalCall.destroy c ∷ [])) ≡ closed
  ended_calls c calls e =
      obey-append closed calls (TerminalCall.destroy c)
      ∙ ap (λ p. obey {C = C} p (TerminalCall.destroy c)) e
      ∙ same_end c

  destroy-IsObeying : (x : Xterm C) → IsObeying x → IsObeying (destroy_component x)
  unfolding destroy_component
  destroy-IsObeying x h = at x.terminal refl
    where
      at :
          (t : Option ℕ)
          → x.terminal ≡ t
          → IsObeying
              (record (elim t [
                | none ↦ x
                | some c ↦ record x { calls = x.calls ++ (TerminalCall.destroy c ∷ []) }
              ]) { terminal = none; resize = false })
      at none e = record { obeys = h.obeys ∙ ap protocol_of e; waits = ground arith }
      at (some c) e = record {
        obeys = ended_calls c x.calls (h.obeys ∙ ap protocol_of e);
        waits = ground arith;
      }

  event-IsObeying :
      (event : XtermEvent C) (x : Xterm C) → IsObeying x → IsObeying (on_xterm_event x event)
  unfolding on_xterm_event layout clear_screen attach_socket_channel write_line
  event-IsObeying loaded x h = library_loaded-IsObeying x h
  event-IsObeying resized x h =
      either-IsObeying x.resize (layout x) x (λ on. call-IsObeying _ same_use x h) (λ off. h)
  event-IsObeying destroyed x h = destroy-IsObeying x h
  event-IsObeying laid_out x h = call-IsObeying _ same_use x h
  event-IsObeying cleared x h = call-IsObeying _ same_use x h
  event-IsObeying (attached channel) x h = call-IsObeying _ same_use x h
  event-IsObeying (written line) x h = call-IsObeying _ same_use x h

  foldl-IsObeying :
      (events : List (XtermEvent C)) (x : Xterm C) → IsObeying x → IsObeying (run x events)
  foldl-IsObeying [] x h = h
  foldl-IsObeying (event ∷ later) x h =
      foldl-IsObeying later (on_xterm_event x event) (event-IsObeying event x h)

  start-IsObeying : (is_browser : Bool) → IsObeying (start {C = C} is_browser)
  unfolding start init
  start-IsObeying true = record { obeys = refl; waits = refl }
  start-IsObeying false = record { obeys = refl; waits = refl }

  -- Whatever happens to a component, in whichever order: its calls use one terminal after another,
  -- each between its opening and its end only, and the terminal that is open at last is the one of
  -- the component, so that with none there every terminal has been destroyed.
  pub run-obey :
      (is_browser : Bool) (events : List (XtermEvent C))
      → let x = run (start is_browser) events in foldl obey closed x.calls ≡ protocol_of x.terminal
  run-obey is_browser events =
      (foldl-IsObeying events (start is_browser) (start-IsObeying is_browser)).obeys
