-- ===== src/SharedUi/Xterm/Tests.antt =====
-- A terminal of a page that is destroyed while the library is loading.
use editor_sh.Prelude.{ℕ, true, List, [], ◌∷◌, foldl, ◌≡◌}
use editor_sh.SharedUi.Xterm.{
  Xterm, XtermEvent, loaded, resized, destroyed, attached, written, start, on_xterm_event, run,
}
use editor_sh.SharedUi.Xterm.Protocol.{closed, using, obey, run-obey}

abbrev events : List (XtermEvent ℕ)
events = written "lost" ∷ destroyed ∷ loaded ∷ resized ∷ attached 5 ∷ written "hello" ∷ []

abbrev left : Xterm ℕ
left = run (start true) events

run-obey_example : foldl obey closed left.calls ≡ using 0
unfolding start on_xterm_event
run-obey_example = run-obey true events
