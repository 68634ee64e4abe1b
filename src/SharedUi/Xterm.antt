-- ===== src/SharedUi/Xterm.antt =====
-- The terminal component (shared-ui/xterm/components/xterm.component.ts). The terminal of xterm.js
-- is known by a number and by the calls that it is sent; `C` is the type of the socket channels.
pub mod Protocol
mod Tests
use editor_sh.Prelude.{
  ℕ, suc, String, Bool, true, false, Option, none, some, List, [], ◌∷◌, ◌++◌, foldl, if◌then◌else◌,
}

-- `open_in` stands for `new Terminal()` with its `open` and its options.
pub data TerminalCall (C : Type 0) : Type 0 where
  open_in fit clear destroy : ℕ → TerminalCall C
  attach : ℕ → C → TerminalCall C
  writeln : ℕ → String → TerminalCall C

-- The fields, with `awaiting` for the callback on the library and `resize` for the subscription to
-- the window; then how many terminals were created, the calls, and the terminals that
-- `terminalDidMount` announced.
pub record Xterm (C : Type 0) : Type 0 where
  pub terminal : Option ℕ
  pub awaiting : Bool
  pub resize : Bool
  pub created : ℕ
  pub calls : List (TerminalCall C)
  pub mounted : List ℕ

module _ {C : Type 0} where
  abbrev pub new_xterm : Xterm C
  new_xterm = record {
    terminal = none;
    awaiting = false;
    resize = false;
    created = 0;
    calls = [];
    mounted = [];
  }

  abbrev pub call_terminal : (ℕ → TerminalCall C) → Xterm C → Xterm C
  call_terminal call x = elim x.terminal [
    | none ↦ x
    | some c ↦ record x { calls = x.calls ++ (call c ∷ []) }
  ]

  -- `ngOnInit`
  unfoldable pub init : Bool → Xterm C → Xterm C
  init is_browser x = if is_browser then record x { awaiting = true; resize = true } else x

  -- `layout`, `clear`, `attachSocketChannel` and `writeln`
  unfoldable pub layout : Xterm C → Xterm C
  layout = call_terminal TerminalCall.fit

  unfoldable pub clear_screen : Xterm C → Xterm C
  clear_screen = call_terminal TerminalCall.clear

  unfoldable pub attach_socket_channel : C → Xterm C → Xterm C
  attach_socket_channel channel = call_terminal (λ c. TerminalCall.attach c channel)

  unfoldable pub write_line : String → Xterm C → Xterm C
  write_line line = call_terminal (λ c. TerminalCall.writeln c line)

  abbrev announce : ℕ → Xterm C → Xterm C
  announce c x = record x { mounted = x.mounted ++ (c ∷ []) }

  -- `initTerminal`
  unfoldable pub init_terminal : Xterm C → Xterm C
  unfolding layout
  init_terminal x = announce x.created (
      layout (record x {
        terminal = some x.created;
        created = suc x.created;
        calls = x.calls ++ (TerminalCall.open_in x.created ∷ []);
      }))

  unfoldable pub library_loaded : Xterm C → Xterm C
  unfolding init_terminal
  library_loaded x = if x.awaiting then init_terminal (record x { awaiting = false }) else x

  -- `ngOnDestroy`
  unfoldable pub destroy_component : Xterm C → Xterm C
  destroy_component x = record (call_terminal TerminalCall.destroy x) {
    terminal = none;
    resize = false;
  }

-- What happens to a component: by the library, the window, Angular and the page.
pub data XtermEvent (C : Type 0) : Type 0 where
  loaded resized destroyed laid_out cleared : XtermEvent C
  attached : C → XtermEvent C
  written : String → XtermEvent C

module _ {C : Type 0} where
  unfoldable pub on_xterm_event : Xterm C → XtermEvent C → Xterm C
  unfolding library_loaded layout destroy_component clear_screen attach_socket_channel write_line
  on_xterm_event x loaded = library_loaded x
  on_xterm_event x resized = if x.resize then layout x else x
  on_xterm_event x destroyed = destroy_component x
  on_xterm_event x laid_out = layout x
  on_xterm_event x cleared = clear_screen x
  on_xterm_event x (attached channel) = attach_socket_channel channel x
  on_xterm_event x (written line) = write_line line x

  unfoldable pub start : Bool → Xterm C
  unfolding init
  start is_browser = init is_browser new_xterm

  abbrev pub run : Xterm C → List (XtermEvent C) → Xterm C
  run x events = foldl on_xterm_event x events
