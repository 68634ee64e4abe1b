-- ===== src/Terminal.antt =====
-- The channel between the terminal and a room (shared-ui/xterm/components/xterm.socket.channel.ts).
-- The terminal speaks JSON arrays, which stand here as lists of what is in them.
pub mod Streams
use editor_sh.Prelude.{
  ℕ, String, Bool, true, false, not, ◌&&◌, Option, none, some, List, [], ◌∷◌, get_elem?, str_eq,
  if◌then◌else◌, zero, suc,
}

-- A value in a message of JSON, or one that is missing
pub data JsonValue : Type 0 where
  undefined null : JsonValue
  text : String → JsonValue
  number : ℕ → JsonValue

-- `obj[index]`
abbrev pub item_at : List JsonValue → ℕ → JsonValue
item_at [] index = undefined
item_at (x ∷ xs) zero = x
item_at (x ∷ xs) (suc index) = item_at xs index

-- `value === name`, for a text
abbrev pub is_text : String → JsonValue → Bool
is_text name (text s) = str_eq s name
is_text name _ = false

pub data TerminalContent : Type 0 where
  stdin : JsonValue → TerminalContent
  set_size : (row col : JsonValue) → TerminalContent

-- `none`: the error of an unsupported protocol
unfoldable pub convert_from_xterm : List JsonValue → Option TerminalContent
convert_from_xterm obj =
    if is_text "stdin" (item_at obj 0)
    then some (stdin (item_at obj 1))
    else if is_text "set_size" (item_at obj 0)
    then some (set_size (item_at obj 1) (item_at obj 2))
    else none

-- What the room sends for the terminal
pub record TerminalOutput : Type 0 where
  pub stdout : JsonValue
  pub stderr : JsonValue

abbrev pub is_defined : JsonValue → Bool
is_defined undefined = false
is_defined _ = true

abbrev pub is_not_null : JsonValue → Bool
is_not_null null = false
is_not_null _ = true

unfoldable pub convert_to_xterm : TerminalOutput → List JsonValue
convert_to_xterm content =
    if is_defined content.stdout && is_not_null content.stdout
    then text "stdout" ∷ content.stdout ∷ []
    else if is_defined content.stderr && is_not_null content.stdout
    then text "stderr" ∷ content.stderr ∷ []
    else text "stdout" ∷ text "" ∷ []
