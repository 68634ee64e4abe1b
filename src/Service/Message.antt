-- ===== src/Service/Message.antt =====
-- The messages of a room (shared/services/codepad/codepad.service.ts): what a client sends and how
-- it hands on what it receives. JSON and gzip belong to the language and to the package pako.
pub mod Sending
pub mod Registry
pub mod Calls
mod Tests
use editor_sh.Prelude.{
  ℕ, String, Bool, true, false, Option, none, some, List, [], ltb, if◌then◌else◌,
}

pub record CursorPosition : Type 0 where
  pub line : ℕ
  pub column : ℕ

pub record TextRange : Type 0 where
  pub start_line : ℕ
  pub start_column : ℕ
  pub end_line : ℕ
  pub end_column : ℕ

pub record TextChange : Type 0 where
  pub range : TextRange
  pub text : String

pub record EditorChangedEvent : Type 0 where
  pub version : ℕ
  pub changes : List TextChange

pub record CursorChangedEvent : Type 0 where
  pub peer_id : ℕ
  pub position : Option CursorPosition
  pub secondary_positions : List CursorPosition

pub record EditorSyncParams : Type 0 where
  pub changed : Option EditorChangedEvent
  pub text : Option String
  pub cursor : Option CursorChangedEvent

-- The requests of `sendTerminalSetSize`, `sendTerminalStdin`, `sendCommandReset`,
-- `sendCommandRunCode`, `sendCommandSetLang` and `sendEditor`.
pub data Content : Type 0 where
  set_size : (row col : ℕ) → Content
  stdin : String → Content
  reset : Content
  run_code set_lang : String → Content
  editor_sync : EditorSyncParams → Content

pub data Tag : Type 0 where
  t e c : Tag

pub data MsgCmd : Type 0 where
  terminal editor command : MsgCmd

-- `{ t: tag, c: content }`
pub record Packet (A : Type 0) : Type 0 where
  pub tag : Tag
  pub content : A

-- Over the types of texts and of compressed bytes: `JSON.stringify` and `JSON.parse` on packets, the `length` of a text, and pako's `gzip` and
-- `ungzip`; `none` where they throw.
pub record Codec (A Text Bytes : Type 0) : Type 0 where
  pub stringify : Packet A → Text
  pub parse : Text → Option (Packet A)
  pub size : Text → ℕ
  pub gzip : Text → Bytes
  pub ungzip : Bytes → Option Text

-- The data of a message on the socket
pub data Wire (Text Bytes : Type 0) : Type 0 where
  plain : Text → Wire Text Bytes
  array_buffer : Bytes → Wire Text Bytes

-- What becomes of a message: the listener is called, or not, or the adaptor throws before.
pub data Delivery (B : Type 0) : Type 0 where
  delivered : B → Delivery B
  dropped : Delivery B
  broken : Delivery B

unfoldable pub get_msg_tag : Option MsgCmd → Option Tag
get_msg_tag none = none
get_msg_tag (some terminal) = some t
get_msg_tag (some editor) = some e
get_msg_tag (some command) = some c

-- `===` on tags
abbrev pub tag_eq : Tag → Tag → Bool
tag_eq t t = true
tag_eq e e = true
tag_eq c c = true
tag_eq _ _ = false

-- `tag === undefined || payload.t === tag`
abbrev pub hears_tag : Option Tag → Tag → Bool
hears_tag none tag = true
hears_tag (some own) tag = tag_eq tag own

module _ {A Text Bytes : Type 0} (codec : Codec A Text Bytes) where
  -- `sendMessage`
  unfoldable pub send_message : Tag → A → Wire Text Bytes
  send_message tag content =
      let payload = codec.stringify (record { tag = tag; content = content }) in
      if ltb 128 (codec.size payload) then array_buffer (codec.gzip payload) else plain payload

  -- The text of a message
  unfoldable pub text_of : Wire Text Bytes → Option Text
  text_of (plain text) = some text
  text_of (array_buffer bytes) = codec.ungzip bytes

  -- The adaptor, from the text and from the packet on.
  abbrev pub hand_on : {B : Type 0} → Option Tag → (Packet A → B) → Option (Packet A) → Delivery B
  hand_on tag convert none = broken
  hand_on tag convert (some payload) =
      if hears_tag tag payload.tag then delivered (convert payload) else dropped

  abbrev pub read_text : Option Text → Option (Packet A)
  read_text none = none
  read_text (some text) = codec.parse text

  -- `createMessageAdaptor`, with the conversion of the payload
  unfoldable pub create_message_adaptor :
      {B : Type 0} → Option MsgCmd → (Packet A → B) → Wire Text Bytes → Delivery B
  unfolding get_msg_tag text_of
  create_message_adaptor cmd convert wire =
      hand_on (get_msg_tag cmd) convert (read_text (text_of wire))

-- The tag and the content of a request
unfoldable pub tag_of : Content → Tag
tag_of (set_size row col) = t
tag_of (stdin text) = t
tag_of reset = c
tag_of (run_code code) = c
tag_of (set_lang lang) = c
tag_of (editor_sync params) = e

-- The `send` functions, by the request
unfoldable pub send : {Text Bytes : Type 0} → Codec Content Text Bytes → Content → Wire Text Bytes
unfolding send_message tag_of
send codec content = send_message codec (tag_of content) content
