-- ===== src/Service/Jwt.antt =====
-- The token store (shared/services/api/jwt.service.ts). `window.localStorage` belongs to the
-- browser: it can be out of reach, so that every access throws, or full, so that a write throws.
pub mod Laws
use editor_sh.Prelude.{
  String, Bool, true, false, not, ◌&&◌, Option, none, some, or_else, str_eq, if◌then◌else◌,
}

-- One key of the browser's storage.
pub record Storage : Type 0 where
  pub accessible : Bool
  pub full : Bool
  pub item : Option String

-- `local_token` is `undefined` after the token of a session without one was saved.
pub record JwtService : Type 0 where
  pub local_token : Option String
  pub storage : Storage

-- `x || ''`
abbrev text_or_empty : Option String → String
text_or_empty x = or_else x ""

unfoldable pub get_token : JwtService → String
get_token j =
    if j.storage.accessible then text_or_empty j.storage.item else text_or_empty j.local_token

-- What a write of `token` puts into the storage, which holds texts: `undefined` becomes a text.
abbrev pub stored_text : Option String → String
stored_text token = or_else token "undefined"

-- The local copy is set first; the write to the storage may throw, which is caught.
unfoldable pub save_token : Option String → JwtService → JwtService
save_token token j = record {
  local_token = token;
  storage =
      if j.storage.accessible && not j.storage.full
      then record j.storage { item = some (stored_text token) }
      else j.storage;
}

unfoldable pub destroy_token : JwtService → JwtService
destroy_token j = record {
  local_token = some "";
  storage = if j.storage.accessible then record j.storage { item = none } else j.storage;
}

-- `token != null && token.length > 0`
abbrev pub has_token : JwtService → Bool
has_token j = not (str_eq (get_token j) "")
