-- ===== src/Service/Endpoint.antt =====
-- The address of a room (shared/services/codepad/codepad.service.ts, `makeEndPointUrl`).
use Prim.Native.Char.{Char, code}
use text.Mathlib.TextLemmas.{cons-append}
use editor_sh.Prelude.{String, ◌+++◌, Bool, Option, none, some, ◌≡◌, ◌==◌, if◌then◌else◌}

-- The browser's `location`: whether its protocol begins with `https`, and its host.
pub record Location : Type 0 where
  pub https : Bool
  pub host : String

-- `uri.charAt(0)` and what follows
abbrev uncons : String → Option (Char × String)
uncons String.[] = none
uncons (String.◌∷◌ c rest) = some (c, rest)

-- whether `uri.charAt(0) === '/'`, and the rest
begins_with_slash : String → Option String
begins_with_slash uri = elim (uncons uri) [
  | none ↦ none
  | some (c, rest) ↦ if code c == b'/' then some rest else none
]

unfoldable pub make_end_point_url : Location → String → String
unfolding begins_with_slash
make_end_point_url loc uri =
    let protocol = if loc.https then "wss" else "ws" in
    elim (begins_with_slash uri) [
      | none ↦ uri
      | some rest ↦ elim (begins_with_slash rest) [
        | some _ ↦ protocol +++ (":" +++ uri)
        | none ↦ protocol +++ ("://" +++ (loc.host +++ uri))
      ]
    ]

-- `this.makeEndPointUrl('/realtime/' + roomKey)`
unfoldable pub room_url : Location → String → String
unfolding make_end_point_url
room_url loc room_key = make_end_point_url loc ("/realtime/" +++ room_key)

realtime_uri :
    (room_key : String)
    → begins_with_slash ("/realtime/" +++ room_key) ≡ some ("realtime/" +++ room_key)
unfolding begins_with_slash
realtime_uri room_key = rw (cons-append "/" "realtime/" room_key)

-- The address of a room is on the page's own host, with TLS exactly when the page has it,
-- whatever the key of the room is.
pub room_url_lem :
    (loc : Location) (room_key : String)
    → room_url loc room_key
      ≡ (if loc.https then "wss" else "ws")
        +++ ("://" +++ (loc.host +++ ("/realtime/" +++ room_key)))
unfolding room_url
room_url_lem loc room_key =
    rw (realtime_uri room_key, make_end_point_url) (rw (cons-append "r" "ealtime/" room_key))
