-- ===== src/Service/Local.antt =====
-- What is kept in the browser's storage as JSON (shared/services/common/common.service.ts,
-- `LocalStorage`), under one key. The storage can be out of reach or full; JSON belongs to the language.
pub mod Kept
use editor_sh.Prelude.{Bool, true, false, not, ◌&&◌, Option, none, some, if◌then◌else◌}

-- `JSON.stringify` and `JSON.parse`, where `none` is what they throw; `null` is the value `null`.
pub record Json (A Text : Type 0) : Type 0 where
  pub stringify : A → Option Text
  pub parse : Text → Option A
  pub null : A

-- `item` is what the storage has, and `data` what the object itself has.
pub record LocalStorage (A Text : Type 0) : Type 0 where
  pub accessible : Bool
  pub full : Bool
  pub item : Option Text
  pub own_data : Option A

module _ {A Text : Type 0} (json : Json A Text) where
  abbrev pub parsed : Option Text → Option A
  parsed none = some json.null
  parsed (some text) = json.parse text

  -- The value, and `data[key]` where the `try` throws
  abbrev pub or_own : Option A → Option A → Option A
  or_own none own = own
  or_own (some value) own = some value

  -- `getItem`; `none` is `undefined`.
  unfoldable pub get_item : LocalStorage A Text → Option A
  get_item s = if s.accessible then or_own (parsed s.item) s.own_data else s.own_data

  abbrev pub write : A → Option Text → LocalStorage A Text → LocalStorage A Text
  write value none s = record s { own_data = some value }
  write value (some text) s =
      if s.accessible && not s.full
      then record s { item = some text }
      else record s { own_data = some value }

  -- `setItem`
  unfoldable pub set_item : A → LocalStorage A Text → LocalStorage A Text
  set_item value s = write value (json.stringify value) s

-- `removeItem`
unfoldable pub remove_item : {A Text : Type 0} → LocalStorage A Text → LocalStorage A Text
remove_item s =
    if s.accessible then record s { item = none; own_data = none } else record s { own_data = none }
