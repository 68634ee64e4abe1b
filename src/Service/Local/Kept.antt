-- ===== src/Service/Local/Kept.antt =====
-- What is read back of what was kept.
use editor_sh.Prelude.{true, false, none, some, ◌≡◌, ◌⊎◌, arith, if◌then◌else◌}
use editor_sh.Service.Local.{Json, LocalStorage, get_item, set_item, remove_item}

-- The documented behaviour of JSON on a value: it is written, and read back as it was.
pub record IsKept {A Text : Type 0} (json : Json A Text) (value : A) : Type 0 where
  pub text : Text
  pub written : json.stringify value ≡ some text
  pub read : json.parse text ≡ some value

-- A value that JSON keeps is read back after it was set, if the storage either takes writes or is
-- out of reach; and after a removal there is `null` or nothing.
pub get_item-set_item :
    {A Text : Type 0} (json : Json A Text) (value : A) (s : LocalStorage A Text)
    → IsKept json value
    → (s.full ≡ false) ⊎ (s.accessible ≡ false)
    → (get_item json (set_item json value s) ≡ some value)
      × (get_item json (remove_item (set_item json value s))
          ≡ (if s.accessible then some json.null else none))
unfolding get_item set_item remove_item
get_item-set_item json value s h free = ground (arith, h.written, h.read)

-- In a full storage that can be read, what is read after a value was set is what the storage had
-- before: the value goes to the object's own data, which is not consulted.
pub set_item_full :
    {A Text : Type 0} (json : Json A Text) (value old : A) (text : Text) (s : LocalStorage A Text)
    → IsKept json value
    → s.accessible ≡ true
    → s.full ≡ true
    → s.item ≡ some text
    → json.parse text ≡ some old
    → get_item json (set_item json value s) ≡ some old
unfolding get_item set_item
set_item_full json value old text s h a f e p = ground (arith, h.written)
