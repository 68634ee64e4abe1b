-- ===== src/Service/Params.antt =====
-- The conversion of an object to the parameters of a request (shared/services/common/common.service.ts,
-- `HttpParamsConverter`). An object is known by a number, by which the cache finds it again.
pub mod Shared
mod Tests
use editor_sh.Prelude.{
  ℕ, String, ◌+++◌, Bool, true, false, ◌||◌, Option, none, some, List, [], ◌∷◌, ◌++◌, ◌==◌, str_eq,
  if◌then◌else◌, any,
}

mutual
  -- `nothing` is `null` and `undefined`. Booleans and functions are passed over: `other`.
  pub data Value : Type 0 where
    nothing other : Value
    number : ℕ → Value
    text : String → Value
    object : ℕ → Members → Value

  pub data Members : Type 0 where
    end : Members
    member : String → Value → Members → Members

-- `path.reduce(pathNameReducer, '')`
abbrev pub add_names : String → List String → String
add_names acc [] = acc
add_names acc (name ∷ rest) = add_names (acc +++ ("[" +++ (name +++ "]"))) rest

abbrev pub key_of : List String → String
key_of [] = ""
key_of (name ∷ rest) = add_names name rest

-- `result[key] = value`, on the names and values in the order of their first assignment
unfoldable pub assign : String → String → List (String × String) → List (String × String)
assign key value [] = (key, value) ∷ []
assign key value ((k, v) ∷ rest) =
    if str_eq k key then (k, value) ∷ rest else (k, v) ∷ assign key value rest

-- `cache.has`
unfoldable pub has : ℕ → List ℕ → Bool
has id [] = false
has id (x ∷ cache) = (id == x) || has id cache

abbrev pub Found : Type 0
Found = List (String × String) × List ℕ

abbrev pub and_then : Option Found → (Found → Option Found) → Option Found
and_then none next = none
and_then (some found) next = next found

-- `dfs`, over the text of a number: the result and the cache, or `none` for the error of a cyclic
-- reference.
unfoldable mutual
  pub dfs : (ℕ → String) → List String → Value → Found → Option Found
  dfs to_text path nothing found = some found
  dfs to_text path other found = some found
  dfs to_text path (number n) (result, cache) =
      some (assign (key_of path) (to_text n) result, cache)
  dfs to_text path (text s) (result, cache) = some (assign (key_of path) s result, cache)
  dfs to_text path (object id members) (result, cache) =
      if has id cache then none else dfs_members to_text path members (result, id ∷ cache)

  pub dfs_members : (ℕ → String) → List String → Members → Found → Option Found
  dfs_members to_text path end found = some found
  dfs_members to_text path (member name value rest) found =
      and_then (dfs to_text (path ++ (name ∷ [])) value found) (dfs_members to_text path rest)

abbrev pub result_of : Option Found → Option (List (String × String))
result_of none = none
result_of (some (result, cache)) = some result

-- `toHttpParams`
unfoldable pub to_http_params : (ℕ → String) → Value → Option (List (String × String))
unfolding dfs
to_http_params to_text params = result_of (dfs to_text [] params ([], []))
