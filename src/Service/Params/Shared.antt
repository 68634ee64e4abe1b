-- ===== src/Service/Params/Shared.antt =====
-- The parameters of a request, and when there are none.
use editor_sh.Prelude.{
  ℕ, String, Bool, true, false, not, ◌&&◌, Option, none, some, List, [], ◌∷◌, ◌++◌, ◌≡◌, refl, ap,
  ◌∙◌, if◌then◌else◌, Bool-cases, inl, inr, arith,
}
use editor_sh.Service.Params.{
  Value, Members, nothing, other, number, text, object, end, member, key_of, assign, has, Found,
  and_then, dfs, dfs_members, to_http_params, result_of,
}

-- The numbers and texts of a value with their keys, and its objects, from the outside in.
mutual
  pub leaves : (ℕ → String) → List String → Value → List (String × String)
  leaves to_text path nothing = []
  leaves to_text path other = []
  leaves to_text path (number n) = (key_of path, to_text n) ∷ []
  leaves to_text path (text s) = (key_of path, s) ∷ []
  leaves to_text path (object id members) = leaves_of to_text path members

  pub leaves_of : (ℕ → String) → List String → Members → List (String × String)
  leaves_of to_text path end = []
  leaves_of to_text path (member name value rest) =
      leaves to_text (path ++ (name ∷ [])) value ++ leaves_of to_text path rest

mutual
  pub objects : Value → List ℕ
  objects (object id members) = id ∷ objects_of members
  objects _ = []

  pub objects_of : Members → List ℕ
  objects_of end = []
  objects_of (member name value rest) = objects value ++ objects_of rest

-- No object occurs twice, or in the cache.
abbrev pub fresh : List ℕ → List ℕ → Bool
fresh [] cache = true
fresh (id ∷ ids) cache = not (has id cache) && fresh ids (id ∷ cache)

abbrev pub push : List ℕ → List ℕ → List ℕ
push [] cache = cache
push (id ∷ ids) cache = push ids (id ∷ cache)

abbrev pub assign_all : List (String × String) → List (String × String) → List (String × String)
assign_all [] result = result
assign_all ((k, v) ∷ rest) result = assign_all rest (assign k v result)

fresh-append :
    (xs ys cache : List ℕ) → fresh (xs ++ ys) cache ≡ (fresh xs cache && fresh ys (push xs cache))
fresh-append [] ys cache = refl
fresh-append (x ∷ xs) ys cache = ground (arith, fresh-append xs ys (x ∷ cache))

push-append : (xs ys cache : List ℕ) → push (xs ++ ys) cache ≡ push ys (push xs cache)
push-append [] ys cache = refl
push-append (x ∷ xs) ys cache = push-append xs ys (x ∷ cache)

assign_all-append :
    (xs ys result : List (String × String))
    → assign_all (xs ++ ys) result ≡ assign_all ys (assign_all xs result)
assign_all-append [] ys result = refl
assign_all-append ((k, v) ∷ xs) ys result = assign_all-append xs ys (assign k v result)

-- A step and the rest of the members, by what each of them finds.
joined :
    (xs ys cache : List ℕ) (ls ms result : List (String × String)) (next : Found → Option Found)
    → ((r : List (String × String)) (c : List ℕ)
        → next (r, c) ≡ (if fresh ys c then some (assign_all ms r, push ys c) else none))
    → and_then (if fresh xs cache then some (assign_all ls result, push xs cache) else none) next
      ≡ (if fresh (xs ++ ys) cache
          then some (assign_all (ls ++ ms) result, push (xs ++ ys) cache)
          else none)
joined xs ys cache ls ms result next h = elim (Bool-cases (fresh xs cache)) [
  | inr seen ↦ rw (fresh-append xs ys cache, seen) refl
  | inl new ↦
      rw (fresh-append xs ys cache, new, assign_all-append ls ms result, push-append xs ys cache)
        (h (assign_all ls result) (push xs cache))
]

mutual
  unfolding dfs leaves objects

  dfs_lem :
      (to_text : ℕ → String) (path : List String) (v : Value) (result : List (String × String))
      (cache : List ℕ)
      → dfs to_text path v (result, cache) ≡ (
          if fresh (objects v) cache
          then some (assign_all (leaves to_text path v) result, push (objects v) cache)
          else none)
  dfs_lem to_text path nothing result cache = refl
  dfs_lem to_text path other result cache = refl
  dfs_lem to_text path (number n) result cache = refl
  dfs_lem to_text path (text s) result cache = refl
  dfs_lem to_text path (object id members) result cache = elim (Bool-cases (has id cache)) [
    | inl seen ↦ rw seen refl
    | inr new ↦ rw new (dfs_members_lem to_text path members result (id ∷ cache))
  ]

  dfs_members_lem :
      (to_text : ℕ → String) (path : List String) (ms : Members) (result : List (String × String))
      (cache : List ℕ)
      → dfs_members to_text path ms (result, cache) ≡ (
          if fresh (objects_of ms) cache
          then some (assign_all (leaves_of to_text path ms) result, push (objects_of ms) cache)
          else none)
  dfs_members_lem to_text path end result cache = refl
  dfs_members_lem to_text path (member name value rest) result cache =
      ap (λ found. and_then found (dfs_members to_text path rest))
        (dfs_lem to_text (path ++ (name ∷ [])) value result cache)
      ∙ joined (objects value) (objects_of rest) cache (leaves to_text (path ++ (name ∷ [])) value)
          (leaves_of to_text path rest) result (dfs_members to_text path rest)
          (λ r c. dfs_members_lem to_text path rest r c)

-- The parameters are the numbers and texts of the object in their order, each under the names that
-- lead to it, and a later one for the same key in place of the earlier; but where any object
-- occurs twice, the conversion throws, be there a cycle or not.
pub to_http_params_lem :
    (to_text : ℕ → String) (params : Value)
    → to_http_params to_text params ≡ (
        if fresh (objects params) [] then some (assign_all (leaves to_text [] params) []) else none)
unfolding to_http_params
to_http_params_lem to_text params =
    ap result_of (dfs_lem to_text [] params [] [])
    ∙ elim (fresh (objects params) [])
        as (λ b.
          result_of (
            if b
            then some (assign_all (leaves to_text [] params) [], push (objects params) [])
            else none)
          ≡ (if b then some (assign_all (leaves to_text [] params) []) else none)) [
            | true ↦ refl
            | false ↦ refl
          ]
