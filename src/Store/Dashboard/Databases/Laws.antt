-- ===== src/Store/Dashboard/Databases/Laws.antt =====
-- Every database stands under its own id, and what each action does to what is found under an id.
use editor_sh.Prelude.{
  ℕ, ◌≡◌, refl, ◌∙◌, Option, none, some, or_else, List, [], ◌∷◌, foldl, arith, ◌==◌, if◌then◌else◌,
}
use editor_sh.Prelude.Dict.{
  Dict, lookup, insert, IsNodup, lookup-insert, insert-IsNodup, lookup-erase, erase-IsNodup,
}
use editor_sh.Store.Dashboard.Databases.{
  Database, DatabasesAction, query_all_success, save_success, delete_success, DatabasesState,
  initial_databases_state, set_database, databases_map, add_or_update_database,
  databases_state_reducer,
}

-- The last of the databases with the id `k`.
abbrev pub latest : ℕ → List Database → Option Database
latest k [] = none
latest k (d ∷ ds) = elim (latest k ds) [
  | some r ↦ some r
  | none ↦ if k == d.id then some d else none
]

-- What a server that keeps the databases in a table would give for `k` after the actions.
abbrev pub found_after : DatabasesAction → (ℕ → Option Database) → ℕ → Option Database
found_after (query_all_success ds) found k = latest k (or_else ds [])
found_after (save_success d) found k = if k == d.id then some d else found k
found_after (delete_success id) found k = if k == id then none else found k
found_after _ found k = found k

abbrev pub found_all : List DatabasesAction → (ℕ → Option Database) → ℕ → Option Database
found_all actions found = foldl (λ f a. found_after a f) found actions

foldl-IsNodup :
    (ds : List Database) (d : Dict Database) → IsNodup d → IsNodup (foldl set_database d ds)
foldl-IsNodup [] d n = n
foldl-IsNodup (x ∷ ds) d n = foldl-IsNodup ds (insert x.id x d) (insert-IsNodup x.id x d n)

lookup-foldl :
    (k : ℕ) (ds : List Database) (d : Dict Database)
    → lookup k (foldl set_database d ds)
      ≡ elim (latest k ds) [ some q ↦ some q | none ↦ lookup k d ]
lookup-foldl k [] d = refl
lookup-foldl k (x ∷ ds) d =
    ground (arith, lookup-foldl k ds (insert x.id x d), lookup-insert x.id k x d)

reducer-IsNodup :
    (a : DatabasesAction) (state : DatabasesState)
    → IsNodup state.databases
    → IsNodup (databases_state_reducer state a).databases
unfolding databases_state_reducer add_or_update_database databases_map
reducer-IsNodup (query_all_success ds) state n = foldl-IsNodup (or_else ds []) [] tt
reducer-IsNodup (save_success d) state n = insert-IsNodup d.id d state.databases n
reducer-IsNodup (delete_success id) state n = erase-IsNodup id state.databases n
reducer-IsNodup _ state n = n

lookup-reducer :
    (a : DatabasesAction) (state : DatabasesState) (k : ℕ)
    → IsNodup state.databases
    → lookup k (databases_state_reducer state a).databases
      ≡ found_after a (λ j. lookup j state.databases) k
unfolding databases_state_reducer add_or_update_database databases_map lookup
lookup-reducer (query_all_success ds) state k n = ground (arith, lookup-foldl k (or_else ds []) [])
lookup-reducer (save_success d) state k n = lookup-insert d.id k d state.databases
lookup-reducer (delete_success id) state k n = lookup-erase id k state.databases n
lookup-reducer _ state k n = refl

lookup-foldl-reducer :
    (actions : List DatabasesAction) (state : DatabasesState) (k : ℕ)
    → IsNodup state.databases
    → lookup k (foldl databases_state_reducer state actions).databases
      ≡ found_all actions (λ j. lookup j state.databases) k
lookup-foldl-reducer [] state k n = refl
lookup-foldl-reducer (a ∷ later) state k n =
    lookup-foldl-reducer later (databases_state_reducer state a) k (reducer-IsNodup a state n)
    ∙ (λ i. found_all later (λ j. lookup-reducer a state j n i) k)

-- After any actions from the first state on, what the map has under an id is what a table has that
-- each answer of a query replaces, each saved database overwrites at its id, and each deletion
-- clears at its id.
pub lookup-databases_state_reducer :
    (actions : List DatabasesAction) (k : ℕ)
    → lookup k (foldl databases_state_reducer initial_databases_state actions).databases
      ≡ found_all actions (λ j. none) k
unfolding lookup
lookup-databases_state_reducer actions k = lookup-foldl-reducer actions initial_databases_state k tt
