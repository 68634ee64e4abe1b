-- ===== src/Service/Params/Tests.antt =====
-- An object that stands in two places, without a cycle.
use editor_sh.Prelude.{ℕ, String, none, some, [], ◌≡◌, if◌then◌else◌}
use editor_sh.Service.Params.{Value, number, object, end, member, to_http_params}
use editor_sh.Service.Params.Shared.{leaves, objects, fresh, assign_all, to_http_params_lem}

abbrev digits : ℕ → String
digits n = "5"

abbrev shared : Value
shared = object 2 (member "size" (number 5) end)

abbrev twice : Value
twice = object 1 (member "first" shared (member "second" shared end))

to_http_params_lem_example :
    to_http_params digits twice
    ≡ (if fresh (objects twice) [] then some (assign_all (leaves digits [] twice) []) else none)
to_http_params_lem_example = to_http_params_lem digits twice
