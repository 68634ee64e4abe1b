-- ===== src/Service/Jwt/Laws.antt =====
-- What is read back from the token store.
use editor_sh.Prelude.{String, true, false, ◌≡◌, ◌⊎◌, some, arith}
use editor_sh.Service.Jwt.{JwtService, get_token, save_token, destroy_token}

-- A token that was saved is read back, if the storage either takes writes or cannot be reached.
pub get_token-save_token :
    (token : String) (j : JwtService)
    → (j.storage.full ≡ false) ⊎ (j.storage.accessible ≡ false)
    → get_token (save_token (some token) j) ≡ token
unfolding get_token save_token
get_token-save_token token j h = ground arith

-- In a full storage the old token stays: what was saved is not read back, and the local copy,
-- which has it, is not consulted.
pub save_token_full :
    (token old : String) (j : JwtService)
    → j.storage.accessible ≡ true
    → j.storage.full ≡ true
    → j.storage.item ≡ some old
    → (get_token (save_token (some token) j) ≡ old)
      × ((save_token (some token) j).local_token ≡ some token)
unfolding get_token save_token
save_token_full token old j a f e = ground arith

-- After `destroyToken` there is no token, whatever the storage does.
pub get_token-destroy_token : (j : JwtService) → get_token (destroy_token j) ≡ ""
unfolding get_token destroy_token
get_token-destroy_token j = ground arith
