-- ===== src/Terminal/Streams.antt =====
-- Which stream of a message of the room the terminal shows.
use editor_sh.Prelude.{String, List, [], ◌∷◌, ◌≡◌, refl, ◌↔◌, ap, Bool, true, false}
use editor_sh.Terminal.{
  JsonValue, undefined, null, text, number, convert_to_xterm, is_text, item_at,
}

abbrev is_error : List JsonValue → Bool
is_error obj = is_text "stderr" (item_at obj 0)

only :
    (s : String) (stdout : JsonValue)
    → (convert_to_xterm (record { stdout = stdout; stderr = text s }) ≡ text "stderr" ∷ text s ∷ [])
      ↔ (stdout ≡ undefined)
unfolding convert_to_xterm
only s undefined = (λ e. refl, λ e. refl)
only s null = (λ e. let bad : false ≡ true = ap is_error e in cc, λ e. cc)
only s (text o) = (λ e. let bad : false ≡ true = ap is_error e in cc, λ e. cc)
only s (number n) = (λ e. let bad : false ≡ true = ap is_error e in cc, λ e. cc)

-- A text for the standard output is always shown; a text for the errors is shown exactly if the
-- standard output is missing: beside a standard output that is `null` it is lost, and nothing is
-- shown.
pub convert_to_xterm_lem :
    (s : String) (stdout stderr : JsonValue)
    → (convert_to_xterm (record { stdout = text s; stderr = stderr }) ≡ text "stdout" ∷ text s ∷ [])
      × ((convert_to_xterm (record { stdout = stdout; stderr = text s })
            ≡ text "stderr" ∷ text s ∷ [])
          ↔ (stdout ≡ undefined))
      × (convert_to_xterm (record { stdout = null; stderr = text s })
          ≡ text "stdout" ∷ text "" ∷ [])
unfolding convert_to_xterm
convert_to_xterm_lem s stdout stderr = (refl, only s stdout, refl)
