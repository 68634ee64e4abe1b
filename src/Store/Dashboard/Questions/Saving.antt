-- ===== src/Store/Dashboard/Questions/Saving.antt =====
-- The saving of a question, from the effect over the request and the answer to the reducer.
use editor_sh.Prelude.{
  ℕ, Option, none, some, [], ◌∷◌, ◌≡◌, refl, ◌⊎◌, ◌↔◌, inl, inr, ◌<◌, arith, Option-cases, sym, ◌∙◌,
}
use mathlib.Core.Option.{some-injective}
use editor_sh.Prelude.Dict.{lookup, lookup-insert}
use editor_sh.Prelude.Members.{Elem}
use editor_sh.Models.Language.{Language, language_list, get_language_by_id}
use editor_sh.Models.Language.Lookup.{get_language_by_id-listed}
use editor_sh.Service.Api.{QuestionBody, put, post, question_save}
use editor_sh.Store.Dashboard.Questions.{
  Question, QuestionsState, save, questions_state_reducer, add_or_update_question,
}
use editor_sh.Store.Dashboard.Questions.Effects.{
  Dates, language_id, save_body, question_of_item, questions_effects, save_answer,
}
use editor_sh.Store.Action.{Command}

-- The body of a save of a question with the time `t`.
abbrev item_of : Dates → Question → ℕ → QuestionBody
item_of dates q t = record {
  id = q.id;
  language = language_id q.language;
  author = q.author;
  title = q.title;
  notes = q.notes;
  content = q.content;
  create_time = dates.to_utc_string t;
  favorite = q.favorite;
}

save_body-some :
    (dates : Dates) (q : Question) (t : ℕ)
    → q.create_time ≡ some t
    → save_body dates q ≡ some (item_of dates q t)
unfolding save_body
save_body-some dates q t e = rw e refl

-- The save of a question sends one request with the question, a PUT exactly if the question has a
-- positive id, and a POST otherwise; but for a question without a time of creation the effect
-- throws, and sends nothing.
pub questions_effects-save :
    (dates : Dates) (q : Question)
    → ((q.create_time ≡ none) × (questions_effects dates (save q) ≡ Command.crash ∷ []))
      ⊎ ((item : QuestionBody) × (save_body dates q ≡ some item)
          × (questions_effects dates (save q) ≡ Command.rest (question_save item) ∷ [])
          × (((question_save item).method ≡ put) ↔ (0 < q.id))
          × (((question_save item).method ≡ post) ↔ (q.id ≡ 0)))
unfolding questions_effects question_save
questions_effects-save dates q = elim (Option-cases q.create_time) [
  | inl e ↦ inl (e, rw (save_body, e) refl)
  | inr (t, e) ↦
      let sent = save_body-some dates q t e in
      inr (
        item_of dates q t,
        sent,
        rw sent refl,
        (λ h. ground arith, λ h. ground arith),
        (λ h. ground arith, λ h. ground arith),
      )
]

listed_language :
    (language : Option Language)
    → (language ≡ none) ⊎ ((l : Language) × (language ≡ some l) × Elem l language_list)
    → get_language_by_id (language_id language) ≡ language
unfolding get_language_by_id
listed_language language (inl e) = rw e refl
listed_language language (inr (l, e, listed)) = rw e (get_language_by_id-listed l listed)

-- A question of the list of languages, or without a language, whose time survives the conversion
-- to a text and back, comes back as it was from a server that answers with what it was sent, and
-- then stands under its id.
pub question_of_item-save_body :
    (dates : Dates) (q : Question) (item : QuestionBody) (t : ℕ) (state after : QuestionsState)
    → q.create_time ≡ some t
    → dates.new_date (dates.to_utc_string t) ≡ t
    → (q.language ≡ none) ⊎ ((l : Language) × (q.language ≡ some l) × Elem l language_list)
    → save_body dates q ≡ some item
    → questions_state_reducer state (save_answer dates item) ≡ some after
    → (question_of_item dates item ≡ q) × (lookup q.id after.questions ≡ some q)
unfolding question_of_item save_answer questions_state_reducer add_or_update_question
question_of_item-save_body dates q item t state after time exact listed sent done =
    let same =
      some-injective (item_of dates q t) item (sym (save_body-some dates q t time) ∙ sent) in
    let lang = listed_language q.language listed in
    let back : question_of_item dates item ≡ q = ground (arith, same, lang, time, exact) in
    (back, ground (arith, back, lookup-insert q.id q.id q state.questions))
