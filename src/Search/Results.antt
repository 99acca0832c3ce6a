-- ===== src/Search/Results.antt =====
-- The results of a search.
use mathlib.Core.Option.{get_or}
use mathlib.Core.List.{append_assoc, append-nil}
use token_dance_chat.Base.{
  ℕ, ◌+◌, ◌<◌, ◌≡◌, refl, ap, ◌∙◌, sym, Bool, false, not, ◌&&◌, ◌||◌, List, [], ◌∷◌, ◌++◌, Text,
  ◌==◌, take, take_all, take-append_left, length, length-append, leb, arith, if◌then◌else◌,
  Bool-cases, inl, inr,
}
use token_dance_chat.Message.{ChatMessage}
use token_dance_chat.Store.Messages.{system}
use token_dance_chat.Composer.Suggest.{text_includes, filter}

abbrev pub max_results : ℕ
max_results = 20

module _ (trim to_lower : Text → Text) where
  unfoldable pub found : Text → ChatMessage → Bool
  found q m =
      not ((m.username == system) || get_or m.deleted false)
      && (text_includes q (to_lower m.content) || text_includes q (to_lower m.username))

  -- The loop, which stops at the twentieth match.
  unfoldable pub search_loop : Text → List ChatMessage → List ChatMessage → List ChatMessage
  search_loop q [] matched = matched
  search_loop q (m ∷ ms) matched =
      let more = matched ++ m ∷ [] in
      let stop = leb max_results (length more) in
      let rest = search_loop q ms more in
      let skip = search_loop q ms matched in if found q m then if stop then more else rest else skip

  unfoldable pub results : Text → List ChatMessage → List ChatMessage
  results query messages = if trim query == [] then [] else search_loop (to_lower query) messages []

  take-append-cons :
      (matched rest : List ChatMessage) (m : ChatMessage)
      → length matched + 1 ≡ max_results
      → take max_results (matched ++ m ∷ rest) ≡ matched ++ m ∷ []
  take-append-cons matched rest m h =
      let more = matched ++ m ∷ [] in
      let size : max_results ≡ length more = omega (arith, h, length-append matched (m ∷ [])) in
      ap (take max_results) (sym (append_assoc matched (m ∷ []) rest))
      ∙ ap (λ n. take n (more ++ rest)) size
      ∙ take-append_left more rest

  search_loop_lem :
      (q : Text) (ms matched : List ChatMessage)
      → length matched < max_results
      → search_loop q ms matched ≡ take max_results (matched ++ filter (found q) ms)
  unfolding search_loop filter
  search_loop_lem q [] matched h =
      sym (
        ap (take max_results) (append-nil matched)
        ∙ take_all max_results matched (omega (arith, h)))
  search_loop_lem q (m ∷ ms) matched h = elim (Bool-cases (found q m)) [
    | inr miss ↦ rw miss (search_loop_lem q ms matched h)
    | inl hit ↦
        let more = matched ++ m ∷ [] in
        let size = length-append matched (m ∷ []) in
        let rest = filter (found q) ms in
        elim (Bool-cases (leb max_results (length more))) [
          | inl full ↦
              rw (hit, full) (sym (take-append-cons matched rest m (ground (arith, full, size))))
          | inr short ↦
              rw (hit, short)
                (search_loop_lem q ms more (ground (arith, short))
                  ∙ ap (take max_results) (append_assoc matched (m ∷ []) rest))
        ]
  ]

  -- The results are the first twenty messages that match, in their order: those that are neither
  -- deleted nor of the system and that contain the text in their content or in the name of their
  -- author, upper and lower case being alike; a blank text has none.
  results_lem :
      (query : Text) (messages : List ChatMessage)
      → results query messages ≡ (
          if trim query == []
          then []
          else take max_results (filter (found (to_lower query)) messages))
  unfolding results
  results_lem query messages = elim (Bool-cases (trim query == [])) [
    | inl blank ↦ rw blank refl
    | inr given ↦ rw given (search_loop_lem (to_lower query) messages [] (omega arith))
  ]
