-- ===== src/Search/Tests.antt =====
-- The search in concrete messages.
use token_dance_chat.Base.{◌≡◌, refl, List, [], ◌∷◌, Text, lit, text_dec, starts_with}
use token_dance_chat.Message.{ChatMessage, chat_message}
use token_dance_chat.Composer.Suggest.{text_includes}
use token_dance_chat.Search.Results.{search_loop, found, results}

-- Texts without blanks at their ends and in lower case.
abbrev same_text : Text → Text
same_text t = t

abbrev shown : List ChatMessage
shown =
    chat_message (lit "1") (lit "alice") (lit "hi") 1000
    ∷ chat_message (lit "2") (lit "bob") (lit "hello") 2000
    ∷ []

results_hello :
    results same_text same_text (lit "hel") shown
    ≡ chat_message (lit "2") (lit "bob") (lit "hello") 2000 ∷ []
unfolding results text_dec search_loop found text_includes starts_with
results_hello = refl
