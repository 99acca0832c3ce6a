-- ===== src/Store/SystemLines.antt =====
-- `addSystemMessage`: how the lines of one source are kept in one place.
use token_dance_chat.Base.{
  ℕ, ◌&&◌, ◌-◌, ◌≡◌, refl, ◌∙◌, ap, Bool, true, false, List, [], ◌∷◌, ◌++◌, some, Text, ◌==◌,
  ==_refl, arith, length, length-append, take, if◌then◌else◌,
}
use token_dance_chat.Message.{ChatMessage}
use token_dance_chat.Store.{ChatState}
use token_dance_chat.Store.Messages.{
  system, same_key, last_message, replace_last, add_after, add_system_message,
}

-- A line as the source hands it over: the id it would get, its text and its time.
pub record Line : Type 0 where
  pub id : Text
  pub content : Text
  pub timestamp : ℕ

unfoldable pub add_lines : Text → List Line → ChatState → ChatState
add_lines key [] s = s
add_lines key (l ∷ lines) s =
    add_lines key lines (add_system_message l.id l.content l.timestamp (some key) s)

last-append : (ms : List ChatMessage) (m : ChatMessage) → last_message (ms ++ m ∷ []) ≡ some m
unfolding last_message
last-append [] m = refl
last-append (x ∷ []) m = refl
last-append (x ∷ y ∷ ms) m = last-append (y ∷ ms) m

take-all :
    (front : List ChatMessage) (m : ChatMessage) → take (length front) (front ++ m ∷ []) ≡ front
take-all [] m = refl
take-all (x ∷ front) m = ap (◌∷◌ x) (take-all front m)

take-front :
    (front : List ChatMessage) (m : ChatMessage)
    → take (length (front ++ m ∷ []) - 1) (front ++ m ∷ []) ≡ front
take-front front m =
    let n : length (front ++ m ∷ []) - 1 ≡ length front =
      omega (arith, length-append front (m ∷ [])) in
    rw n (take-all front m)

same_key_self : (key : Text) → (key == []) ≡ false → same_key (some key) (some key) ≡ true
unfolding same_key
same_key_self key h = rw (h, ==_refl key) refl

-- The last of the lines, the first being `l`.
unfoldable pub last_line : Line → List Line → Line
last_line l [] = l
last_line l (l' ∷ lines) = last_line l' lines

abbrev with_line : Line → ChatMessage → ChatMessage
with_line l m = record m { content = l.content; timestamp = l.timestamp }

chosen : (b : Bool) (x y : ChatState) → b ≡ true → (if b then x else y).messages ≡ x.messages
chosen b x y e = rw e refl

add-again_if :
    (key : Text) (l : Line) (last : ChatMessage) (s : ChatState)
    → (key == []) ≡ false
    → last.username ≡ system
    → last.dedupe_key ≡ some key
    → (add_after (some last) l.id l.content l.timestamp (some key) s).messages
      ≡ take (length s.messages - 1) s.messages ++ with_line l last ∷ []
unfolding add_after
add-again_if key l last s h u k =
    let by_system : (last.username == system) ≡ true = ap (λ n. n == system) u ∙ ==_refl system in
    let keyed = ap (same_key (some key)) k ∙ same_key_self key h in
    chosen ((last.username == system) && same_key (some key) last.dedupe_key)
      (replace_last (with_line l last) s) _ (rw (by_system, keyed) refl)

add-again :
    (key : Text) (l : Line) (front : List ChatMessage) (last : ChatMessage) (s : ChatState)
    → (key == []) ≡ false
    → s.messages ≡ front ++ last ∷ []
    → last.username ≡ system
    → last.dedupe_key ≡ some key
    → (add_system_message l.id l.content l.timestamp (some key) s).messages
      ≡ front ++ with_line l last ∷ []
unfolding add_system_message
add-again key l front last s h e u k =
    ap (λ ms. (add_after (last_message ms) l.id l.content l.timestamp (some key) s).messages) e
    ∙ ap (λ o. (add_after o l.id l.content l.timestamp (some key) s).messages)
        (last-append front last)
    ∙ add-again_if key l last s h u k
    ∙ ap (λ ms. take (length ms - 1) ms ++ with_line l last ∷ []) e
    ∙ ap (λ ms. ms ++ with_line l last ∷ []) (take-front front last)

-- While the last line is a line of the system with the key of the lines that come in, the window
-- keeps its length: the lines all go into that one entry, which keeps its place, its id and its
-- key and shows the text and the time of the last of them. (The key is not empty.)
pub add_lines_lem :
    (key : Text) (l : Line) (lines : List Line) (front : List ChatMessage) (last : ChatMessage)
    (s : ChatState)
    → (key == []) ≡ false
    → s.messages ≡ front ++ last ∷ []
    → last.username ≡ system
    → last.dedupe_key ≡ some key
    → (add_lines key (l ∷ lines) s).messages
      ≡ front
        ++ record last {
          content = (last_line l lines).content;
          timestamp = (last_line l lines).timestamp;
        }
          ∷ []
unfolding add_lines last_line
add_lines_lem key l [] front last s h e u k = add-again key l front last s h e u k
add_lines_lem key l (l' ∷ lines) front last s h e u k =
    add_lines_lem key l' lines front (with_line l last)
      (add_system_message l.id l.content l.timestamp (some key) s) h
      (add-again key l front last s h e u k) u k
