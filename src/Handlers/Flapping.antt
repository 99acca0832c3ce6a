-- ===== src/Handlers/Flapping.antt =====
-- A connection that comes and goes.
use token_dance_chat.Base.{◌≡◌, refl, Bool, true, false, List, [], ◌∷◌, ◌++◌, some, text_dec, ◌==◌}
use token_dance_chat.Message.{ChatMessage}
use token_dance_chat.Store.{ChatState}
use token_dance_chat.Store.Messages.{system}
use token_dance_chat.Store.People.{set_connected}
use token_dance_chat.Store.SystemLines.{Line, add_lines, last_line, add_lines_lem}
use token_dance_chat.Handlers.Roster.{reconnect_key, on_reconnecting, on_reconnected}

-- The events in turn, `true` for `reconnected`, each with its line.
unfoldable pub on_flaps : List (Bool × Line) → ChatState → ChatState
on_flaps [] s = s
on_flaps ((true, l) ∷ es) s = on_flaps es (on_reconnected l.id l.content l.timestamp s)
on_flaps ((false, l) ∷ es) s = on_flaps es (on_reconnecting l.id l.content l.timestamp s)

key_given : (reconnect_key == []) ≡ false
unfolding text_dec
key_given = refl

flap :
    (connected : Bool) (l : Line) (front : List ChatMessage) (last : ChatMessage) (s : ChatState)
    → s.messages ≡ front ++ last ∷ []
    → last.username ≡ system
    → last.dedupe_key ≡ some reconnect_key
    → (add_lines reconnect_key (l ∷ []) (set_connected connected s)).messages
      ≡ front ++ record last { content = l.content; timestamp = l.timestamp } ∷ []
unfolding set_connected last_line
flap connected l front last s e u k =
    add_lines_lem reconnect_key l [] front last (set_connected connected s) key_given e u k

-- While the last entry of the window is a line about the connection, the connection may come and go
-- any number of times: the window keeps its length and its other entries, and ends with one such
-- line that keeps its id and its key.
pub on_flaps_lem :
    (es : List (Bool × Line)) (front : List ChatMessage) (last : ChatMessage) (s : ChatState)
    → s.messages ≡ front ++ last ∷ []
    → last.username ≡ system
    → last.dedupe_key ≡ some reconnect_key
    → (m : ChatMessage) × ((on_flaps es s).messages ≡ front ++ m ∷ [])
      × (m.id ≡ last.id)
      × (m.dedupe_key ≡ some reconnect_key)
unfolding on_flaps on_reconnected on_reconnecting
on_flaps_lem [] front last s e u k = (last, e, refl, k)
on_flaps_lem ((true, l) ∷ es) front last s e u k =
    on_flaps_lem es front (record last { content = l.content; timestamp = l.timestamp })
      (on_reconnected l.id l.content l.timestamp s)
      (unfold add_lines in flap true l front last s e u k) u k
on_flaps_lem ((false, l) ∷ es) front last s e u k =
    on_flaps_lem es front (record last { content = l.content; timestamp = l.timestamp })
      (on_reconnecting l.id l.content l.timestamp s)
      (unfold add_lines in flap false l front last s e u k) u k
