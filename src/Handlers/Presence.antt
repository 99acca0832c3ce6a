-- ===== src/Handlers/Presence.antt =====
-- The handler of `user_status`: who has come online, and the profiles that come with it. `now` is
-- `Date.now()`; the id and the text of the line about a user are given by functions. The sound is
-- not modelled.
use mathlib.Core.Option.{get_or}
use token_dance_chat.Base.{
  ℕ, ◌≡◌, refl, ap, ◌∙◌, Bool, true, false, not, ◌&&◌, ◌||◌, List, [], ◌∷◌, Option, none, some,
  Text, Dict, ◌==◌, ==_refl, lookup, insert, lookup-insert, includes, Distinct, All, arith,
  if◌then◌else◌,
}
use token_dance_chat.Message.{UserStatus}
use token_dance_chat.Store.{ChatState}
use token_dance_chat.Store.Messages.{add_system_message}
use token_dance_chat.Store.People.{set_user_status_list, set_user_profile}

-- Known to be offline before, and online now.
unfoldable pub came_online : Option Bool → Bool → Bool
came_online none online = false
came_online (some was) online = not was && online

abbrev pub is_set : Option Text → Bool
is_set none = false
is_set (some t) = not (t == [])

unfoldable pub set_profile : UserStatus → ChatState → ChatState
set_profile u s =
    if is_set u.display_name || is_set u.avatar_url || is_set u.status
    then set_user_profile
        (record {
          username = u.username;
          display_name = get_or u.display_name [];
          avatar_url = get_or u.avatar_url [];
          bio = [];
          status = get_or u.status [];
          last_seen = u.last_seen;
          created_at = 0;
        })
        s
    else s

unfoldable pub set_profiles : List UserStatus → ChatState → ChatState
set_profiles [] s = s
set_profiles (u ∷ us) s = set_profiles us (set_profile u s)

-- `newMap[user.username] = user.online`, for each in turn.
unfoldable pub status_map : List UserStatus → Dict Bool → Dict Bool
status_map [] d = d
status_map (u ∷ us) d = status_map us (insert u.username u.online d)

module _ (id_of line_of : Text → Text) (now : ℕ) where
  unfoldable pub announce : Dict Bool → List UserStatus → ChatState → ChatState
  announce prev [] s = s
  announce prev (u ∷ us) s =
      let said = add_system_message (id_of u.username) (line_of u.username) now none s in
      announce prev us (if came_online (lookup u.username prev) u.online then said else s)

  -- The map of the last event, and the store. The first event announces nobody, nor does one
  -- without users.
  unfoldable pub on_user_status : List UserStatus → Dict Bool × ChatState → Dict Bool × ChatState
  on_user_status [] (prev, s) = (prev, s)
  on_user_status (u ∷ us) (prev, s) =
      let users = u ∷ us in
      (status_map users [], set_profiles users (set_user_status_list users (announce prev users s)))

abbrev pub names : List UserStatus → List Text
names [] = []
names (u ∷ us) = u.username ∷ names us

status_map-other :
    (us : List UserStatus) (d : Dict Bool) (k : Text)
    → includes (names us) k ≡ false
    → lookup k (status_map us d) ≡ lookup k d
unfolding status_map includes
status_map-other [] d k n = refl
status_map-other (u ∷ us) d k n = ground (
  arith,
  n,
  status_map-other us (insert u.username u.online d) k,
  lookup-insert u.username k u.online d,
)

set_profiles-messages :
    (us : List UserStatus) (s : ChatState) → (set_profiles us s).messages ≡ s.messages
unfolding set_profiles set_profile set_user_profile
set_profiles-messages [] s = refl
set_profiles-messages (u ∷ us) s = ground (arith, set_profiles-messages us (set_profile u s))

-- Nobody of these was offline by the map.
abbrev Quiet : Dict Bool → List UserStatus → Type 0
Quiet prev = All (λ u. came_online (lookup u.username prev) u.online ≡ false)

later-quiet : (b : Bool) → came_online (some b) b ≡ false
unfolding came_online
later-quiet true = refl
later-quiet false = refl

status_map-Quiet :
    (us : List UserStatus) (d : Dict Bool) → Distinct (names us) → Quiet (status_map us d) us
unfolding status_map lookup
status_map-Quiet [] d h = tt
status_map-Quiet (u ∷ us) d (n, h) =
    let e = insert u.username u.online d in
    let known : lookup u.username (status_map us e) ≡ some u.online =
      status_map-other us e u.username n
      ∙ ground (arith, lookup-insert u.username u.username u.online d, ==_refl u.username) in
    (ap (λ o. came_online o u.online) known ∙ later-quiet u.online, status_map-Quiet us e h)

module _ (id_of line_of : Text → Text) (now : ℕ) where
  announce-Quiet :
      (prev : Dict Bool) (us : List UserStatus) (s : ChatState)
      → Quiet prev us
      → announce id_of line_of now prev us s ≡ s
  unfolding announce
  announce-Quiet prev [] s h = refl
  announce-Quiet prev (u ∷ us) s (q, h) = rw q (announce-Quiet prev us s h)

  -- A list of statuses that comes a second time announces nobody: the messages stay as the first
  -- one left them, if no user stands twice in the list.
  pub on_user_status_again :
      (users : List UserStatus) (p : Dict Bool × ChatState)
      → Distinct (names users)
      → let first = on_user_status id_of line_of now users p in
        (on_user_status id_of line_of now users first).1.messages ≡ first.1.messages
  unfolding on_user_status set_user_status_list
  on_user_status_again [] (prev, s) h = refl
  on_user_status_again (u ∷ us) (prev, s) h =
      let users = u ∷ us in
      let known = status_map users [] in
      let said = announce id_of line_of now prev users s in
      let t = set_profiles users (set_user_status_list users said) in
      let quiet = announce-Quiet known users t (status_map-Quiet users [] h) in
      set_profiles-messages users
        (set_user_status_list users (announce id_of line_of now known users t))
      ∙ ap (λ (x : ChatState). x.messages) quiet
