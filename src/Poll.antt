-- ===== src/Poll.antt =====
-- frontend/src/components/PollMessage.tsx: the options of a poll that are picked, and the vote.
mod OneVote
mod Tests
use token_dance_chat.Base.{
  ℕ, Bool, true, false, not, ◌&&◌, ◌||◌, List, [], ◌∷◌, ◌++◌, map, Option, none, some, Text, eqb,
  ltb, length, take, includes, if◌then◌else◌,
}
use token_dance_chat.Message.{PollData}

-- The state of the component; `selected_options` is a set in the order of insertion.
pub record Ballot : Type 0 where
  pub selected_options : List ℕ
  pub has_voted : Bool
  pub error : Option Text

abbrev pub fresh_ballot : Ballot
fresh_ballot = record { selected_options = []; has_voted = false; error = none }

unfoldable pub has_index : List ℕ → ℕ → Bool
has_index [] i = false
has_index (j ∷ js) i = eqb j i || has_index js i

unfoldable pub delete_index : ℕ → List ℕ → List ℕ
delete_index i [] = []
delete_index i (j ∷ js) = let rest = delete_index i js in if eqb j i then rest else j ∷ rest

unfoldable pub voted_among : List (ℕ × List Text) → Text → List ℕ
voted_among [] username = []
voted_among ((i, names) ∷ voters) username =
    let rest = voted_among voters username in if includes names username then i ∷ rest else rest

-- Without a user's name nothing was voted for.
unfoldable pub user_voted_indices : PollData → Option Text → List ℕ
user_voted_indices poll none = []
user_voted_indices poll (some username) = voted_among poll.voters username

-- What is picked after a click.
unfoldable pub picked : PollData → Option Text → ℕ → List ℕ → List ℕ
picked poll username i selected =
    if poll.multiple_choice
    then (if has_index (user_voted_indices poll username) i || has_index selected i
        then delete_index i selected
        else selected ++ (i ∷ []))
    else i ∷ []

unfoldable pub handle_option_click : PollData → Option Text → ℕ → Ballot → Ballot
handle_option_click poll username i b =
    if poll.is_closed
    then b
    else record b { selected_options = picked poll username i b.selected_options }

-- The vote: `failure` is the number of options sent before one that throws, and what it throws. The
-- list is of the options given to `chatAPI.sendPollVote`, in order.
unfoldable pub finish_vote : Option (ℕ × Text) → Ballot → Ballot × List ℕ
finish_vote none b =
    (record b { selected_options = []; has_voted = true; error = none }, b.selected_options)
finish_vote (some (n, message)) b =
    if ltb n (length b.selected_options)
    then (record b { error = some message }, take n b.selected_options)
    else (record b { selected_options = []; has_voted = true; error = none }, b.selected_options)

-- With nothing picked nothing happens, and the error before stays.
unfoldable pub handle_vote : Option (ℕ × Text) → Ballot → Ballot × List ℕ
handle_vote failure b = if ltb 0 (length b.selected_options) then finish_vote failure b else (b, [])

-- The buttons, and a poll that the store has in another version. Each event finds what is rendered
-- after the one before.
pub data PollEvent : Type 0 where
  clicks : ℕ → PollEvent
  votes : Option (ℕ × Text) → PollEvent
  updates : PollData → PollEvent

-- The buttons of the options are disabled in a closed poll, and after a vote where one can be
-- picked; the button of the vote is shown while the poll is open, nothing was voted and something
-- is picked.
unfoldable pub can_click : PollData → Ballot → Bool
can_click poll b = not (poll.is_closed || (b.has_voted && not poll.multiple_choice))

unfoldable pub can_vote : PollData → Ballot → Bool
can_vote poll b = not poll.is_closed && (not b.has_voted && ltb 0 (length b.selected_options))

unfoldable pub poll_step :
    Option Text → PollEvent → PollData × Ballot → (PollData × Ballot) × List ℕ
poll_step username (clicks i) (poll, b) =
    ((poll, if can_click poll b then handle_option_click poll username i b else b), [])
poll_step username (votes failure) (poll, b) =
    let voted = handle_vote failure b in
    if can_vote poll b then ((poll, voted.0), voted.1) else ((poll, b), [])
poll_step username (updates next) (poll, b) = ((next, b), [])

-- The options that a run votes for, in order.
unfoldable pub ballots : Option Text → List PollEvent → PollData × Ballot → List ℕ
ballots username [] s = []
ballots username (e ∷ es) s =
    let next = poll_step username e s in next.1 ++ ballots username es next.0
