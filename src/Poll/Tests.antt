-- ===== src/Poll/Tests.antt =====
-- The theorem on the votes at a concrete run.
use token_dance_chat.Base.{◌≤◌, ◌≡◌, refl, false, List, [], ◌∷◌, none, some, lit, length}
use token_dance_chat.Message.{PollData}
use token_dance_chat.Poll.{
  PollEvent, clicks, votes, updates, fresh_ballot, picked, handle_option_click, finish_vote,
  handle_vote, can_click, can_vote, poll_step, ballots,
}
use token_dance_chat.Poll.OneVote.{ballots-fresh_ballot}

abbrev lunch : PollData
lunch = record {
  id = lit "p";
  room_id = lit "r";
  creator = lit "alice";
  question = lit "lunch?";
  options = lit "soup" ∷ lit "rice" ∷ [];
  multiple_choice = false;
  is_anonymous = false;
  is_closed = false;
  votes = [];
  voters = [];
  created_at = 0;
}

-- Another option is picked, a vote fails, the poll changes, and the vote is tried twice.
abbrev voting : List PollEvent
voting =
    clicks 0
    ∷ clicks 1
    ∷ votes (some (0, lit "lost"))
    ∷ updates (record lunch { votes = (0, 1) ∷ [] })
    ∷ votes none
    ∷ clicks 0
    ∷ votes none
    ∷ []

voting_lem : ballots (some (lit "bob")) voting (lunch, fresh_ballot) ≡ 1 ∷ []
unfolding ballots poll_step can_vote can_click handle_option_click picked handle_vote finish_vote
voting_lem = refl

ballots-fresh_ballot_example : length (ballots (some (lit "bob")) voting (lunch, fresh_ballot)) ≤ 1
ballots-fresh_ballot_example =
    ballots-fresh_ballot (some (lit "bob")) lunch voting refl
      (tt, (tt, (tt, (refl, (tt, (tt, (tt, tt)))))))
