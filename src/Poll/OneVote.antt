-- ===== src/Poll/OneVote.antt =====
-- How often a run votes.
use token_dance_chat.Base.{
  ℕ, ◌+◌, ◌≤◌, ◌≡◌, refl, ap, ◌∙◌, true, false, List, [], ◌∷◌, ◌++◌, Option, none, some, Text,
  length, length-append, length-take, arith, All, if◌then◌else◌,
}
use token_dance_chat.Message.{PollData}
use token_dance_chat.Poll.{
  Ballot, fresh_ballot, PollEvent, clicks, votes, updates, picked, handle_option_click, finish_vote,
  handle_vote, can_vote, poll_step, ballots,
}

-- An event that leaves the poll one of a single choice.
abbrev pub KeepsSingle : PollEvent → Type 0
KeepsSingle (clicks i) = Unit
KeepsSingle (votes failure) = Unit
KeepsSingle (updates next) = next.multiple_choice ≡ false

-- At most one option is picked, and none after the vote; the poll has a single choice.
IsSingle : PollData × Ballot → Type 0
IsSingle (poll, b) = (poll.multiple_choice ≡ false) × (length b.selected_options ≤ 1)

-- The votes that may still be sent.
abbrev left : Ballot → ℕ
left b = if b.has_voted then 0 else 1

picked-single :
    (poll : PollData) (username : Option Text) (i : ℕ) (selected : List ℕ)
    → poll.multiple_choice ≡ false
    → length (picked poll username i selected) ≡ 1
unfolding picked
picked-single poll username i selected h = rw h refl

click-single :
    (poll : PollData) (username : Option Text) (i : ℕ) (b : Ballot)
    → poll.multiple_choice ≡ false
    → length b.selected_options ≤ 1
    → (length (handle_option_click poll username i b).selected_options ≤ 1)
      × ((handle_option_click poll username i b).has_voted ≡ b.has_voted)
unfolding handle_option_click
click-single poll username i b h l =
    let one = picked-single poll username i b.selected_options h in ground (arith, one, l)

vote-left :
    (failure : Option (ℕ × Text)) (b : Ballot)
    → b.has_voted ≡ false
    → length b.selected_options ≤ 1
    → (length (handle_vote failure b).0.selected_options ≤ 1)
      × (length (handle_vote failure b).1 + left (handle_vote failure b).0 ≤ 1)
unfolding handle_vote finish_vote
vote-left none b v l = ground (arith, v, l)
vote-left (some (n, message)) b v l = ground (arith, v, l, length-take n b.selected_options)

step_lem :
    (username : Option Text) (e : PollEvent) (s : PollData × Ballot)
    → KeepsSingle e
    → IsSingle s
    → IsSingle (poll_step username e s).0
      × (length (poll_step username e s).1 + left (poll_step username e s).0.1 ≤ left s.1)
unfolding poll_step can_vote IsSingle
step_lem username (clicks i) (poll, b) k (h, l) =
    let (one, same) = click-single poll username i b h l in ground (arith, h, l, one, same)
step_lem username (votes failure) (poll, b) k (h, l) =
    let vote = vote-left failure b in ground (arith, h, l, vote)
step_lem username (updates next) (poll, b) k (h, l) = ((k, l), omega arith)

run_lem :
    (username : Option Text) (es : List PollEvent) (s : PollData × Ballot)
    → All KeepsSingle es
    → IsSingle s
    → length (ballots username es s) ≤ left s.1
unfolding ballots
run_lem username [] s k h = omega arith
run_lem username (e ∷ es) s (k, ks) h =
    let (single, less) = step_lem username e s k h in
    let rest = run_lem username es (poll_step username e s).0 ks single in
    let more =
      length-append (poll_step username e s).1 (ballots username es (poll_step username e s).0) in
    omega (arith, less, rest, more)

-- In a poll with a single choice, a run of clicks, votes that fail or not and new versions of the
-- poll that leave it one with a single choice votes at most once, from a fresh component.
pub ballots-fresh_ballot :
    (username : Option Text) (poll : PollData) (es : List PollEvent)
    → poll.multiple_choice ≡ false
    → All KeepsSingle es
    → length (ballots username es (poll, fresh_ballot)) ≤ 1
unfolding IsSingle
ballots-fresh_ballot username poll es h k =
    run_lem username es (poll, fresh_ballot) k (h, omega arith)

voted_lem :
    (username : Option Text) (e : PollEvent) (s : PollData × Ballot)
    → s.1.has_voted ≡ true
    → ((poll_step username e s).0.1.has_voted ≡ true) × ((poll_step username e s).1 ≡ [])
unfolding poll_step can_vote handle_option_click
voted_lem username (clicks i) (poll, b) h = ground (arith, h)
voted_lem username (votes failure) (poll, b) h = ground (arith, h)
voted_lem username (updates next) (poll, b) h = (h, refl)

-- Once a vote went through, a run sends nothing more, also where several options can be picked and
-- the options can still be clicked: the button of the vote does not come back.
ballots-voted :
    (username : Option Text) (es : List PollEvent) (s : PollData × Ballot)
    → s.1.has_voted ≡ true
    → ballots username es s ≡ []
unfolding ballots
ballots-voted username [] s h = refl
ballots-voted username (e ∷ es) s h =
    let (still, nothing) = voted_lem username e s h in
    ap (λ r. r ++ ballots username es (poll_step username e s).0) nothing
    ∙ ballots-voted username es (poll_step username e s).0 still
