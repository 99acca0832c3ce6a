-- ===== src/Transcript/Divider.antt =====
-- The place of the "New messages" divider.
use token_dance_chat.Base.{
  ℕ, zero, suc, ◌≤◌, ◌<◌, ◌≡◌, refl, List, [], ◌∷◌, Option, none, some, get_elem?, take, ltb, arith,
  All, if◌then◌else◌, Bool-cases, inl, inr,
}
use mathlib.Core.Option
use token_dance_chat.Transcript.Groups.{MessageGroup, user_group, system_group}

-- The time of a group's first message; a group that is empty has none, and none is built.
abbrev pub group_time : MessageGroup → ℕ
group_time (system_group m) = m.timestamp
group_time (user_group name own []) = 0
group_time (user_group name own (m ∷ ms)) = m.timestamp

unfoldable pub find_divider : ℕ → List MessageGroup → Option ℕ
find_divider last_read [] = none
find_divider last_read (g ∷ gs) =
    let rest = find_divider last_read gs in
    if ltb last_read (group_time g) then some 0 else Option.map suc rest

-- `newMessagesDividerIndex`, with `none` for -1; a time that is absent or 0 is no time.
unfoldable pub new_messages_divider_index : Option ℕ → List MessageGroup → Option ℕ
new_messages_divider_index none groups = none
new_messages_divider_index (some zero) groups = none
new_messages_divider_index (some (suc t)) groups = find_divider (suc t) groups

-- Every group was read by that time.
abbrev pub AllRead : ℕ → List MessageGroup → Type 0
AllRead last_read = All (λ g. group_time g ≤ last_read)

-- What the index promises: the groups before it were read, the group at it was not.
abbrev pub Divides : ℕ → List MessageGroup → Option ℕ → Type 0
Divides last_read groups none = AllRead last_read groups
Divides last_read groups (some i) =
    AllRead last_read (take i groups)
    × ((g : MessageGroup) × (get_elem? groups i ≡ some g) × (last_read < group_time g))

Divides-later :
    (last_read : ℕ) (g : MessageGroup) (gs : List MessageGroup) (o : Option ℕ)
    → group_time g ≤ last_read
    → Divides last_read gs o
    → Divides last_read (g ∷ gs) (Option.map suc o)
Divides-later last_read g gs none h d = (h, d)
Divides-later last_read g gs (some i) h (read, rest) = ((h, read), rest)

find_divider-Divides :
    (last_read : ℕ) (gs : List MessageGroup) → Divides last_read gs (find_divider last_read gs)
unfolding find_divider
find_divider-Divides last_read [] = tt
find_divider-Divides last_read (g ∷ gs) = elim (Bool-cases (ltb last_read (group_time g))) [
  | inl new ↦ rw new (tt, (g, refl, ground arith))
  | inr old ↦ rw old (
      Divides-later last_read g gs (find_divider last_read gs) (ground arith)
        (find_divider-Divides last_read gs))
]

-- With a time of last reading, the divider stands before the first group that is newer: every group
-- before it was read, the group behind it was not; and without a divider every group was read.
pub new_messages_divider_index-Divides :
    (t : ℕ) (groups : List MessageGroup)
    → Divides (suc t) groups (new_messages_divider_index (some (suc t)) groups)
unfolding new_messages_divider_index
new_messages_divider_index-Divides t groups = find_divider-Divides (suc t) groups
