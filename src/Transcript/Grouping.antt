-- ===== src/Transcript/Grouping.antt =====
-- The contract of `buildMessageGroups`.
use mathlib.Core.Option.{get_or}
use mathlib.Core.List.{append_assoc, append-nil}
use token_dance_chat.Base.{
  ◌+◌, ◌<◌, ◌≡◌, ◌≢◌, ==_refl, refl, sym, subst, ap, ◌∙◌, true, false, List, [], ◌∷◌, ◌++◌, some,
  Text, ◌==◌, arith, All, All-append, Bool-cases, inl, inr,
}
use token_dance_chat.Message.{ChatMessage}
use token_dance_chat.Store.Messages.{system, last_message}
use token_dance_chat.Transcript.Groups.{
  MessageGroup, user_group, system_group, is_recent, takes, push_to, fresh_group, add_user_message,
  group_one, group_all, build_message_groups,
}

abbrev pub messages_of : MessageGroup → List ChatMessage
messages_of (user_group name own ms) = ms
messages_of (system_group m) = m ∷ []

abbrev pub flatten : List MessageGroup → List ChatMessage
flatten [] = []
flatten (g ∷ gs) = messages_of g ++ flatten gs

-- The message follows the one before it in a group: it is not deleted and comes less than two
-- minutes later, or earlier.
abbrev pub Follows : ChatMessage → ChatMessage → Type 0
Follows prev m = (get_or m.deleted false ≡ false) × (m.timestamp < prev.timestamp + 120000)

-- Not empty, and each message follows the one before it.
abbrev pub Chained : List ChatMessage → Type 0
Chained [] = ⊥
Chained (m ∷ []) = Unit
Chained (m ∷ m' ∷ ms) = Follows m m' × Chained (m' ∷ ms)

abbrev pub IsGroup : Text → MessageGroup → Type 0
IsGroup current_username (system_group m) = (m.username == system) ≡ true
IsGroup current_username (user_group name own ms) =
    (own ≡ (name == current_username))
    × ((name == system) ≡ false)
    × All (λ m. (name == m.username) ≡ true) ms
    × Chained ms

-- The second group could not go on in the first: it begins with a message of another user, or one
-- that does not follow the last one of the first group.
abbrev pub CannotTake : MessageGroup → ChatMessage → Type 0
CannotTake (system_group s) m = Unit
CannotTake (user_group name own ms) m =
    (front : List ChatMessage) (last : ChatMessage)
    → ms ≡ front ++ last ∷ []
    → name ≡ m.username
    → ¬ Follows last m

abbrev pub PartedBy : MessageGroup → MessageGroup → Type 0
PartedBy g (system_group m) = Unit
PartedBy g (user_group name own []) = Unit
PartedBy g (user_group name own (m ∷ ms)) = CannotTake g m

abbrev pub Parted : List MessageGroup → Type 0
Parted [] = Unit
Parted (g ∷ []) = Unit
Parted (g ∷ g' ∷ gs) = PartedBy g g' × Parted (g' ∷ gs)

-- The same of the first of a list of groups.
abbrev PartedFrom : MessageGroup → List MessageGroup → Type 0
PartedFrom g [] = Unit
PartedFrom g (h ∷ hs) = PartedBy g h

Parted-cons :
    (g : MessageGroup) (hs : List MessageGroup) → PartedFrom g hs → Parted hs → Parted (g ∷ hs)
Parted-cons g [] q p = tt
Parted-cons g (h ∷ hs) q p = (q, p)

push_to-heads :
    (u : Text) (g : MessageGroup) (msg : ChatMessage)
    → IsGroup u g
    → (k : MessageGroup) → PartedBy k g
    → PartedBy k (push_to msg g)
push_to-heads u (system_group m) msg a k q = q
push_to-heads u (user_group name own []) msg (_, _, _, c) k q = elim c [ ]
push_to-heads u (user_group name own (m ∷ ms)) msg a k q = q

-- The groups spell the messages, each is a group, and none could have been longer.
pub record IsGrouping (messages : List ChatMessage) (current_username : Text)
    (groups : List MessageGroup) : Type 0 where
  pub spells : flatten groups ≡ messages
  pub grouped : All (IsGroup current_username) groups
  pub parted : Parted groups

flatten-append : (gs hs : List MessageGroup) → flatten (gs ++ hs) ≡ flatten gs ++ flatten hs
flatten-append [] hs = refl
flatten-append (g ∷ gs) hs =
    ap (λ x. messages_of g ++ x) (flatten-append gs hs)
    ∙ sym (append_assoc (messages_of g) (flatten gs) (flatten hs))

last_message-append :
    (front : List ChatMessage) (last : ChatMessage) → last_message (front ++ last ∷ []) ≡ some last
unfolding last_message
last_message-append [] last = refl
last_message-append (m ∷ []) last = refl
last_message-append (m ∷ m' ∷ front) last = last_message-append (m' ∷ front) last

-- A group that does not take a message is parted from the group that it begins.
takes-PartedBy :
    (u : Text) (g : MessageGroup) (msg : ChatMessage)
    → takes g msg ≡ false
    → PartedBy g (fresh_group u msg)
unfolding takes
takes-PartedBy u (system_group m) msg t = tt
takes-PartedBy u (user_group name own ms) msg t = λ front last spells same (kept, recent).
    let end = ap last_message spells ∙ last_message-append front last in
    let named : (name == msg.username) ≡ true = rw same (==_refl msg.username) in
    let near : is_recent (last_message ms) msg ≡ true = rw end (ground (arith, recent)) in
    ground (arith, t, kept, named, near)

Chained-push :
    (ms : List ChatMessage) (msg : ChatMessage)
    → Chained ms
    → get_or msg.deleted false ≡ false
    → is_recent (last_message ms) msg ≡ true
    → Chained (ms ++ msg ∷ [])
unfolding last_message
Chained-push [] msg c d r = tt
Chained-push (m ∷ []) msg c d r = ((d, ground (arith, r)), tt)
Chained-push (m ∷ m' ∷ ms) msg (f, c) d r = (f, Chained-push (m' ∷ ms) msg c d r)

push_to-IsGroup :
    (u : Text) (g : MessageGroup) (msg : ChatMessage)
    → takes g msg ≡ true
    → IsGroup u g
    → IsGroup u (push_to msg g) × (messages_of (push_to msg g) ≡ messages_of g ++ msg ∷ [])
unfolding takes
push_to-IsGroup u (system_group m) msg t h = absurd (ground arith)
push_to-IsGroup u (user_group name own ms) msg t (o, s, names, c) =
    let same : (name == msg.username) ≡ true = ground arith in
    let kept : get_or msg.deleted false ≡ false = ground arith in
    let recent : is_recent (last_message ms) msg ≡ true = ground arith in
    ((o, s, All-append _ ms (msg ∷ []) names (same, tt), Chained-push ms msg c kept recent), refl)

fresh_group-IsGroup :
    (u : Text) (msg : ChatMessage)
    → (msg.username == system) ≡ false
    → IsGroup u (fresh_group u msg)
fresh_group-IsGroup u msg h = (refl, h, (==_refl msg.username, tt), tt)

-- What adding a message that is not the system's does to groups that are in order.
record Added (u : Text) (msg : ChatMessage) (gs hs : List MessageGroup) : Type 0 where
  pub spells : flatten hs ≡ flatten gs ++ msg ∷ []
  pub grouped : All (IsGroup u) hs
  pub parted : Parted hs
  pub heads : (g : MessageGroup) → PartedFrom g gs → PartedFrom g hs

add_user_message-Added :
    (u : Text) (msg : ChatMessage) (gs : List MessageGroup)
    → (msg.username == system) ≡ false
    → All (IsGroup u) gs
    → Parted gs
    → gs ≢ []
    → Added u msg gs (add_user_message u msg gs)
unfolding add_user_message
add_user_message-Added u msg [] n a p h = absurd (h refl)
add_user_message-Added u msg (g ∷ []) n (a, _) p h = elim (Bool-cases (takes g msg)) [
  | inl t ↦
      let (group, spells) = push_to-IsGroup u g msg t a in
      rw t (record {
        spells =
            append-nil (messages_of (push_to msg g))
            ∙ spells
            ∙ ap (λ x. x ++ msg ∷ []) (sym (append-nil (messages_of g)));
        grouped = (group, tt);
        parted = tt;
        heads = push_to-heads u g msg a;
      })
  | inr t ↦ rw t (record {
    spells = ap (λ x. x ++ msg ∷ []) (sym (append-nil (messages_of g)));
    grouped = (a, (fresh_group-IsGroup u msg n, tt));
    parted = (takes-PartedBy u g msg t, tt);
    heads = λ k q. q;
  })
]
add_user_message-Added u msg (g ∷ g' ∷ gs) n (a, rest_ok) (p, ps) h =
    let rest = add_user_message-Added u msg (g' ∷ gs) n rest_ok ps (λ e. cc) in
    record {
      spells =
          ap (λ x. messages_of g ++ x) rest.spells
          ∙ sym (append_assoc (messages_of g) (flatten (g' ∷ gs)) (msg ∷ []));
      grouped = (a, rest.grouped);
      parted = Parted-cons g (add_user_message u msg (g' ∷ gs)) (rest.heads g p) rest.parted;
      heads = λ k q. q;
    }

-- The groups so far, in order, spell the messages so far.
abbrev Built : Text → List ChatMessage → List MessageGroup → Type 0
Built u ms gs = IsGrouping ms u gs

Parted-append_system :
    (gs : List MessageGroup) (m : ChatMessage) → Parted gs → Parted (gs ++ system_group m ∷ [])
Parted-append_system [] m p = tt
Parted-append_system (g ∷ []) m p = (tt, tt)
Parted-append_system (g ∷ g' ∷ gs) m (q, p) = (q, Parted-append_system (g' ∷ gs) m p)

add_user_message-Built :
    (u : Text) (msg : ChatMessage) (ms : List ChatMessage) (gs : List MessageGroup)
    → (msg.username == system) ≡ false
    → Built u ms gs
    → Built u (ms ++ msg ∷ []) (add_user_message u msg gs)
add_user_message-Built u msg ms [] n b =
    unfold add_user_message in
    record {
      spells = ap (λ x. x ++ msg ∷ []) b.spells;
      grouped = (fresh_group-IsGroup u msg n, tt);
      parted = tt;
    }
add_user_message-Built u msg ms (g ∷ gs) n b =
    let added = add_user_message-Added u msg (g ∷ gs) n b.grouped b.parted (λ e. cc) in
    record {
      spells = added.spells ∙ ap (λ x. x ++ msg ∷ []) b.spells;
      grouped = added.grouped;
      parted = added.parted;
    }

group_one-Built :
    (u : Text) (msg : ChatMessage) (ms : List ChatMessage) (gs : List MessageGroup)
    → Built u ms gs
    → Built u (ms ++ msg ∷ []) (group_one u gs msg)
unfolding group_one
group_one-Built u msg ms gs b = elim (Bool-cases (msg.username == system)) [
  | inr other ↦ rw other (add_user_message-Built u msg ms gs other b)
  | inl by_system ↦ rw by_system (record {
    spells = flatten-append gs (system_group msg ∷ []) ∙ ap (λ x. x ++ msg ∷ []) b.spells;
    grouped = All-append _ gs (system_group msg ∷ []) b.grouped (by_system, tt);
    parted = Parted-append_system gs msg b.parted;
  })
]

group_all-Built :
    (u : Text) (msgs ms : List ChatMessage) (gs : List MessageGroup)
    → Built u ms gs
    → Built u (ms ++ msgs) (group_all u gs msgs)
unfolding group_all
group_all-Built u [] ms gs b = rw (append-nil ms) b
group_all-Built u (msg ∷ msgs) ms gs b =
    subst (λ x. Built u x (group_all u (group_one u gs msg) msgs)) (append_assoc ms (msg ∷ []) msgs)
      (group_all-Built u msgs (ms ++ msg ∷ []) (group_one u gs msg) (group_one-Built u msg ms gs b))

-- The groups spell the messages in their order, with none lost or repeated; each is one line of the
-- system, or a run of messages of one other user, not empty, in which no message but the first is
-- deleted and each comes within two minutes of the one before it, marked as the user's own exactly
-- under the user's name; and no group of a user begins with a message that could stand at the end of the group before: one of
-- the same user, not deleted, within two minutes of the last.
pub build_message_groups-IsGrouping :
    (messages : List ChatMessage) (current_username : Text)
    → IsGrouping messages current_username (build_message_groups messages current_username)
unfolding build_message_groups
build_message_groups-IsGrouping messages u =
    group_all-Built u messages [] [] (record { spells = refl; grouped = tt; parted = tt })
