-- ===== src/Composer/Suggest.antt =====
-- The suggestions for a mention.
use token_dance_chat.Base.{
  ◌-◌, ◌≤◌, ◌≡◌, ◌≢◌, refl, ap, ◌∙◌, ◌⊎◌, inl, inr, Bool, Bool-cases, true, false, not, ◌&&◌, ◌||◌,
  List, [], ◌∷◌, ◌++◌, map, Option, none, some, Text, lit, ◌==◌, starts_with, take, length,
  length-take, arith, Among, All, All-take, All-append, if◌then◌else◌,
}
use token_dance_chat.Assistants.{Assistant, mentionable_assistants}

-- `s.includes(part)` on strings, with the part first.
unfoldable pub text_includes : Text → Text → Bool
text_includes part [] = starts_with part []
text_includes part (c ∷ s) = starts_with part (c ∷ s) || text_includes part s

module _ {ℓ} {A : Type ℓ} where
  unfoldable pub filter : (A → Bool) → List A → List A
  filter p [] = []
  filter p (x ∷ xs) = let rest = filter p xs in if p x then x ∷ rest else rest

  unfoldable pub any : (A → Bool) → List A → Bool
  any p [] = false
  any p (x ∷ xs) = p x || any p xs

module _ {A : Type 0} where
  -- What holds of the elements that are let through holds of the filtered list.
  All-filter :
      (P : A → Type 0) (p : A → Bool) (xs : List A)
      → ((x : A) → Among x xs → p x ≡ true → P x)
      → All P (filter p xs)
  unfolding filter
  All-filter P p [] h = tt
  All-filter P p (x ∷ xs) h =
      let rest = All-filter P p xs (λ y a. h y (inr a)) in
      elim (Bool-cases (p x)) [
        | inl yes_ ↦ rw yes_ (h x (inl refl) yes_, rest)
        | inr no_ ↦ rw no_ rest
      ]

  All-map :
      {B : Type 0} (P : B → Type 0) (f : A → B) (xs : List A)
      → All (λ x. P (f x)) xs
      → All P (map f xs)
  All-map P f [] h = tt
  All-map P f (x ∷ xs) (h, hs) = (h, All-map P f xs hs)

  pub any_sound :
      (p : A → Bool) (xs : List A) → any p xs ≡ true → (x : A) × Among x xs × (p x ≡ true)
  unfolding any
  any_sound p [] h = cc
  any_sound p (x ∷ xs) h = elim (Bool-cases (p x)) [
    | inl here ↦ (x, inl refl, here)
    | inr there ↦
        let (y, among, holds) = any_sound p xs (ground (arith, h, there)) in (y, inr among, holds)
  ]

  any_none : (p : A → Bool) (xs : List A) (x : A) → any p xs ≡ false → Among x xs → p x ≡ false
  unfolding any
  any_none p [] x h a = elim a [ ]
  any_none p (y ∷ xs) x h (inl e) = let first : p y ≡ false = ground (arith, h) in ap p e ∙ first
  any_none p (y ∷ xs) x h (inr a) = any_none p xs x (ground (arith, h)) a

-- The text begins with the part, or has it somewhere.
abbrev pub BeginsWith : Text → Text → Type 0
BeginsWith part s = (back : Text) × (s ≡ part ++ back)

abbrev pub Contains : Text → Text → Type 0
Contains part s = (front : Text) × (back : Text) × (s ≡ front ++ (part ++ back))

starts_with_sound : (part s : Text) → starts_with part s ≡ true → BeginsWith part s
unfolding starts_with
starts_with_sound [] s h = (s, refl)
starts_with_sound (a ∷ part) [] h = cc
starts_with_sound (a ∷ part) (b ∷ s) h =
    let same : b ≡ a = ground (arith, h) in
    let (back, e) = starts_with_sound part s (ground (arith, h)) in
    (back, ap (λ x. x ∷ s) same ∙ ap (λ x. a ∷ x) e)

text_includes_sound : (part s : Text) → text_includes part s ≡ true → Contains part s
unfolding text_includes
text_includes_sound part [] h = let (back, e) = starts_with_sound part [] h in ([], back, e)
text_includes_sound part (c ∷ s) h = elim (Bool-cases (starts_with part (c ∷ s))) [
  | inl here ↦ let (back, e) = starts_with_sound part (c ∷ s) here in ([], back, e)
  | inr there ↦
      let (front, back, e) = text_includes_sound part s (ground (arith, h, there)) in
      (c ∷ front, back, ap (λ x. c ∷ x) e)
]

begins_lem : (lower t : Text) → (starts_with lower t || (lower == [])) ≡ true → BeginsWith lower t
begins_lem [] t h = (t, refl)
begins_lem (c ∷ cs) t h = starts_with_sound (c ∷ cs) t (ground (arith, h))

module _ (to_lower : Text → Text) where
  unfoldable pub matches_assistant : Text → Assistant → Bool
  matches_assistant lower a =
      (lower == []) || text_includes lower (to_lower a.name) || any (text_includes lower) a.aliases

  -- The users online that are no assistants and match.
  unfoldable pub matches_user : Text → Text → Bool
  matches_user lower user =
      not (any (λ a. a.name == user) mentionable_assistants) && text_includes lower (to_lower user)

  -- The first of the targets for everyone that matches, in front of the others.
  unfoldable pub add_target : List Text → Text → List Text → List Text
  add_target [] lower results = results
  add_target (target ∷ targets) lower results =
      let rest = add_target targets lower results in
      if starts_with lower target || (lower == []) then target ∷ results else rest

  abbrev pub all_targets : List Text
  all_targets = lit "all" ∷ lit "everyone" ∷ lit "here" ∷ []

  -- `none` is no mention before the cursor; `some` its query.
  unfoldable pub mention_filtered : Option Text → List Text → List Text
  mention_filtered none online_users = []
  mention_filtered (some query) online_users =
      let lower = to_lower query in
      let assistants =
        map (λ a. a.name) (filter (matches_assistant lower) mentionable_assistants) in
      let users = take (10 - length assistants) (filter (matches_user lower) online_users) in
      take 10 (add_target all_targets lower (assistants ++ users))

  -- What may be suggested for a query: a target for everyone that begins with it; an assistant whose
  -- name or one of whose aliases contains it; a user online who is no assistant, whose name does.
  abbrev pub IsTarget : Text → Text → Type 0
  IsTarget lower name = Among name all_targets × BeginsWith lower name

  abbrev pub IsAssistant : Text → Text → Type 0
  IsAssistant lower name =
      (a : Assistant) × Among a mentionable_assistants
      × (a.name ≡ name)
      × (Contains lower (to_lower a.name)
          ⊎ ((alias : Text) × Among alias a.aliases × Contains lower alias))

  abbrev pub IsUser : Text → List Text → Text → Type 0
  IsUser lower online_users name =
      Among name online_users
      × ((a : Assistant) → Among a mentionable_assistants → a.name ≢ name)
      × Contains lower (to_lower name)

  abbrev pub Suggested : Text → List Text → Text → Type 0
  Suggested lower online_users name =
      IsTarget lower name ⊎ (IsAssistant lower name ⊎ IsUser lower online_users name)

  matches_assistant_sound :
      (lower : Text) (a : Assistant)
      → matches_assistant lower a ≡ true
      → Contains lower (to_lower a.name)
        ⊎ ((alias : Text) × Among alias a.aliases × Contains lower alias)
  unfolding matches_assistant
  matches_assistant_sound [] a h = inl ([], to_lower a.name, refl)
  matches_assistant_sound (c ∷ cs) a h =
      elim (Bool-cases (text_includes (c ∷ cs) (to_lower a.name))) [
        | inl named ↦ inl (text_includes_sound (c ∷ cs) (to_lower a.name) named)
        | inr other ↦
            let (alias, among, holds) =
              any_sound (text_includes (c ∷ cs)) a.aliases (ground (arith, h, other)) in
            inr (alias, among, text_includes_sound (c ∷ cs) alias holds)
      ]

  matches_user_sound :
      (lower : Text) (online_users : List Text) (user : Text)
      → Among user online_users
      → matches_user lower user ≡ true
      → IsUser lower online_users user
  unfolding matches_user
  matches_user_sound lower online_users user among h =
      let p = λ (a : Assistant). a.name == user in
      let none_named : any p mentionable_assistants ≡ false = ground (arith, h) in
      (
        among,
        λ a listed same.
            let unlike = any_none p mentionable_assistants a none_named listed in
            ground (arith, unlike, same),
        text_includes_sound lower (to_lower user) (ground (arith, h)),
      )

  add_target-Suggested :
      (targets : List Text) (lower : Text) (online_users results : List Text)
      → All (λ t. Among t all_targets) targets
      → All (Suggested lower online_users) results
      → All (Suggested lower online_users) (add_target targets lower results)
  unfolding add_target
  add_target-Suggested [] lower online_users results m h = h
  add_target-Suggested (t ∷ ts) lower online_users results (m, ms) h =
      elim (Bool-cases (starts_with lower t || (lower == []))) [
        | inl fits ↦ rw fits (inl (m, begins_lem lower t fits), h)
        | inr other ↦ rw other (add_target-Suggested ts lower online_users results ms h)
      ]

  -- At most ten names are suggested, and each of them is a target for everyone that begins with the
  -- query, an assistant whose name or one of whose aliases contains it, or a user online who is no
  -- assistant and whose name does; the query and the names are compared in lower case.
  pub mention_filtered-Suggested :
      (query : Text) (online_users : List Text)
      → let names = mention_filtered (some query) online_users in
        (length names ≤ 10) × All (Suggested (to_lower query) online_users) names
  unfolding mention_filtered
  mention_filtered-Suggested query online_users =
      let lower = to_lower query in
      let P = Suggested lower online_users in
      let matching = filter (matches_assistant lower) mentionable_assistants in
      let assistants = map (λ a. a.name) matching in
      let users = filter (matches_user lower) online_users in
      let n = 10 - length assistants in
      let results = assistants ++ take n users in
      let fit : All (λ a. P a.name) matching =
        All-filter (λ a. P a.name) (matches_assistant lower) mentionable_assistants
          (λ a listed h. inr (inl (a, listed, refl, matches_assistant_sound lower a h))) in
      let online : All P users =
        All-filter P (matches_user lower) online_users
          (λ u among h. inr (inr (matches_user_sound lower online_users u among h))) in
      let found : All P results =
        All-append P assistants (take n users) (All-map P (λ a. a.name) matching fit)
          (All-take P n users online) in
      let targets : All (λ t. Among t all_targets) all_targets =
        (inl refl, (inr (inl refl), (inr (inr (inl refl)), tt))) in
      (
        omega (arith, length-take 10 (add_target all_targets lower results)),
        All-take P 10 (add_target all_targets lower results)
            (add_target-Suggested all_targets lower online_users results targets found),
      )
