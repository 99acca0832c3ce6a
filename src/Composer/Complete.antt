-- ===== src/Composer/Complete.antt =====
-- No name that fits is left out of the suggestions while there is room.
use token_dance_chat.Base.{
  ℕ, zero, suc, ◌-◌, ◌≤◌, ◌≡◌, refl, sym, subst, ap, ◌∙◌, ◌⊎◌, inl, inr, Bool, true, ◌||◌, List, [],
  ◌∷◌, ◌++◌, map, Text, ◌==◌, starts_with, take, length, length-append, length-take, arith, Among,
  All, some, Bool-cases,
}
use token_dance_chat.Assistants.{Assistant, mentionable_assistants}
use token_dance_chat.Composer.Suggest.{
  text_includes, filter, any, matches_assistant, matches_user, add_target, all_targets, any_sound,
  mention_filtered, Contains, IsAssistant, IsUser, Suggested, mention_filtered-Suggested,
}

starts_with-append : (part back : Text) → starts_with part (part ++ back) ≡ true
unfolding starts_with
starts_with-append [] back = refl
starts_with-append (c ∷ part) back = ground (arith, starts_with-append part back)

text_includes-start : (part s : Text) → starts_with part s ≡ true → text_includes part s ≡ true
unfolding text_includes
text_includes-start part [] h = h
text_includes-start part (c ∷ s) h = ground (arith, h)

text_includes-append :
    (part front back : Text) → text_includes part (front ++ (part ++ back)) ≡ true
unfolding text_includes
text_includes-append part [] back =
    text_includes-start part (part ++ back) (starts_with-append part back)
text_includes-append part (c ∷ front) back = ground (arith, text_includes-append part front back)

Contains-text_includes : (part s : Text) → Contains part s → text_includes part s ≡ true
Contains-text_includes part s (front, back, e) = rw e (text_includes-append part front back)

module _ {A : Type 0} where
  Among-any : (p : A → Bool) (xs : List A) (x : A) → Among x xs → p x ≡ true → any p xs ≡ true
  unfolding any
  Among-any p [] x a h = elim a [ ]
  Among-any p (y ∷ xs) x (inl e) h =
      let first : p y ≡ true = ap p (sym e) ∙ h in ground (arith, first)
  Among-any p (y ∷ xs) x (inr a) h = ground (arith, Among-any p xs x a h)

  Among-filter :
      (p : A → Bool) (xs : List A) (x : A) → Among x xs → p x ≡ true → Among x (filter p xs)
  unfolding filter
  Among-filter p [] x a h = elim a [ ]
  Among-filter p (y ∷ xs) x (inl e) h =
      let first : p y ≡ true = ap p (sym e) ∙ h in rw first (inl e)
  Among-filter p (y ∷ xs) x (inr a) h =
      let rest = Among-filter p xs x a h in
      elim (Bool-cases (p y)) [ inl there ↦ rw there (inr rest) | inr out ↦ rw out rest ]

  Among-map : {B : Type 0} (f : A → B) (xs : List A) (x : A) → Among x xs → Among (f x) (map f xs)
  Among-map f [] x a = elim a [ ]
  Among-map f (y ∷ xs) x (inl e) = inl (ap f e)
  Among-map f (y ∷ xs) x (inr a) = inr (Among-map f xs x a)

  Among-append_left : (xs ys : List A) (x : A) → Among x xs → Among x (xs ++ ys)
  Among-append_left [] ys x a = elim a [ ]
  Among-append_left (y ∷ xs) ys x (inl e) = inl e
  Among-append_left (y ∷ xs) ys x (inr a) = inr (Among-append_left xs ys x a)

  Among-append_right : (xs ys : List A) (x : A) → Among x ys → Among x (xs ++ ys)
  Among-append_right [] ys x a = a
  Among-append_right (y ∷ xs) ys x a = inr (Among-append_right xs ys x a)

  -- What is cut off is cut off for want of room.
  Among-take :
      (n : ℕ) (xs : List A) (x : A) → Among x xs → Among x (take n xs) ⊎ (length (take n xs) ≡ n)
  Among-take zero xs x a = inr refl
  Among-take (suc n) [] x a = elim a [ ]
  Among-take (suc n) (y ∷ xs) x (inl e) = inl (inl e)
  Among-take (suc n) (y ∷ xs) x (inr a) = elim (Among-take n xs x a) [
    | inl there ↦ inl (inr there)
    | inr full ↦ inr (ap suc full)
  ]

module _ (to_lower : Text → Text) where
  add_target-Among :
      (targets : List Text) (lower : Text) (results : List Text) (x : Text)
      → Among x results
      → Among x (add_target to_lower targets lower results)
  unfolding add_target
  add_target-Among [] lower results x a = a
  add_target-Among (t ∷ ts) lower results x a =
      let rest = add_target-Among ts lower results x a in
      elim (Bool-cases (starts_with lower t || (lower == []))) [
        | inl fits ↦ rw fits (inr a)
        | inr other ↦ rw other rest
      ]

  add_target-length :
      (targets : List Text) (lower : Text) (results : List Text)
      → length results ≤ length (add_target to_lower targets lower results)
  unfolding add_target
  add_target-length [] lower results = omega arith
  add_target-length (t ∷ ts) lower results = ground (arith, add_target-length ts lower results)

  IsAssistant-matches :
      (lower : Text) (a : Assistant)
      → Contains lower (to_lower a.name)
        ⊎ ((alias : Text) × Among alias a.aliases × Contains lower alias)
      → matches_assistant to_lower lower a ≡ true
  unfolding matches_assistant
  IsAssistant-matches lower a (inl c) =
      let named = Contains-text_includes lower (to_lower a.name) c in ground (arith, named)
  IsAssistant-matches lower a (inr (alias, among, c)) =
      let known =
        Among-any (text_includes lower) a.aliases alias among
          (Contains-text_includes lower alias c) in
      ground (arith, known)

  IsUser-matches :
      (lower : Text) (online_users : List Text) (user : Text)
      → IsUser to_lower lower online_users user
      → matches_user to_lower lower user ≡ true
  unfolding matches_user
  IsUser-matches lower online_users user (among, other, c) =
      let fits = Contains-text_includes lower (to_lower user) c in
      elim (Bool-cases (any (λ a. a.name == user) mentionable_assistants)) [
        | inl named ↦
            let (a, listed, same) = any_sound (λ a. a.name == user) mentionable_assistants named in
            absurd (other a listed (ground (arith, same)))
        | inr none_named ↦ ground (arith, none_named, fits)
      ]

  -- A name in the list before the cut is suggested, or there are ten suggestions.
  cut_lem :
      (lower : Text) (assistants users : List Text) (name : Text)
      → Among name assistants ⊎ Among name users
      → let names = take 10 (
          add_target to_lower
            (all_targets to_lower)
            lower
            (assistants ++ take (10 - length assistants) users)) in
        Among name names ⊎ (length names ≡ 10)
  cut_lem lower assistants users name found =
      let n = 10 - length assistants in
      let results = assistants ++ take n users in
      let targets = all_targets to_lower in
      let shown = λ (a : Among name results).
        Among-take 10 (add_target to_lower targets lower results) name
          (add_target-Among targets lower results name a) in
      elim found [
        | inl a ↦ shown (Among-append_left assistants (take n users) name a)
        | inr u ↦ elim (Among-take n users name u) [
          | inl there ↦ shown (Among-append_right assistants (take n users) name there)
          | inr full ↦ inr (
              omega (
                arith,
                full,
                length-append assistants (take n users),
                add_target-length targets lower results,
                length-take 10 (add_target to_lower targets lower results),
              ))
        ]
      ]

  -- At most ten names are suggested, and each of them is a target for everyone that begins with the
  -- query, an assistant whose name or one of whose aliases contains it, or a user online who is no
  -- assistant and whose name does; and each such assistant and user is suggested, unless there are
  -- ten names without it. The query and the names are compared in lower case.
  pub mention_filtered-Among :
      (query : Text) (online_users : List Text)
      → let names = mention_filtered to_lower (some query) online_users in
        let lower = to_lower query in
        (length names ≤ 10)
        × All (Suggested to_lower lower online_users) names
        × ((name : Text)
            → IsAssistant to_lower lower name ⊎ IsUser to_lower lower online_users name
            → Among name names ⊎ (length names ≡ 10))
  unfolding mention_filtered
  mention_filtered-Among query online_users =
      let lower = to_lower query in
      let (bound, fitting) = mention_filtered-Suggested to_lower query online_users in
      let matching = filter (matches_assistant to_lower lower) mentionable_assistants in
      let assistants = map (λ a. a.name) matching in
      let users = filter (matches_user to_lower lower) online_users in
      (
        bound,
        fitting,
        λ name fits. elim fits [
          | inl (a, listed, same, c) ↦ cut_lem lower assistants users name (
              inl (
                subst (λ x. Among x assistants) same
                  (Among-map (λ a. a.name) matching a
                    (Among-filter (matches_assistant to_lower lower) mentionable_assistants a listed
                      (IsAssistant-matches lower a c)))))
          | inr (among, other, c) ↦ cut_lem lower assistants users name (
              inr (
                Among-filter (matches_user to_lower lower) online_users name among
                  (IsUser-matches lower online_users name (among, other, c))))
        ],
      )
