-- ===== src/Composer/Typing.antt =====
-- The signs of typing that the others are sent.
use token_dance_chat.Base.{
  ◌+◌, ◌≡◌, refl, Bool, eqb, true, false, not, ◌&&◌, ◌||◌, List, [], ◌∷◌, ◌++◌, Text, ◌==◌, ==_refl,
  ap, ◌∙◌, arith, Bool-cases, inl, inr,
}
use token_dance_chat.Composer.{
  Composer, Effect, starts_typing, stops_typing, clears_reply, shows_auth, sends_text, edits_text,
}
use token_dance_chat.Composer.Content.{clear_save, resync, has_content, sync_typing, stop_typing}
use token_dance_chat.Composer.Send.{on_release_timer}
use token_dance_chat.Composer.Steps.{
  ComposerEvent, releases, unmounts, handle, composer_step, effects, compose,
}
use token_dance_chat.Composer.Balance.{
  one_if, starts, stops, starts-append, stops-append, resync_balance,
}
use token_dance_chat.Composer.Handling.{handle-IsBalanced}

module _ (trim : Text → Text) where
  handle-typing :
      (e : ComposerEvent) (s : Composer)
      → let r = handle trim e s in
        (starts r.1 ≡ 0) × (stops r.1 + one_if r.0.typing_sent ≡ one_if s.typing_sent)
  unfolding handle on_release_timer starts stops
  handle-typing releases s = ground arith
  handle-typing e s = let (a, b, _) = handle-IsBalanced trim e s refl in (a, b)

  step-typing :
      (e : ComposerEvent) (s : Composer)
      → let r = composer_step trim e s in
        one_if s.typing_sent + starts r.1 ≡ stops r.1 + one_if r.0.typing_sent
  unfolding composer_step
  step-typing e s =
      let r = handle trim e s in
      let more = (resync trim s r.0).1 in
      let (a, b) = handle-typing e s in
      let (c, _, _) = resync_balance trim s r.0 in
      omega (arith, starts-append r.1 more, stops-append r.1 more, a, b, c)

  pub run-typing :
      (es : List ComposerEvent) (s : Composer)
      → one_if s.typing_sent + starts (effects trim es s)
        ≡ stops (effects trim es s) + one_if (compose trim es s).typing_sent
  unfolding effects compose starts stops
  run-typing [] s = omega arith
  run-typing (e ∷ es) s =
      let r = composer_step trim e s in
      let later = effects trim es r.0 in
      omega
        (arith, step-typing e s, run-typing es r.0, starts-append r.1 later, stops-append r.1 later)

  unmount_stops : (s : Composer) → (composer_step trim unmounts s).0.typing_sent ≡ false
  unfolding composer_step handle stop_typing resync clear_save
  unmount_stops s = ground (arith, ==_refl s.content)

  compose-append :
      (es fs : List ComposerEvent) (s : Composer)
      → compose trim (es ++ fs) s ≡ compose trim fs (compose trim es s)
  unfolding compose
  compose-append [] fs s = refl
  compose-append (e ∷ es) fs s = compose-append es fs (composer_step trim e s).0

  -- Over any run of keys, clicks, changes of the connection and timers that ends with the end of
  -- the component, from a state in which the others are not told of typing, every sign that typing
  -- starts is followed by one that it stops: there are as many of the one as of the other.
  pub effects-unmounts :
      (es : List ComposerEvent) (s : Composer)
      → s.typing_sent ≡ false
      → let out = effects trim (es ++ unmounts ∷ []) s in starts out ≡ stops out
  unfolding compose
  effects-unmounts es s h =
      let all = run-typing (es ++ unmounts ∷ []) s in
      let last = unmount_stops (compose trim es s) in
      let ended : (compose trim (es ++ unmounts ∷ []) s).typing_sent ≡ false =
        ap (λ t. t.typing_sent) (compose-append es (unmounts ∷ []) s) ∙ last in
      ground (arith, all, ended, h)

  -- Told of typing only with a text that is not blank and a connection.
  abbrev pub IsHonest : Composer → Type 0
  IsHonest s = (not s.typing_sent || (has_content trim s.content && s.connected)) ≡ true

  sync_typing-IsHonest : (s : Composer) → IsHonest (sync_typing trim s).0
  unfolding sync_typing
  sync_typing-IsHonest s = ground arith

  resync-IsHonest :
      (old s : Composer)
      → (s.typing_sent && not old.typing_sent) ≡ false
      → IsHonest old
      → IsHonest (resync trim old s).0
  unfolding resync
  resync-IsHonest old s h o = elim (Bool-cases (s.content == old.content)) [
    | inr changed ↦ rw changed (sync_typing-IsHonest s)
    | inl same_text ↦
        let e : s.content ≡ old.content = ground (arith, same_text) in
        let kept = ap (λ c. has_content trim c) e in
        ground (arith, h, o, same_text, kept, sync_typing-IsHonest s)
  ]

  -- What the others believe after the effects, from what they believed before: the last sign counts.
  abbrev pub told : Bool → List Effect → Bool
  told b [] = b
  told b (starts_typing ∷ es) = told true es
  told b (stops_typing ∷ es) = told false es
  told b (_ ∷ es) = told b es

  told-append : (b : Bool) (xs ys : List Effect) → told b (xs ++ ys) ≡ told (told b xs) ys
  told-append b [] ys = refl
  told-append b (starts_typing ∷ es) ys = told-append true es ys
  told-append b (stops_typing ∷ es) ys = told-append false es ys
  told-append b (clears_reply ∷ es) ys = told-append b es ys
  told-append b (shows_auth ∷ es) ys = told-append b es ys
  told-append b (sends_text x ∷ es) ys = told-append b es ys
  told-append b (edits_text x y ∷ es) ys = told-append b es ys

  -- Without a sign that typing starts, the others believe it until the first one that it stops.
  told-stops : (b : Bool) (es : List Effect) → starts es ≡ 0 → told b es ≡ (b && eqb (stops es) 0)
  unfolding starts stops
  told-stops b [] h = ground arith
  told-stops b (starts_typing ∷ es) h = absurd (omega (arith, h))
  told-stops b (stops_typing ∷ es) h = ground (arith, told-stops false es h)
  told-stops b (clears_reply ∷ es) h = told-stops b es h
  told-stops b (shows_auth ∷ es) h = told-stops b es h
  told-stops b (sends_text x ∷ es) h = told-stops b es h
  told-stops b (edits_text x y ∷ es) h = told-stops b es h

  handle-told :
      (e : ComposerEvent) (s : Composer)
      → let r = handle trim e s in told s.typing_sent r.1 ≡ r.0.typing_sent
  handle-told e s =
      let r = handle trim e s in
      let (a, b) = handle-typing e s in
      let silent = told-stops s.typing_sent r.1 a in ground (arith, silent, b)

  resync-told :
      (old s : Composer) → let r = resync trim old s in told s.typing_sent r.1 ≡ r.0.typing_sent
  unfolding resync sync_typing
  resync-told old s = ground arith

  step-told :
      (e : ComposerEvent) (s : Composer)
      → let r = composer_step trim e s in told s.typing_sent r.1 ≡ r.0.typing_sent
  unfolding composer_step
  step-told e s =
      let r = handle trim e s in
      told-append s.typing_sent r.1 (resync trim s r.0).1
      ∙ ap (λ b. told b (resync trim s r.0).1) (handle-told e s)
      ∙ resync-told s r.0

  run-told :
      (es : List ComposerEvent) (s : Composer)
      → told s.typing_sent (effects trim es s) ≡ (compose trim es s).typing_sent
  unfolding effects compose
  run-told [] s = refl
  run-told (e ∷ es) s =
      let r = composer_step trim e s in
      told-append s.typing_sent r.1 (effects trim es r.0)
      ∙ ap (λ b. told b (effects trim es r.0)) (step-told e s)
      ∙ run-told es r.0

  run-IsHonest :
      (es : List ComposerEvent) (s : Composer) → IsHonest s → IsHonest (compose trim es s)
  unfolding compose composer_step
  run-IsHonest [] s h = h
  run-IsHonest (e ∷ es) s h =
      let (_, flags) = handle-typing e s in
      let next = (handle trim e s).0 in
      run-IsHonest es (resync trim s next).0 (resync-IsHonest s next (ground (arith, flags)) h)

  -- The others are never left with a sign of typing that is not true: after any run from a state in
  -- which no sign was sent, if the last sign that was sent tells that the user is typing, the text
  -- is not blank and the client is connected.
  pub effects-told :
      (es : List ComposerEvent) (s : Composer)
      → s.typing_sent ≡ false
      → told false (effects trim es s) ≡ true
      → let t = compose trim es s in (has_content trim t.content ≡ true) × (t.connected ≡ true)
  effects-told es s quiet h =
      let honest = run-IsHonest es s (rw quiet refl) in
      let flag = run-told es s in ground (arith, quiet, h, honest, flag)
