-- ===== src/Composer/OneSend.antt =====
-- One press or click sends once.
use token_dance_chat.Base.{ℕ, ◌+◌, ◌≤◌, refl, List, [], ◌∷◌, Text, arith}
use token_dance_chat.Composer.{Composer}
use token_dance_chat.Composer.Content.{resync}
use token_dance_chat.Composer.Send.{on_release_timer}
use token_dance_chat.Composer.Steps.{ComposerEvent, releases, handle, composer_step, effects}
use token_dance_chat.Composer.Balance.{one_if, sends, sends-append, resync_balance}
use token_dance_chat.Composer.Handling.{handle-IsBalanced, is_release}

-- How often the timer after a sending has run out.
unfoldable pub released : List ComposerEvent → ℕ
released [] = 0
released (e ∷ es) = one_if (is_release e) + released es

module _ (trim : Text → Text) where
  handle-sends :
      (e : ComposerEvent) (s : Composer)
      → let r = handle trim e s in
        sends r.1 + one_if s.sending ≤ one_if r.0.sending + one_if (is_release e)
  unfolding handle on_release_timer sends
  handle-sends releases s = ground arith
  handle-sends e s = let (_, _, c) = handle-IsBalanced trim e s refl in omega (arith, c)

  step-sends :
      (e : ComposerEvent) (s : Composer)
      → let r = composer_step trim e s in
        sends r.1 + one_if s.sending ≤ one_if r.0.sending + one_if (is_release e)
  unfolding composer_step
  step-sends e s =
      let r = handle trim e s in
      let (_, quiet, kept) = resync_balance trim s r.0 in
      ground (arith, sends-append r.1 (resync trim s r.0).1, handle-sends e s, quiet, kept)

  -- Between two messages or edits that are sent, the timer of half a second has run out, whatever
  -- keys and clicks come: in any run the sendings exceed the runs of the timer by at most one, and
  -- by none if a sending was still under way when the run began.
  pub effects-released :
      (es : List ComposerEvent) (s : Composer)
      → sends (effects trim es s) + one_if s.sending ≤ released es + 1
  unfolding effects released sends
  effects-released [] s = ground arith
  effects-released (e ∷ es) s =
      let r = composer_step trim e s in
      omega (arith, step-sends e s, effects-released es r.0, sends-append r.1 (effects trim es r.0))
