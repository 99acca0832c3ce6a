-- ===== src/Composer/Draft.antt =====
-- The draft: what is written comes back after the page is loaded again.
use mathlib.Core.Option.{get_or}
use token_dance_chat.Base.{
  ◌≡◌, refl, ap, ◌∙◌, subst, sym, true, [], Option, none, some, Text, ◌==◌, text_dec, arith,
  if◌then◌else◌, Bool-cases, inl, inr,
}
use token_dance_chat.Composer.{Composer}
use token_dance_chat.Composer.Content.{
  has_content, schedule_save, pulse_on_content, set_content, stop_typing, sync_typing, resync,
}
use token_dance_chat.Composer.Send.{submit, restored, start_sending}
use token_dance_chat.Composer.Balance.{set_content-fields}

module _ (trim : Text → Text) where
  -- The item of localStorage that goes with a text.
  abbrev pub kept : Text → Option Text
  kept content = if has_content trim content then some content else none

  -- The timer will save the text, or it is saved.
  abbrev pub Saves : Option Text → Text → Option Text → Type 0
  Saves none content draft = draft ≡ kept content
  Saves (some pending) content draft = pending ≡ content

  abbrev pub IsEmpty : Option Text → Type 0
  IsEmpty none = Unit {0}
  IsEmpty (some stash) = stash ≡ []

  abbrev pub IsKept : Composer → Type 0
  IsKept s = Saves s.save_pending s.content s.draft × (s.draft_loaded ≡ true) × IsEmpty s.edit_stash

  set_content-Saves :
      (content : Text) (s : Composer)
      → s.draft_loaded ≡ true
      → ((content == s.content) ≡ true → Saves s.save_pending s.content s.draft)
      → let t = set_content trim content s in Saves t.save_pending t.content t.draft
  unfolding set_content schedule_save pulse_on_content
  set_content-Saves content s l h = elim (Bool-cases (content == s.content)) [
    | inl equal ↦ rw equal (h equal)
    | inr changed ↦ ground (arith, changed, l)
  ]

  pub set_content-IsKept :
      (content : Text) (s : Composer) → IsKept s → IsKept (set_content trim content s)
  set_content-IsKept content s (k, l, e) =
      let (_, _, _, _, _, loaded, stash, _) = set_content-fields trim content s in
      (set_content-Saves content s l (λ _. k), loaded ∙ l, subst IsEmpty (sym stash) e)

  -- What `IsKept` reads.
  abbrev pub IsAlike : Composer → Composer → Type 0
  IsAlike s t =
      (s.save_pending ≡ t.save_pending)
      × (s.content ≡ t.content)
      × (s.draft ≡ t.draft)
      × (s.draft_loaded ≡ t.draft_loaded)
      × (s.edit_stash ≡ t.edit_stash)

  pub IsAlike-IsKept : (s t : Composer) → IsAlike s t → IsKept s → IsKept t
  IsAlike-IsKept s t (p, c, d, l, e) (k, loaded, empty) = (
    subst (λ x. Saves x t.content t.draft) p
        (subst (λ x. Saves s.save_pending x t.draft) c
          (subst (λ x. Saves s.save_pending s.content x) d k)),
    sym l ∙ loaded,
    subst IsEmpty e empty,
  )

  pub get_or-empty : (o : Option Text) → IsEmpty o → get_or o [] ≡ []
  get_or-empty none e = refl
  get_or-empty (some stash) e = e

  restored-empty : (s : Composer) → IsEmpty s.edit_stash → restored s ≡ []
  unfolding restored
  restored-empty s e = ground (arith, get_or-empty s.edit_stash e)

  pub stop_typing-IsAlike : (s : Composer) → IsAlike s (stop_typing trim s).0
  unfolding stop_typing
  stop_typing-IsAlike s = ground arith

  sync_typing-IsAlike : (s : Composer) → IsAlike s (sync_typing trim s).0
  unfolding sync_typing
  sync_typing-IsAlike s = ground arith

  pub resync-IsAlike : (old s : Composer) → IsAlike s (resync trim old s).0
  unfolding resync
  resync-IsAlike old s = ground (arith, sync_typing-IsAlike s)

  module _ (trim_empty : trim [] ≡ []) where
    kept-empty : kept [] ≡ none
    unfolding text_dec
    kept-empty = rw trim_empty refl

    emptied :
        (o : Option Text) (content : Text) (draft : Option Text)
        → content ≡ []
        → Saves o content draft
        → Saves o content none
    emptied none content draft e k = sym (ap kept e ∙ kept-empty)
    emptied (some pending) content draft e k = k

    cleared-IsKept :
        (s : Composer) → IsKept s → IsKept (set_content trim (restored s) (start_sending s))
    unfolding start_sending
    cleared-IsKept s (k, l, e) =
        let (_, _, _, _, _, loaded, stash, _) =
          set_content-fields trim (restored s) (start_sending s) in
        let equal_empty : (restored s == s.content) ≡ true → s.content ≡ [] =
          λ h. let r = restored-empty s e in ground (arith, h, r) in
        (
          set_content-Saves (restored s) (start_sending s) l
              (λ h. emptied s.save_pending s.content s.draft (equal_empty h) k),
          loaded ∙ l,
          subst IsEmpty (sym stash) tt,
        )

    pub submit-IsKept :
        (trimmed : Text) (s : Composer) → IsKept s → IsKept (submit trim trimmed s).0
    unfolding submit
    submit-IsKept trimmed s k =
        let cleared = set_content trim (restored s) (start_sending s) in
        let pulsing : Composer = record cleared { pulse_button = true } in
        IsAlike-IsKept pulsing (stop_typing trim pulsing).0 (stop_typing-IsAlike pulsing)
          (cleared-IsKept s k)
