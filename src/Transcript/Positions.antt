-- ===== src/Transcript/Positions.antt =====
-- The number of scroll positions that are kept.
use token_dance_chat.Base.{
  ℕ, ◌+◌, ◌≤◌, ◌≡◌, false, [], ◌∷◌, Text, Dict, ◌==◌, ==_refl, insert, erase, length, arith, All,
  eqb, if◌then◌else◌,
}
use token_dance_chat.Transcript.Paging.{evict_first, save_position}

-- No key is the empty text.
abbrev pub Named : Dict ℕ → Type 0
Named = All (λ e. (e.0 == []) ≡ false)

length-erase : (k : Text) (d : Dict ℕ) → length (erase k d) ≤ length d
unfolding erase
length-erase k [] = omega arith
length-erase k ((j, p) ∷ d) = ground (arith, length-erase k d)

length-insert : (k : Text) (p : ℕ) (d : Dict ℕ) → length (insert k p d) ≤ length d + 1
unfolding insert
length-insert k p [] = omega arith
length-insert k p ((j, q) ∷ d) = ground (arith, length-insert k p d)

insert-Named : (k : Text) (p : ℕ) (d : Dict ℕ) → (k == []) ≡ false → Named d → Named (insert k p d)
unfolding insert
insert-Named k p [] n h = (n, tt)
insert-Named k p ((j, q) ∷ d) n (m, h) = ground (arith, insert-Named k p d n h)

erase-Named : (k : Text) (d : Dict ℕ) → Named d → Named (erase k d)
unfolding erase
erase-Named k [] h = tt
erase-Named k ((j, q) ∷ d) (m, h) = ground (arith, erase-Named k d h)

evict_first-length :
    (d : Dict ℕ)
    → Named d
    → length (evict_first d) + 1 ≤ length d + (if eqb (length d) 0 then 1 else 0)
unfolding evict_first erase
evict_first-length [] h = omega arith
evict_first-length ((k, p) ∷ d) (n, h) = ground (arith, ==_refl k, length-erase k d)

evict_first-Named : (d : Dict ℕ) → Named d → Named (evict_first d)
unfolding evict_first
evict_first-Named [] h = tt
evict_first-Named ((k, p) ∷ d) (n, h) = rw n (erase-Named k ((k, p) ∷ d) (n, h))

-- Saving a position under a key that is not empty keeps at most 30 positions, none of them under
-- an empty key, if it was so before.
pub save_position-bounded :
    (key : Text) (scroll_top : ℕ) (d : Dict ℕ)
    → (key == []) ≡ false
    → Named d
    → length d ≤ 30
    → (length (save_position key scroll_top d) ≤ 30) × Named (save_position key scroll_top d)
unfolding save_position
save_position-bounded key scroll_top d n h b =
    let saved = insert key scroll_top d in
    let named = insert-Named key scroll_top d n h in
    ground (
      arith,
      length-insert key scroll_top d,
      named,
      evict_first-length saved named,
      evict_first-Named saved named,
    )
