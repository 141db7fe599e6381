-- ===== src/Text/Split.antt =====
-- Splitting at commas.
use bigoci.Prelude.{◌==◌, Bool-cases, Bytes, ◌≡◌, refl, ap, inl, inr, [], ◌∷◌, ◌++◌}
use bigoci.Text.{split_from, split_comma}

split_from-append :
    (s t cur : Bytes) → split_from cur (s ++ b',' ∷ t) ≡ split_from cur s ++ split_from [] t
unfolding split_from
split_from-append [] t cur = refl
split_from-append (c ∷ s) t cur = elim (Bool-cases (c == b',')) [
  | inl y ↦ rw y (ap (◌∷◌ cur) (split_from-append s t []))
  | inr n ↦ rw n (split_from-append s t (cur ++ c ∷ []))
]

-- A comma between two texts splits them.
pub split_comma-append :
    (s t : Bytes) → split_comma (s ++ b',' ∷ t) ≡ split_comma s ++ split_comma t
unfolding split_comma
split_comma-append s t = split_from-append s t []
