-- ===== src/Encoding/Join.antt =====
-- Repeated Content-Encoding lines (encoding.go).
use bigoci.Prelude.{Bytes, ◌≡◌, refl, ◌&&◌, List, [], ◌∷◌, ◌++◌, arith, bytes_eq}
use bigoci.Text.{split_comma, trim_space, trim_left, trim_right, split_from}
use bigoci.Text.Split.{split_comma-append}
use bigoci.Encoding.{is_accepted, all_accepted, check_identity_encoding}

-- The single value that RFC 9110 makes several field lines equivalent to.
abbrev pub join : List Bytes → Bytes
join [] = []
join (f ∷ []) = f
join (f ∷ g ∷ fs) = f ++ b',' ∷ join (g ∷ fs)

all_accepted-append :
    (xs ys : List Bytes) → all_accepted (xs ++ ys) ≡ (all_accepted xs && all_accepted ys)
unfolding all_accepted
all_accepted-append [] ys = refl
all_accepted-append (x ∷ xs) ys = ground (arith, all_accepted-append xs ys)

none_accepted : check_identity_encoding [] ≡ check_identity_encoding ([] ∷ [])
unfolding check_identity_encoding split_comma split_from all_accepted is_accepted trim_space
    trim_left trim_right bytes_eq
none_accepted = refl

check_identity_encoding-one :
    (field : Bytes) → check_identity_encoding (field ∷ []) ≡ all_accepted (split_comma field)
unfolding check_identity_encoding
check_identity_encoding-one field = ground arith

check_identity_encoding-more :
    (field : Bytes)
    → (fields : List Bytes)
    → check_identity_encoding (field ∷ fields)
      ≡ (all_accepted (split_comma field) && check_identity_encoding fields)
unfolding check_identity_encoding
check_identity_encoding-more field fields = refl

-- A response that repeats the Content-Encoding header is judged like one that states the fields in
-- a single line, joined by commas.
pub check_identity_encoding-join :
    (fields : List Bytes)
    → check_identity_encoding fields ≡ check_identity_encoding (join fields ∷ [])
check_identity_encoding-join [] = none_accepted
check_identity_encoding-join (f ∷ []) = refl
check_identity_encoding-join (f ∷ g ∷ fs) =
    rw
      (
        check_identity_encoding-more f (g ∷ fs),
        check_identity_encoding-join (g ∷ fs),
        check_identity_encoding-one (join (g ∷ fs)),
        check_identity_encoding-one (f ++ b',' ∷ join (g ∷ fs)),
        split_comma-append f (join (g ∷ fs)),
        all_accepted-append (split_comma f) (split_comma (join (g ∷ fs))),
      )
      refl
