-- ===== src/Encoding.antt =====
-- internal/oci/encoding.go: a manifest or blob response must be identity coded.
pub mod Join
use bigoci.Prelude.{Bytes, codes, Bool, true, ◌&&◌, ◌||◌, List, [], ◌∷◌, bytes_eq}
use bigoci.Text.{trim_space, equal_fold, split_comma}

-- One token of a Content-Encoding field is blank or names the identity coding.
unfoldable pub is_accepted : Bytes → Bool
is_accepted token = let t = trim_space token in bytes_eq t [] || equal_fold t (codes "identity")

unfoldable pub all_accepted : List Bytes → Bool
all_accepted [] = true
all_accepted (t ∷ ts) = is_accepted t && all_accepted ts

-- `checkIdentityEncoding` on the values of the Content-Encoding header, one for each of its lines;
-- false is the contentCodingError
unfoldable pub check_identity_encoding : List Bytes → Bool
check_identity_encoding [] = true
check_identity_encoding (field ∷ fields) =
    all_accepted (split_comma field) && check_identity_encoding fields
