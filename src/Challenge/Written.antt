-- ===== src/Challenge/Written.antt =====
-- A WWW-Authenticate header as the grammar of RFC 9110 writes it, and the challenges that it lists.
use bigoci.Prelude.{
  ◌==◌, if◌then◌else◌, Bool-cases, Bytes, codes, All, ℕ, ◌≡◌, refl, ap, ◌∙◌, ◌≢◌, inl, inr, Bool,
  true, false, ◌||◌, List, [], ◌∷◌, ◌++◌, map, bytes_eq, bytes_eq_iff, bytes_eq_iff, Bool-cases, ap,
  ap,
}
use bigoci.Text.{to_lower}
use bigoci.Challenge.{Challenge, set_param, fields, fields_from}
use bigoci.Challenge.Scanner.{IsToken, quote}

-- The value of an auth-param, as a token or as a quoted string.
pub data Value : Type 0 where
  as_token as_string : Bytes → Value

abbrev pub text : Value → Bytes
text (as_token v) = v
text (as_string v) = v

-- An auth-param: what stands in front of it, its name and its value. And a challenge as it is
-- written: what stands in front of it, the scheme and the params.
abbrev pub Param : Type 0
Param = Bytes × Bytes × Value

abbrev pub Written : Type 0
Written = Bytes × Bytes × List Param

-- What separates: blanks, tabs and commas.
abbrev pub is_separator : ℕ → Bool
is_separator c = c == b' ' || c == b'\t' || c == b','

abbrev pub IsGap : Bytes → Type 0
IsGap g = (g ≢ []) × All (λ c. is_separator c ≡ true) g

abbrev pub IsValue : Value → Type 0
IsValue (as_token v) = IsToken v
IsValue (as_string v) = Unit

abbrev pub IsParam : Param → Type 0
IsParam (g, name, v) = IsGap g × IsToken name × IsValue v

abbrev pub IsWritten : Written → Type 0
IsWritten (g, scheme, ps) = IsGap g × IsToken scheme × All IsParam ps

-- In a header only the first challenge may stand behind nothing.
abbrev pub IsHeader : List Written → Type 0
IsHeader [] = Unit
IsHeader ((g, scheme, ps) ∷ ws) =
    All (λ c. is_separator c ≡ true) g × IsToken scheme × All IsParam ps × All IsWritten ws

abbrev pub write_value : Value → Bytes → Bytes
write_value (as_token v) rest = v ++ rest
write_value (as_string v) rest = quote v rest

abbrev pub write_params : List Param → Bytes → Bytes
write_params [] rest = rest
write_params ((g, name, v) ∷ ps) rest = g ++ (name ++ (b'=' ∷ write_value v (write_params ps rest)))

abbrev pub write : List Written → Bytes
write [] = []
write ((g, scheme, ps) ∷ ws) = g ++ (scheme ++ write_params ps (write ws))

-- The text of the last param that bears the name in any case, and `found` without one.
abbrev pub last_of : Bytes → Bytes → List Param → Bytes
last_of key found [] = found
last_of key found ((g, name, v) ∷ ps) =
    last_of key (if bytes_eq (map to_lower name) key then text v else found) ps

-- The challenge that a written one stands for.
abbrev pub meaning : Written → Challenge
meaning (g, scheme, ps) = record {
  scheme = map to_lower scheme;
  realm = last_of (codes "realm") [] ps;
  service = last_of (codes "service") [] ps;
  scopes = fields (last_of (codes "scope") [] ps);
}

-- what the scanner makes of a scheme and of the params behind it
abbrev pub opened : Bytes → Challenge
opened scheme = record { scheme = map to_lower scheme; realm = []; service = []; scopes = [] }

abbrev pub with_params : Challenge → List Param → Challenge
with_params c [] = c
with_params c ((g, name, v) ∷ ps) = with_params (set_param c name (text v)) ps

names_differ :
    (n : Bytes)
    → ((bytes_eq n (codes "realm") ≡ true)
        → (bytes_eq n (codes "service") ≡ false) × (bytes_eq n (codes "scope") ≡ false))
      × ((bytes_eq n (codes "service") ≡ true) → bytes_eq n (codes "scope") ≡ false)
names_differ n = (
  λ h. rw ((bytes_eq_iff n (codes "realm")).0 h) (unfold bytes_eq in (refl, refl)),
  λ h. rw ((bytes_eq_iff n (codes "service")).0 h) (unfold bytes_eq in refl),
)

-- The challenge with these three texts.
abbrev holding : Bytes → Bytes → Bytes → Bytes → Challenge
holding scheme realm service scope = record {
  scheme = scheme;
  realm = realm;
  service = service;
  scopes = fields scope;
}

abbrev chosen : Bytes → Bytes → Bytes → Bytes → Bytes
chosen name key v found = if bytes_eq (map to_lower name) key then v else found

set_param-holding :
    (scheme realm service scope name v : Bytes)
    → set_param (holding scheme realm service scope) name v
      ≡ holding scheme
          (chosen name (codes "realm") v realm)
          (chosen name (codes "service") v service)
          (chosen name (codes "scope") v scope)
unfolding set_param
set_param-holding scheme realm service scope name v =
    let n = map to_lower name in
    elim (Bool-cases (bytes_eq n (codes "realm"))) [
      | inl y ↦ let (a, b) = (names_differ n).0 y in rw (y, a, b) refl
      | inr x ↦ rw x (elim (Bool-cases (bytes_eq n (codes "service"))) [
        | inl y ↦ let a = (names_differ n).1 y in rw (y, a) refl
        | inr z ↦ rw z (elim (Bool-cases (bytes_eq n (codes "scope"))) [
          | inl y ↦ rw y refl
          | inr u ↦ rw u refl
        ])
      ])
    ]

with_params-holding :
    (ps : List Param) (scheme realm service scope : Bytes)
    → with_params (holding scheme realm service scope) ps
      ≡ holding scheme
          (last_of (codes "realm") realm ps)
          (last_of (codes "service") service ps)
          (last_of (codes "scope") scope ps)
with_params-holding [] scheme realm service scope = refl
with_params-holding ((g, name, v) ∷ ps) scheme realm service scope =
    ap (λ c. with_params c ps) (set_param-holding scheme realm service scope name (text v))
    ∙ with_params-holding ps scheme _ _ _

pub with_params-meaning : (w : Written) → with_params (opened w.1) w.2 ≡ meaning w
unfolding fields fields_from
with_params-meaning (g, scheme, ps) = with_params-holding ps (map to_lower scheme) [] [] []
