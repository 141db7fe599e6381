-- ===== src/Auth/Scopes.antt =====
-- internal/oci/credentials.go: the access that a request needs, and the set that a token is asked for.
use bigoci.Prelude.{
  ltb, ◌==◌, if◌then◌else◌, Bytes, codes, ◌≡◌, refl, ◌∙◌, ◌⊎◌, Bool, true, false, not, ◌&&◌, ◌||◌,
  List, [], ◌∷◌, ◌++◌, arith, bytes_eq, bytes_eq_iff, bytes_eq_iff,
}
use bigoci.Redirect.{Method, get, head, other}

-- the names of the access, const actionsPull and actionsPushPull
abbrev scope_of : Bytes → Bytes → Bytes
scope_of name actions = codes "repository:" ++ name ++ codes ":" ++ actions

-- `scopeFor`, which is also the cache key
unfoldable pub scope_for : Method → Bytes → Bytes
scope_for get name = scope_of name (codes "pull")
scope_for head name = scope_of name (codes "pull")
scope_for (other m) name = scope_of name (codes "pull,push")

-- the order of Go strings
unfoldable pub bytes_ltb : Bytes → Bytes → Bool
bytes_ltb [] [] = false
bytes_ltb [] (d ∷ t) = true
bytes_ltb (c ∷ s) [] = false
bytes_ltb (c ∷ s) (d ∷ t) = ltb c d || c == d && bytes_ltb s t

-- `slices.Sort`, by insertion
unfoldable pub sorted_into : Bytes → List Bytes → List Bytes
sorted_into s [] = s ∷ []
sorted_into s (t ∷ l) = let rest = sorted_into s l in if bytes_ltb t s then t ∷ rest else s ∷ t ∷ l

unfoldable pub sort : List Bytes → List Bytes
sort [] = []
sort (s ∷ l) = sorted_into s (sort l)

-- `slices.Compact` on what follows the text
unfoldable pub compact_after : Bytes → List Bytes → List Bytes
compact_after s [] = []
compact_after s (t ∷ l) = let rest = compact_after t l in if bytes_eq s t then rest else t ∷ rest

unfoldable pub compact : List Bytes → List Bytes
compact [] = []
compact (s ∷ l) = s ∷ compact_after s l

-- `mergeScopes`
unfoldable pub merge_scopes : Bytes → List Bytes → List Bytes
merge_scopes want offered = compact (sort (want ∷ offered))

unfoldable pub is_among : Bytes → List Bytes → Bool
is_among s [] = false
is_among s (t ∷ l) = bytes_eq t s || is_among s l

-- no text before the given one
unfoldable pub is_floor : Bytes → List Bytes → Bool
is_floor s [] = true
is_floor s (t ∷ l) = not (bytes_ltb t s) && is_floor s l

unfoldable pub is_sorted : List Bytes → Bool
is_sorted [] = true
is_sorted (s ∷ l) = is_floor s l && is_sorted l

-- each text before all that follow
unfoldable pub is_below : Bytes → List Bytes → Bool
is_below s [] = true
is_below s (t ∷ l) = bytes_ltb s t && is_below s l

unfoldable pub is_ascending : List Bytes → Bool
is_ascending [] = true
is_ascending (s ∷ l) = is_below s l && is_ascending l

ltb_irrefl : (s : Bytes) → bytes_ltb s s ≡ false
unfolding bytes_ltb
ltb_irrefl [] = refl
ltb_irrefl (c ∷ s) = ground (arith, ltb_irrefl s)

ltb_total : (s t : Bytes) → (bytes_ltb s t ≡ true) ⊎ (bytes_ltb t s ≡ true) ⊎ (bytes_eq s t ≡ true)
unfolding bytes_ltb bytes_eq
ltb_total [] [] = ground arith
ltb_total [] (d ∷ t) = ground arith
ltb_total (c ∷ s) [] = ground arith
ltb_total (c ∷ s) (d ∷ t) = ground (arith, ltb_total s t)

ltb_trans : (s t u : Bytes) → bytes_ltb s t ≡ true → bytes_ltb t u ≡ true → bytes_ltb s u ≡ true
unfolding bytes_ltb
ltb_trans [] [] u h g = ground (arith, h)
ltb_trans [] (d ∷ t) [] h g = ground (arith, g)
ltb_trans [] (d ∷ t) (e ∷ u) h g = refl
ltb_trans (c ∷ s) [] u h g = ground (arith, h)
ltb_trans (c ∷ s) (d ∷ t) [] h g = ground (arith, g)
ltb_trans (c ∷ s) (d ∷ t) (e ∷ u) h g = ground (arith, ltb_trans s t u)

-- not after, in the order that sorting leaves
ltb_shift : (s t u : Bytes) → bytes_ltb t s ≡ false → bytes_ltb u t ≡ false → bytes_ltb u s ≡ false
ltb_shift s t u h g = ground (
  arith,
  ltb_total s t,
  ltb_total t u,
  ltb_trans u s t,
  ltb_trans t u s,
  ltb_irrefl t,
  ltb_irrefl u,
  ltb_irrefl s,
  bytes_eq_iff s t,
  bytes_eq_iff t u,
  ltb_trans s t u,
)

floor_shift :
    (s t : Bytes) (l : List Bytes)
    → bytes_ltb t s ≡ false
    → is_floor t l ≡ true
    → is_floor s l ≡ true
unfolding is_floor
floor_shift s t [] h g = refl
floor_shift s t (u ∷ l) h g = ground (arith, floor_shift s t l h, ltb_shift s t u)

floor_into :
    (s t : Bytes) (l : List Bytes)
    → is_floor s l ≡ true
    → bytes_ltb t s ≡ false
    → is_floor s (sorted_into t l) ≡ true
unfolding is_floor sorted_into
floor_into s t [] h g = ground arith
floor_into s t (u ∷ l) h g = ground (arith, floor_into s t l)

ltb_asym : (s t : Bytes) → bytes_ltb s t ≡ true → bytes_ltb t s ≡ false
ltb_asym s t h = ground (arith, ltb_trans s t s, ltb_irrefl s)

into-is_sorted :
    (s : Bytes) (l : List Bytes) → is_sorted l ≡ true → is_sorted (sorted_into s l) ≡ true
unfolding is_sorted sorted_into is_floor
into-is_sorted s [] h = refl
into-is_sorted s (t ∷ l) h =
    ground (arith, into-is_sorted s l, floor_into t s l, floor_shift s t l, ltb_asym t s)

sort-is_sorted : (l : List Bytes) → is_sorted (sort l) ≡ true
unfolding sort is_sorted
sort-is_sorted [] = refl
sort-is_sorted (s ∷ l) = into-is_sorted s (sort l) (sort-is_sorted l)

among_into :
    (k s : Bytes) (l : List Bytes) → is_among k (sorted_into s l) ≡ (bytes_eq s k || is_among k l)
unfolding is_among sorted_into
among_into k s [] = refl
among_into k s (t ∷ l) = ground (arith, among_into k s l)

among_sort : (k : Bytes) (l : List Bytes) → is_among k (sort l) ≡ is_among k l
unfolding is_among sort
among_sort k [] = refl
among_sort k (s ∷ l) = ground (arith, among_into k s (sort l), among_sort k l)

among_compact :
    (k s : Bytes) (l : List Bytes)
    → (bytes_eq s k || is_among k (compact_after s l)) ≡ (bytes_eq s k || is_among k l)
unfolding is_among compact_after
among_compact k s [] = refl
among_compact k s (t ∷ l) =
    ground (arith, among_compact k t l, bytes_eq_iff s t, bytes_eq_iff s k, bytes_eq_iff t k)

below_floor :
    (s t : Bytes) (l : List Bytes)
    → bytes_ltb s t ≡ true
    → is_floor t l ≡ true
    → is_below s l ≡ true
unfolding is_floor is_below
below_floor s t [] h g = refl
below_floor s t (u ∷ l) h g =
    ground (arith, below_floor s t l h, ltb_total t u, ltb_trans s t u, bytes_eq_iff t u)

below_compact :
    (s t : Bytes) (l : List Bytes) → is_below s l ≡ true → is_below s (compact_after t l) ≡ true
unfolding is_below compact_after
below_compact s t [] h = refl
below_compact s t (u ∷ l) h = ground (arith, below_compact s u l)

compact-is_ascending :
    (s : Bytes) (l : List Bytes)
    → is_floor s l ≡ true
    → is_sorted l ≡ true
    → (is_below s (compact_after s l) ≡ true) × (is_ascending (compact_after s l) ≡ true)
unfolding is_floor is_sorted is_below is_ascending compact_after
compact-is_ascending s [] h g = (refl, refl)
compact-is_ascending s (t ∷ l) h g = ground (
  arith,
  compact-is_ascending t l,
  ltb_total s t,
  bytes_eq_iff s t,
  below_compact s t l,
  below_floor s t l,
)

compact_lem :
    (k : Bytes) (l : List Bytes)
    → is_sorted l ≡ true
    → (is_ascending (compact l) ≡ true) × (is_among k (compact l) ≡ is_among k l)
unfolding is_sorted is_ascending compact is_among
compact_lem k [] h = (refl, refl)
compact_lem k (s ∷ l) h = ground (arith, compact-is_ascending s l, among_compact k s l)

-- The set that a token is asked for is in strictly ascending order, whatever the order and the
-- repetitions of the challenge, and holds just what the request needs and what the challenge named.
pub merge_scopes_lem :
    (want : Bytes) (offered : List Bytes) (k : Bytes)
    → (is_ascending (merge_scopes want offered) ≡ true)
      × (is_among k (merge_scopes want offered) ≡ (bytes_eq want k || is_among k offered))
unfolding merge_scopes is_among
merge_scopes_lem want offered k =
    let (ascending, same) =
      compact_lem k (sort (want ∷ offered)) (sort-is_sorted (want ∷ offered)) in
    (ascending, same ∙ among_sort k (want ∷ offered))
