-- ===== src/Redirect/Guard.antt =====
-- Where a credential can go: what `follow` puts on the requests that it re-issues.
use bigoci.Prelude.{
  Option-cases, Bytes, codes, length, ℕ, zero, suc, ◌≤◌, ◌≡◌, ◌≢◌, ◌⊎◌, inl, inr, Bool, true, false,
  Option, some, List, [], ◌∷◌, arith, bytes_eq_iff, sum-cases,
}
use bigoci.Redirect.Steps.{Step, stop, lost, more, last, follow_from-Step}
use bigoci.Redirect.{
  Url, Method, get, head, other, Request, Response, Location, absent, unparseable, target, Followed,
  first_value, copy_allowed, follow_method, redirect_target, same_origin, hop_header, next_hop,
  is_away, follow_from, follow, max_redirect_hops,
}

abbrev pub is_read : Method → Bool
is_read get = true
is_read head = true
is_read (other m) = false

module _ (equal_fold : Bytes → Bytes → Bool) (scheme : Bytes) where
  -- A re-issue of the request `prev`, for a registry of the given scheme.
  pub record IsHop (prev next : Request) : Type 0 where
    pub read : is_read next.method ≡ true
    pub ranges : next.header.ranges ≡ prev.header.ranges
    pub accepts : next.header.accepts ≡ prev.header.accepts
    pub encodings : next.header.encodings ≡ prev.header.encodings
    pub nothing_else : next.header.others ≡ []
    pub credential :
        (next.header.authorization ≡ [])
        ⊎ ((same_origin equal_fold prev.url next.url ≡ true)
            × (next.header.authorization ≡ first_value prev.header.authorization ∷ []))
    pub no_user : next.url.has_user ≡ false
    pub named : next.url.host ≢ []
    pub http :
        (next.url.scheme ≡ codes "https")
        ⊎ ((next.url.scheme ≡ codes "http") × (scheme ≢ codes "https"))

  abbrev pub Hops : Request → List Request → Type 0
  Hops prev [] = Unit
  Hops prev (r ∷ rs) = IsHop prev r × Hops r rs

  follow_method-read :
      (m n : Method) (status : ℕ) → follow_method m status ≡ some n → is_read n ≡ true
  unfolding follow_method
  follow_method-read get n status e = ground (arith, e)
  follow_method-read head n status e = ground (arith, e)
  follow_method-read (other m) n status e = ground (arith, e)

  target_facts :
      (l : Location) (u : Url)
      → redirect_target scheme l ≡ inr u
      → (u.has_user ≡ false)
        × (u.host ≢ [])
        × ((u.scheme ≡ codes "https") ⊎ ((u.scheme ≡ codes "http") × (scheme ≢ codes "https")))
  unfolding redirect_target
  target_facts absent u e = absurd (cc e)
  target_facts unparseable u e = absurd (cc e)
  target_facts (target v) u e = ground (
    arith,
    e,
    bytes_eq_iff v.scheme (codes "https"),
    bytes_eq_iff v.scheme (codes "http"),
    bytes_eq_iff v.host [],
    bytes_eq_iff scheme (codes "https"),
  )

  credential_facts :
      (prev : Request) (u : Url)
      → ((hop_header equal_fold prev u).authorization ≡ [])
        ⊎ ((same_origin equal_fold prev.url u ≡ true)
            × ((hop_header equal_fold prev u).authorization
                ≡ first_value prev.header.authorization ∷ []))
  unfolding hop_header copy_allowed
  credential_facts prev u = ground arith

  hop_header-IsHop :
      (prev : Request) (m : Method) (u : Url) (status : ℕ) (l : Location)
      → follow_method prev.method status ≡ some m
      → redirect_target scheme l ≡ inr u
      → IsHop prev (record { method = m; url = u; header = hop_header equal_fold prev u })
  unfolding hop_header copy_allowed
  hop_header-IsHop prev m u status l em eu =
      let (user, named, http) = target_facts l u eu in
      record {
        read = follow_method-read prev.method m status em;
        ranges = ground arith;
        accepts = ground arith;
        encodings = ground arith;
        nothing_else = ground arith;
        credential = credential_facts prev u;
        no_user = user;
        named = named;
        http = http;
      }

  next_hop-IsHop :
      (prev next : Request) (resp : Response) (away : Bool)
      → next_hop equal_fold scheme prev resp away ≡ inr next
      → IsHop prev next
  unfolding next_hop
  next_hop-IsHop prev next resp away e =
      elim (Option-cases (follow_method prev.method resp.status)) [
        | inl em ↦ absurd (ground (arith, e, em))
        | inr (m, em) ↦ elim (sum-cases (redirect_target scheme resp.location)) [
          | inl (x, eu) ↦ absurd (ground (arith, e, em, eu))
          | inr (u, eu) ↦
              let built : record { method = m; url = u; header = hop_header equal_fold prev u }
                  ≡ next =
                ground (arith, e, em, eu) in
              rw (← built) (hop_header-IsHop prev m u resp.status resp.location em eu)
        ]
      ]

module _ (equal_fold : Bytes → Bytes → Bool) (registry : Url)
    (answer : ℕ → Request → Option Response) where
  Within : ℕ → Request → Followed → Type 0
  Within left prev f = Hops equal_fold registry.scheme prev f.sent × (length f.sent ≤ left)

  Within-step :
      (left : ℕ) (current : Request) (resp : Response) (away : Bool) (f : Followed)
      → ((next : Request) (r : Response) (b : Bool)
          → Within left next (follow_from equal_fold registry answer left next r b))
      → Step equal_fold registry answer left current resp away f
      → Within (suc left) current f
  unfolding Within
  Within-step left current resp away _ h (stop x) = (tt, omega arith)
  Within-step left current resp away _ h (lost next e) =
      ((next_hop-IsHop equal_fold registry.scheme current next resp away e, tt), omega arith)
  Within-step left current resp away _ h (last next r e final) =
      ((next_hop-IsHop equal_fold registry.scheme current next resp away e, tt), omega arith)
  Within-step left current resp away _ h (more next r e) =
      let (hops, few) = h next r (is_away equal_fold registry answer away next) in
      ((next_hop-IsHop equal_fold registry.scheme current next resp away e, hops), omega arith)

  follow_from-Within :
      (left : ℕ) (current : Request) (resp : Response) (away : Bool)
      → Within left current (follow_from equal_fold registry answer left current resp away)
  unfolding Within follow_from
  follow_from-Within zero current resp away = (tt, omega arith)
  follow_from-Within (suc left) current resp away =
      Within-step left current resp away _ (follow_from-Within left)
        (follow_from-Step equal_fold registry answer left current resp away)

  -- Whatever the peers answer, `follow` sends at most three requests, each a read that carries over
  -- Range, Accept and Accept-Encoding and otherwise at most Authorization, and that only to the
  -- origin of the request it was redirected from and with the value that one presented. No target
  -- carries a user name, lacks a host, or is plain http for an https registry.
  pub follow-Hops :
      (req : Request) (resp : Response)
      → Hops equal_fold registry.scheme req (follow equal_fold registry answer req resp).sent
        × (length (follow equal_fold registry answer req resp).sent ≤ max_redirect_hops)
  unfolding follow Within
  follow-Hops req resp = follow_from-Within max_redirect_hops req resp false
