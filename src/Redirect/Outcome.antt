-- ===== src/Redirect/Outcome.antt =====
-- What `follow` hands back: content from a storage host, or the registry's own answer.
use bigoci.Prelude.{
  Bool-cases, Bytes, ℕ, zero, suc, ◌≡◌, ◌⊎◌, inl, inr, Bool, true, false, not, ◌||◌, Option, List,
  [], ◌∷◌, arith,
}
use bigoci.Redirect.Steps.{Step, stop, lost, more, last, follow_from-Step}
use bigoci.Redirect.{
  Url, Request, Response, Followed, off_origin_response, same_origin, is_redirect, arrive,
  follow_from, follow, max_redirect_hops,
}

module _ (equal_fold : Bytes → Bytes → Bool) (registry : Url)
    (answer : ℕ → Request → Option Response) where
  -- some request went to another origin than the registry's
  abbrev pub any_away : Bool → List Request → Bool
  any_away away [] = away
  any_away away (r ∷ rs) = any_away (away || not (same_origin equal_fold registry r.url)) rs

  -- A returned response is no redirect, and content if a request left the registry's origin.
  IsFinal : Bool → Followed → Type 0
  IsFinal away f =
      (r : Response)
      → f.outcome ≡ inr r
      → (is_redirect r.status ≡ false)
        × (any_away away f.sent ≡ true → (r.status ≡ 200) ⊎ (r.status ≡ 206))

  arrive_final :
      (b : Bool) (resp r : Response)
      → arrive equal_fold registry answer b resp ≡ inr r
      → (resp ≡ r) × (b ≡ true → (resp.status ≡ 200) ⊎ (resp.status ≡ 206))
  unfolding arrive off_origin_response
  arrive_final b resp r e = ground (arith, e)

  IsFinal-step :
      (left : ℕ) (current : Request) (resp : Response) (away : Bool) (f : Followed)
      → ((next : Request) (r : Response) (b : Bool)
          → IsFinal b (follow_from equal_fold registry answer left next r b))
      → Step equal_fold registry answer left current resp away f
      → IsFinal away f
  unfolding IsFinal arrive off_origin_response
  IsFinal-step left current resp away _ h (stop x) r e = absurd (cc e)
  IsFinal-step left current resp away _ h (lost next _) r e = absurd (cc e)
  IsFinal-step left current resp away _ h (more next r' _) r e = h next r' _ r e
  IsFinal-step left current resp away _ h (last next r' _ final) r e =
      let (same, content) = arrive_final _ r' r e in rw (← same) (final, content)

  follow_from-IsFinal :
      (left : ℕ) (current : Request) (resp : Response) (away : Bool)
      → IsFinal away (follow_from equal_fold registry answer left current resp away)
  unfolding follow_from IsFinal
  follow_from-IsFinal zero current resp away = λ r k. absurd (cc k)
  follow_from-IsFinal (suc left) current resp away =
      IsFinal-step left current resp away _ (follow_from-IsFinal left)
        (follow_from-Step equal_fold registry answer left current resp away)

  -- A response that `follow` returns is no redirect, and either every request it sent stayed on the
  -- registry's origin or the response is the content or the range asked for (200 or 206): no other
  -- status of a storage host is ever taken for the registry's verdict.
  pub follow-content :
      (req : Request) (resp r : Response)
      → (follow equal_fold registry answer req resp).outcome ≡ inr r
      → (is_redirect r.status ≡ false)
        × ((any_away false (follow equal_fold registry answer req resp).sent ≡ false)
            ⊎ ((r.status ≡ 200) ⊎ (r.status ≡ 206)))
  unfolding follow IsFinal
  follow-content req resp r e =
      let (settled, content) = follow_from-IsFinal max_redirect_hops req resp false r e in
      (
        settled,
        elim (Bool-cases (any_away false (follow equal_fold registry answer req resp).sent)) [
          | inl away ↦ inr (content away)
          | inr home ↦ inl home
        ],
      )
