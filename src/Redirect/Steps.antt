-- ===== src/Redirect/Steps.antt =====
-- The loop of `follow` by one hop.
use bigoci.Prelude.{
  if◌then◌else◌, Bool-cases, Option-cases, Bytes, ℕ, suc, ◌≡◌, inl, inr, Bool, false, Option, none,
  some, [], arith, sum-cases,
}
use bigoci.Redirect.{
  Url, Request, Response, RedirectError, Followed, refused, transport, after, is_redirect, next_hop,
  is_away, arrive, follow_from,
}

module _ (equal_fold : Bytes → Bytes → Bool) (registry : Url)
    (answer : ℕ → Request → Option Response) where
  abbrev loop : ℕ → Request → Response → Bool → Followed
  loop left current resp away = follow_from equal_fold registry answer left current resp away

  -- How one hop ends: refused before it is sent, lost, redirected again, or arrived.
  pub data Step (left : ℕ) (current : Request) (resp : Response) (away : Bool)
      : Followed → Type 0 where
    stop : (x : RedirectError) → Step left current resp away (refused x)
    lost :
        (next : Request)
        → next_hop equal_fold registry.scheme current resp away ≡ inr next
        → Step left current resp away (after next (refused transport))
    more :
        (next : Request) (r : Response)
        → next_hop equal_fold registry.scheme current resp away ≡ inr next
        → Step left current resp away
            (after next (loop left next r (is_away equal_fold registry answer away next)))
    last :
        (next : Request) (r : Response)
        → next_hop equal_fold registry.scheme current resp away ≡ inr next
        → is_redirect r.status ≡ false
        → Step left current resp away (
            after next (record {
              sent = [];
              outcome =
                  arrive equal_fold registry answer
                    (is_away equal_fold registry answer away next)
                    r;
            }))

  loop_stop :
      (left : ℕ) (current : Request) (resp : Response) (away : Bool) (x : RedirectError)
      → next_hop equal_fold registry.scheme current resp away ≡ inl x
      → loop (suc left) current resp away ≡ refused x
  unfolding follow_from
  loop_stop left current resp away x e = ground (arith, e)

  loop_lost :
      (left : ℕ) (current next : Request) (resp : Response) (away : Bool)
      → next_hop equal_fold registry.scheme current resp away ≡ inr next
      → answer left next ≡ none
      → loop (suc left) current resp away ≡ after next (refused transport)
  unfolding follow_from
  loop_lost left current next resp away e k = ground (arith, e, k)

  loop-answer :
      (left : ℕ) (current next : Request) (resp r : Response) (away : Bool)
      → next_hop equal_fold registry.scheme current resp away ≡ inr next
      → answer left next ≡ some r
      → loop (suc left) current resp away ≡ (
          if is_redirect r.status
          then after next (loop left next r (is_away equal_fold registry answer away next))
          else after next (record {
            sent = [];
            outcome =
                arrive equal_fold registry answer (is_away equal_fold registry answer away next) r;
          }))
  unfolding follow_from
  loop-answer left current next resp r away e k = ground (arith, e, k)

  pub follow_from-Step :
      (left : ℕ) (current : Request) (resp : Response) (away : Bool)
      → Step left current resp away (loop (suc left) current resp away)
  follow_from-Step left current resp away =
      elim (sum-cases (next_hop equal_fold registry.scheme current resp away)) [
        | inl (x, e) ↦ rw (loop_stop left current resp away x e) (stop x)
        | inr (next, e) ↦ elim (Option-cases (answer left next)) [
          | inl k ↦ rw (loop_lost left current next resp away e k) (lost next e)
          | inr (r, k) ↦
              rw (loop-answer left current next resp r away e k)
                (elim (Bool-cases (is_redirect r.status)) [
                  | inl again ↦ rw again (more next r e)
                  | inr final ↦ rw final (last next r e final)
                ])
        ]
      ]
