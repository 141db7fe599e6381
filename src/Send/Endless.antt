-- ===== src/Send/Endless.antt =====
-- A registry that internal/oci/repository.go never stops asking.
use bigoci.Prelude.{
  Bool-cases, Bytes, ℤ, ℕ, zero, suc, ◌≡◌, refl, sym, ◌≢◌, ◌⊎◌, inl, inr, Bool, true, false, some,
  List, [], ◌∷◌, arith, lookup, bytes_eq, bytes_eq_iff, bytes_eq_iff, Bool-cases,
}
use mathlib.Core.Path.{subst}
use bigoci.Errors.{GoError, status_error}
use bigoci.Challenge.{Challenge, parse_challenge, ok}
use bigoci.Redirect.{get, Url, Request, Response, is_redirect}
use bigoci.Auth.{
  challenged_by, unproven, proven, Entry, AuthState, exchange, refused, answered, is_refusal,
  minted, finish, put, prove, prove_all, begin,
}
use bigoci.Auth.Stampede.{refused_begins, begun_mapped, minted_held, minted_entries}
use bigoci.Auth.Flight.Kept.{prove_all_lem}
use bigoci.Auth.Scopes.{scope_for}
use bigoci.Send.{
  Network, no_body, exhausted, settle, mint, replay_with, answer_challenge, answer_with, accepted,
  send, send_with, replayable, with_header, carried, decided, chased,
}

-- the entry of the key holds the header, and it is not known to be refused
pub record IsHeld (key header : Bytes) (a : AuthState) : Type 0 where
  pub id : ℕ
  pub mapped : lookup key a.entries ≡ some id
  pub same : (a.heap id).header ≡ header
  pub trusted : ((a.heap id).state ≡ unproven) ⊎ ((a.heap id).state ≡ proven)

-- an entry that `answered` has gone over
prove_all_proven :
    (header : Bytes) (m : List (Bytes × ℕ)) (heap : ℕ → Entry) (i : ℕ)
    → (heap i).state ≡ proven
    → (prove_all header m heap i).state ≡ proven
unfolding prove_all
prove_all_proven header [] heap i h = h
prove_all_proven header ((k, id) ∷ m) heap i h =
    prove_all_proven header m (put heap id (prove header (heap id))) i (ground (arith, h))

-- what the step of that loop leaves of an entry that the header stands for
prove_step :
    (header : Bytes) (heap : ℕ → Entry) (id i : ℕ)
    → (heap i).header ≡ header
    → ((heap i).state ≡ unproven) ⊎ ((heap i).state ≡ proven)
    → let e = put heap id (prove header (heap id)) i in
      (e.header ≡ header)
      × ((e.state ≡ unproven) ⊎ (e.state ≡ proven))
      × ((e.state ≡ proven) ⊎ (id ≢ i))
prove_step header heap id i e t = ground (arith, bytes_eq_iff (heap i).header header, e, t)

answered_proves :
    (key header : Bytes) (m : List (Bytes × ℕ)) (heap : ℕ → Entry) (i : ℕ)
    → lookup key m ≡ some i
    → (heap i).header ≡ header
    → ((heap i).state ≡ unproven) ⊎ ((heap i).state ≡ proven)
    → (prove_all header m heap i).state ≡ proven
unfolding prove_all lookup
answered_proves key header [] heap i h e t = absurd (cc h)
answered_proves key header ((k, id) ∷ m) heap i h e t =
    let (same, trusted, settled) = prove_step header heap id i e t in
    elim (Bool-cases (bytes_eq k key)) [
      | inl q ↦
          prove_all_proven header m (put heap id (prove header (heap id))) i
            (ground (arith, h, settled))
      | inr q ↦
          answered_proves key header m (put heap id (prove header (heap id))) i (ground (arith, h))
            same trusted
    ]

-- the tokens once a redirect has been answered
answered_held :
    (key header : Bytes) (a : AuthState) (v : IsHeld key header a)
    → header ≢ []
    → (lookup key (answered header a).entries ≡ some v.id)
      × (((answered header a).heap v.id).state ≡ proven)
      × (((answered header a).heap v.id).header ≡ header)
unfolding answered
answered_held key header a v n = ground (
  arith,
  v.mapped,
  v.same,
  bytes_eq_iff header [],
  answered_proves key header a.entries a.heap v.id v.mapped v.same v.trusted,
  prove_all_lem header a.entries a.heap v.id,
)

module _ {W : Type 0} (net : Network W) (equal_fold : Bytes → Bytes → Bool) (registry : Url)
    (name header : Bytes) (asked : Challenge) (lifetime : ℤ) (answer target : Response)
    (redirects : is_redirect answer.status ≡ true) (refuses : is_refusal target.status ≡ true)
    (challenges : parse_challenge target.challenges ≡ some (ok asked))
    (named : bytes_eq target.challenges [] ≡ false) (present_header : header ≢ [])
    (sends : (r : Request) (w : W) (a : AuthState) → net.send r (w, a) ≡ (inr answer, w, a))
    (chases : (r : Request) (w : W)
      → r.method ≡ get
      → chased net equal_fold registry w r answer ≡ inr target)
    (hops : (w : W) (a : AuthState) → net.hopped (w, a) ≡ (w, a))
    (acquires : (c : Challenge) (w : W) (a : AuthState)
      → net.acquire c (w, a) ≡ (minted header lifetime, w, a)) where
  redirect_not_refusal : is_refusal answer.status ≡ false
  unfolding is_refusal is_redirect
  redirect_not_refusal = ground (arith, redirects)

  settle_mint :
      (key : Bytes) (w : W) (a : AuthState)
      → settle net key (exchange a.fresh asked) (w, (begin key a).1)
        ≡ (inr header, w, finish a.fresh key (net.clock w) (minted header lifetime) (begin key a).1)
  unfolding settle mint
  settle_mint key w a = rw (acquires asked w (begin key a).1) refl

  -- the tokens behind one more exchange
  again : Bytes → W → AuthState → AuthState
  again key w a =
      finish a.fresh key (net.clock w) (minted header lifetime)
        (begin key (challenged_by asked a)).1

  again-IsHeld : (key : Bytes) (w : W) (a : AuthState) → IsHeld key header (again key w a)
  unfolding again
  again-IsHeld key w a =
      let t : AuthState = challenged_by asked a in
      let (state, same) =
        minted_held key header asked (status_error 0) a.fresh (net.clock w) header lifetime
          (begin key t).1 in
      record {
        id = a.fresh;
        mapped =
            rw
              (minted_entries key header asked (status_error 0) a.fresh (net.clock w) header
                lifetime (begin key t).1)
              (begun_mapped key header asked (status_error 0) t);
        same = same;
        trusted = inl state;
      }

  -- one refusal of the target: the same header is minted again
  minted_again :
      (key : Bytes) (status : GoError) (w : W) (a : AuthState) (id : ℕ)
      → lookup key a.entries ≡ some id
      → (a.heap id).state ≡ proven
      → (a.heap id).header ≡ header
      → decided net key w (refused key header asked status a) ≡ (inr header, w, again key w a)
  unfolding begin again
  minted_again key status w a id m p h =
      rw (refused_begins key header asked status id a m p h)
        (settle_mint key w (challenged_by asked a))

  -- A registry that answers every request at its own origin with a redirect, and refuses the
  -- followed request with a challenge that the same header answers again, is never done with: a
  -- request for a method that is followed ends with no amount of fuel, so the program sends requests
  -- until its context ends.
  accepted-exhausted :
      (fuel : ℕ) (req : Request) (w : W) (a : AuthState)
      → req.method ≡ get
      → carried req ≡ header
      → IsHeld (scope_for req.method name) header a
      → accepted net equal_fold registry fuel name no_body req answer header w a ≡ exhausted
  unfolding accepted answer_with answer_challenge replay_with replayable
  accepted-exhausted zero req w a g c v = refl
  accepted-exhausted (suc fuel) req w a g c v =
      let key : Bytes = scope_for req.method name in
      let b : AuthState = answered header a in
      let (m, p, h) = answered_held key header a v present_header in
      rw (redirects, hops w b, chases req w g, refuses, named, challenges, c)
        (rw (minted_again key (status_error target.status) w b v.id m p h) (
          rw (sends (with_header header req) w (again key w b), redirect_not_refusal)
            (accepted-exhausted fuel (with_header header req) w (again key w b) g refl
              (again-IsHeld key w b))))

  -- The same of the whole call, for a request that carries the header.
  pub send_exhausted :
      (fuel : ℕ) (req : Request) (w : W) (a : AuthState)
      → req.method ≡ get
      → carried req ≡ header
      → IsHeld (scope_for req.method name) header a
      → send net equal_fold registry fuel name req no_body w a ≡ exhausted
  unfolding send send_with
  send_exhausted fuel req w a g c v =
      rw (sends req w a, redirect_not_refusal)
        (subst
          (λ (h : Bytes).
            accepted net equal_fold registry fuel name no_body req answer h w a ≡ exhausted)
          (sym c) (accepted-exhausted fuel req w a g c v))
