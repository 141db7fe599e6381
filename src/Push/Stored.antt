-- ===== src/Push/Stored.antt =====
-- When the workers of internal/transfer/push.go are done, every part is in the registry.
use bigoci.Prelude.{
  Bool-cases, Bytes, All, All-append, ℤ, ◌≡◌, refl, sym, ap, ◌∙◌, ◌⊎◌, inl, inr, Bool, true, false,
  not, ◌&&◌, Option, none, some, List, [], ◌∷◌, ◌++◌, append-nil, append_assoc, arith, lookup,
  lookup-insert, bytes_eq, bytes_eq_iff, bytes_eq_iff, Bool-cases, sym, append-nil, append_assoc,
  All-append, ap,
}
use bigoci.Errors.{GoError}
use mathlib.Core.Path.{subst}
use bigoci.Claims.{Claims, take, take_from, settle}
use bigoci.Retry.{World, Policy}
use bigoci.Retry.Done.{do_retry_done, any-IsKept}
use bigoci.Push.{
  Job, Ports, PutFailure, from_source, from_port, claim_job, settle_job, upload_attempts, attempt,
  TaggedEnd, tag_reads, fresh_tagged, put_ended, checked,
}
use bigoci.Push.Workers.{
  Push, is_among, without, Keeps, claimed_by, Step, taking, uploading, others, Steps, here, next,
  start,
}

-- What the Blobs port promises: a blob that Exists finds, or that Put has written, is stored.
pub record IsHonest {W : Type 0} (ports : Ports W) (stored : W → Bytes → Bool) : Type 0 where
  pub found : (d : Bytes) (w v : W) → ports.exists d w ≡ (inr true, v) → stored v d ≡ true
  pub placed :
      (d : Bytes) (size : ℤ) (reads : List (Bytes × TaggedEnd)) (w v : W)
      → ports.put d size reads w ≡ (none, v)
      → stored v d ≡ true

abbrev is_some {ℓ} : {A : Type ℓ} → Option A → Bool
is_some none = false
is_some (some x) = true

module _ {W : Type 0} (digest_of : Bytes → Bytes) (ports : Ports W) (stored : W → Bytes → Bool)
    (h : IsHonest ports stored) where
  put_ended_stored :
      (d : Bytes) (r : Option PutFailure × W) (v : W) (u : Bool)
      → (r.0 ≡ none → stored r.1 d ≡ true)
      → put_ended digest_of ports r ≡ (none, (v, u))
      → stored v d ≡ true
  put_ended_stored d (none, w) v u k e =
      subst (λ (x : W). stored x d ≡ true) (ap (λ (x : Option GoError × (W × Bool)). x.1.0) e)
        (k refl)
  put_ended_stored d (some (from_source x), w) v u k e = absurd (cc e)
  put_ended_stored d (some (from_port x), w) v u k e = absurd (cc e)

  checked_stored :
      (job : Job) (b : Bool) (r : (GoError ⊎ Bool) × W) (v : W) (u : Bool)
      → (r.0 ≡ inr true → stored r.1 job.dgst ≡ true)
      → checked digest_of ports job b r ≡ (none, (v, u))
      → stored v job.dgst ≡ true
  checked_stored job b (inl x, w) v u k e = absurd (cc e)
  checked_stored job b (inr true, w) v u k e =
      subst (λ (x : W). stored x job.dgst ≡ true)
        (ap (λ (x : Option GoError × (W × Bool)). x.1.0) e) (k refl)
  checked_stored job b (inr false, w) v u k e =
      put_ended_stored job.dgst (ports.put job.dgst job.part.size _ w) v u
        (λ n. h.placed job.dgst job.part.size _ w _ (λ i. (
          n i,
          (ports.put job.dgst job.part.size
              (tag_reads digest_of job.dgst job.part.size (ports.section job.part w) fresh_tagged)
              w).1,
        )))
        e

  attempt_stored :
      (job : Job) (w v : W) (b u : Bool)
      → attempt digest_of ports job (w, b) ≡ (none, (v, u))
      → stored v job.dgst ≡ true
  unfolding attempt
  attempt_stored job w v b u e =
      checked_stored job b (ports.exists job.dgst w) v u
        (λ n. h.found job.dgst w _ (λ i. (n i, (ports.exists job.dgst w).1))) e

  -- attempts that return nil leave the part in the registry
  upload_attempts_stored :
      (world : World (W × Bool)) (policy : Policy (W × Bool)) (job : Job) (w v : W) (u : Bool)
      → upload_attempts digest_of ports world policy job w ≡ (none, (v, u))
      → stored v job.dgst ≡ true
  unfolding upload_attempts
  upload_attempts_stored world policy job w v u e =
      let ((x, b), g, k) =
        do_retry_done (λ y. Unit {0}) world (attempt digest_of ports job) policy (w, false) (v, u)
          (any-IsKept world _ _) tt e in
      attempt_stored job x v b u k

-- Every digest that is claimed is being uploaded or stored, and every part taken is claimed.
record IsRunning {W : Type 0} (stored : W → Bytes → Bool) (jobs : List Job) (s : Push W)
    : Type 0 where
  covered :
      (d : Bytes)
      → is_some (lookup d s.claims) ≡ true
      → (is_among d s.busy ≡ true) ⊎ (stored s.world d ≡ true)
  claimed : All (λ (j : Job). is_some (lookup j.dgst s.claims) ≡ true) s.taken
  whole : s.taken ++ s.queue ≡ jobs

among_without :
    (d e : Bytes) (l : List Bytes) → is_among d (without e l) ≡ (is_among d l && not (bytes_eq e d))
unfolding is_among without
among_without d e [] = refl
among_without d e (x ∷ l) =
    ground (arith, among_without d e l, bytes_eq_iff x e, bytes_eq_iff x d, bytes_eq_iff e d)

start-IsRunning :
    {W : Type 0} (stored : W → Bytes → Bool) (w : W) (jobs : List Job)
    → IsRunning stored jobs (start w jobs)
unfolding lookup
start-IsRunning stored w jobs = record {
  covered = λ d e. absurd (cc e);
  claimed = tt;
  whole = refl;
}

module _ {W : Type 0} (digest_of : Bytes → Bytes) (ports : Ports W) (world : World (W × Bool))
    (policy : Policy (W × Bool)) (stored : W → Bytes → Bool) (h : IsHonest ports stored)
    (jobs : List Job) where
  others-IsRunning :
      (s : Push W) (w : W)
      → Keeps stored s.world w
      → IsRunning stored jobs s
      → IsRunning stored jobs (record s { world = w })
  others-IsRunning s w k r = record {
    covered = λ d e. elim (r.covered d e) [ inl b ↦ inl b | inr x ↦ inr (k d x) ];
    claimed = r.claimed;
    whole = r.whole;
  }

  taking_covered :
      (job : Job) (s : Push W) (d : Bytes)
      → IsRunning stored jobs s
      → let t = claimed_by job s.queue (claim_job job s.claims) s in
        is_some (lookup d t.claims) ≡ true → (is_among d t.busy ≡ true) ⊎ (stored t.world d ≡ true)
  unfolding claim_job take take_from is_among
  taking_covered job s d r e = ground (
    arith,
    e,
    r.covered d,
    r.covered job.dgst,
    lookup-insert job.dgst d (take_from (lookup job.dgst s.claims)).2 s.claims,
    bytes_eq_iff job.dgst d,
  )

  still_claimed :
      (job : Job) (claims : Claims) (l : List Job)
      → All (λ (j : Job). is_some (lookup j.dgst claims) ≡ true) l
      → All (λ (j : Job). is_some (lookup j.dgst (claim_job job claims).2) ≡ true) l
  unfolding claim_job take take_from
  still_claimed job claims [] c = tt
  still_claimed job claims (j ∷ l) (c, cs) = (
    ground (arith, c, lookup-insert job.dgst j.dgst (take_from (lookup job.dgst claims)).2 claims),
    still_claimed job claims l cs,
  )

  now_claimed :
      (job : Job) (claims : Claims) → is_some (lookup job.dgst (claim_job job claims).2) ≡ true
  unfolding claim_job take
  now_claimed job claims = ground (
    arith,
    lookup-insert job.dgst job.dgst (take_from (lookup job.dgst claims)).2 claims,
    bytes_eq_iff job.dgst job.dgst,
  )

  taking-IsRunning :
      (job : Job) (rest : List Job) (s : Push W)
      → s.queue ≡ job ∷ rest
      → IsRunning stored jobs s
      → IsRunning stored jobs (claimed_by job rest (claim_job job s.claims) s)
  taking-IsRunning job rest s q r = record {
    covered = λ d e. taking_covered job s d r e;
    claimed =
        All-append _ s.taken (job ∷ []) (still_claimed job s.claims s.taken r.claimed)
          (now_claimed job s.claims, tt);
    whole = append_assoc s.taken (job ∷ []) rest ∙ ap (λ l. s.taken ++ l) (sym q) ∙ r.whole;
  }

  settled_covered :
      (job : Job) (u : W) (uploaded : Bool) (s : Push W) (d : Bytes)
      → IsRunning stored jobs s
      → stored u job.dgst ≡ true
      → Keeps stored s.world u
      → is_some (lookup d (settle_job job uploaded s.claims).1) ≡ true
      → (is_among d (without job.dgst s.busy) ≡ true) ⊎ (stored u d ≡ true)
  unfolding settle_job settle
  settled_covered job u uploaded s d r p k e = elim (Bool-cases (bytes_eq job.dgst d)) [
    | inl q ↦ inr (subst (λ (x : Bytes). stored u x ≡ true) ((bytes_eq_iff job.dgst d).0 q) p)
    | inr q ↦
        let was : is_some (lookup d s.claims) ≡ true =
          ground
            (arith, e, lookup-insert job.dgst d (record { done = true; waiting = 0 }) s.claims) in
        elim (r.covered d was) [
          | inl b ↦ inl (ground (arith, among_without d job.dgst s.busy, b))
          | inr x ↦ inr (k d x)
        ]
  ]

  claimed_settled :
      (job : Job) (uploaded : Bool) (claims : Claims) (l : List Job)
      → All (λ (j : Job). is_some (lookup j.dgst claims) ≡ true) l
      → All (λ (j : Job). is_some (lookup j.dgst (settle_job job uploaded claims).1) ≡ true) l
  unfolding settle_job settle
  claimed_settled job uploaded claims [] c = tt
  claimed_settled job uploaded claims (j ∷ l) (c, cs) = (
    ground (arith, c, lookup-insert job.dgst j.dgst (record { done = true; waiting = 0 }) claims),
    claimed_settled job uploaded claims l cs,
  )

  step-IsRunning :
      {s t : Push W}
      → Step digest_of ports world policy stored s t
      → IsRunning stored jobs s
      → IsRunning stored jobs t
  step-IsRunning {s} (taking job rest q) r = taking-IsRunning job rest s q r
  step-IsRunning {s} (others w k) r = others-IsRunning s w k r
  step-IsRunning {s} (uploading job w v u uploaded b e k old) r = record {
    covered = λ d c.
        settled_covered job u uploaded s d r
          (k job.dgst
            (upload_attempts_stored digest_of ports stored h world policy job w v uploaded e))
          old c;
    claimed = claimed_settled job uploaded s.claims s.taken r.claimed;
    whole = r.whole;
  }

  steps-IsRunning :
      {s t : Push W}
      → Steps digest_of ports world policy stored s t
      → IsRunning stored jobs s
      → IsRunning stored jobs t
  steps-IsRunning here r = r
  steps-IsRunning (next q m) r = step-IsRunning m (steps-IsRunning q r)

  All-stored :
      (s : Push W) (l : List Job)
      → IsRunning stored jobs s
      → s.busy ≡ []
      → All (λ (j : Job). is_some (lookup j.dgst s.claims) ≡ true) l
      → All (λ (j : Job). stored s.world j.dgst ≡ true) l
  unfolding is_among
  All-stored s [] r b c = tt
  All-stored s (j ∷ l) r b (c, cs) = (
    elim (r.covered j.dgst c) [
      | inl x ↦ absurd (cc (subst (λ (k : List Bytes). is_among j.dgst k ≡ true) b x))
      | inr x ↦ x
    ],
    All-stored s l r b cs,
  )

  -- However the workers of a push interleave, with each other and with others on the registry, and
  -- whatever fails and is attempted again, where the port keeps its promises and the registry loses
  -- nothing: once the queue is empty and no upload is under way, every part of the file is stored,
  -- those that were skipped for an equal part included.
  pub steps-stored :
      (w : W) (t : Push W)
      → Steps digest_of ports world policy stored (start w jobs) t
      → t.queue ≡ []
      → t.busy ≡ []
      → All (λ (j : Job). stored t.world j.dgst ≡ true) jobs
  steps-stored w t q e b =
      let r : IsRunning stored jobs t = steps-IsRunning q (start-IsRunning stored w jobs) in
      let all : t.taken ≡ jobs =
        sym (append-nil t.taken) ∙ ap (λ (l : List Job). t.taken ++ l) (sym e) ∙ r.whole in
      subst (λ (l : List Job). All (λ (j : Job). stored t.world j.dgst ≡ true) l) all
        (All-stored t t.taken r b r.claimed)
