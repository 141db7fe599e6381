-- ===== src/Push/Publish/Ordered.antt =====
-- internal/transfer/push.go behind the workers: the empty config blob and then the manifest. The
-- manifest port, the text of a manifest and the descriptor of the empty config are parameters.
use bigoci.Prelude.{
  Bytes, length, All, pos, ◌≡◌, refl, ap, ◌⊎◌, inl, inr, Bool, true, false, Option, none, some,
  List, [], ◌∷◌, ap,
}
use bigoci.Errors.{GoError, context}
use bigoci.Retry.{World, Policy, normalized, do_retry}
use bigoci.Retry.Done.{IsKept, do_retry_done}
use mathlib.Core.Path.{subst}
use bigoci.Push.{Ports, PutFailure, from_source, from_port, ended}
use bigoci.Push.Stored.{IsHonest}

abbrev cause_of : PutFailure → GoError
cause_of (from_source e) = e
cause_of (from_port e) = e

module _ {W : Type 0} (ports : Ports W) (config content : Bytes) where
  abbrev config_put : Option PutFailure × W → Option GoError × W
  config_put (none, w) = (none, w)
  config_put (some e, w) = (some (context "upload the empty config blob" (cause_of e)), w)

  abbrev config_checked : (GoError ⊎ Bool) × W → Option GoError × W
  config_checked (inl e, w) = (some (context "check whether the empty config blob exists" e), w)
  config_checked (inr true, w) = (none, w)
  config_checked (inr false, w) =
      config_put (ports.put config (pos (length content)) ((content, ended) ∷ []) w)

  -- the operation of `ensureEmptyConfig`
  unfoldable pub config_attempt : W → Option GoError × W
  config_attempt w = config_checked (ports.exists config w)

  -- `ensureEmptyConfig`
  unfoldable pub ensure_empty_config : World W → Policy W → W → Option GoError × W
  ensure_empty_config world policy w = do_retry world policy config_attempt w

module _ {W : Type 0} (put : Bytes → W → (GoError ⊎ Bytes) × W) where
  abbrev written : Bytes → (GoError ⊎ Bytes) × W → Option GoError × (W × Bytes)
  written held (inl e, w) = (some (context "write the manifest" e), (w, held))
  written held (inr dgst, w) = (none, (w, dgst))

  -- the operation of `writeManifest`, on the world and the digest that its closure holds
  unfoldable pub manifest_attempt : Bytes → W × Bytes → Option GoError × (W × Bytes)
  manifest_attempt body (w, held) = written held (put body w)

  abbrev described : Option GoError × (W × Bytes) → (GoError ⊎ Bytes) × W
  described (some e, (w, dgst)) = (inl e, w)
  described (none, (w, dgst)) = (inr dgst, w)

  -- `writeManifest` behind the encoding of the artifact
  unfoldable pub write_body :
      World (W × Bytes) → Policy (W × Bytes) → Bytes → W → (GoError ⊎ Bytes) × W
  write_body world policy body w = described (do_retry world policy (manifest_attempt body) (w, []))

  abbrev encoded :
      World (W × Bytes) → Policy (W × Bytes) → GoError ⊎ Bytes → W → (GoError ⊎ Bytes) × W
  encoded world policy (inl e) w = (inl (context "encode the manifest" e), w)
  encoded world policy (inr body) w = write_body world policy body w

  abbrev pub ensured :
      World (W × Bytes)
      → Policy (W × Bytes)
      → GoError ⊎ Bytes
      → Option GoError × W
      → (GoError ⊎ Bytes) × W
  ensured world policy text (some e, w) = (inl e, w)
  ensured world policy text (none, w) = encoded world policy text w

-- the registry holds all the blobs
abbrev pub Holds : {W : Type 0} → (W → Bytes → Bool) → List Bytes → W → Type 0
Holds stored needed w = All (λ (d : Bytes). stored w d ≡ true) needed

-- `push` behind the workers, on the text of the manifest or the failure to encode it
unfoldable pub publish :
    {W : Type 0}
    → Ports W
    → Bytes
    → Bytes
    → (Bytes → W → (GoError ⊎ Bytes) × W)
    → World W
    → Policy W
    → World (W × Bytes)
    → Policy (W × Bytes)
    → GoError ⊎ Bytes
    → W
    → (GoError ⊎ Bytes) × W
publish ports config content put world policy world' policy' text w =
    ensured put world' policy' text (ensure_empty_config ports config content world policy w)

module _ {W : Type 0} (ports : Ports W) (config content : Bytes)
    (put : Bytes → W → (GoError ⊎ Bytes) × W) (world : World W) (policy : Policy W)
    (world' : World (W × Bytes)) (policy' : Policy (W × Bytes)) (stored : W → Bytes → Bool)
    (h : IsHonest ports stored)
    (kept : (needed : List Bytes)
      → IsKept
          (Holds stored needed)
          world
          (normalized world policy)
          (config_attempt ports config content))
    (kept' : (needed : List Bytes) (body : Bytes)
      → IsKept
          (λ (x : W × Bytes). Holds stored needed x.0)
          world'
          (normalized world' policy')
          (manifest_attempt put body)) where
  config_put_stored :
      (r : Option PutFailure × W) (v : W)
      → (r.0 ≡ none → stored r.1 config ≡ true)
      → config_put ports config content r ≡ (none, v)
      → stored v config ≡ true
  config_put_stored (none, w) v k e =
      subst (λ (x : W). stored x config ≡ true) (ap (λ (r : Option GoError × W). r.1) e) (k refl)
  config_put_stored (some x, w) v k e = absurd (cc e)

  config_checked_stored :
      (r : (GoError ⊎ Bool) × W) (v : W)
      → (r.0 ≡ inr true → stored r.1 config ≡ true)
      → config_checked ports config content r ≡ (none, v)
      → stored v config ≡ true
  config_checked_stored (inl x, w) v k e = absurd (cc e)
  config_checked_stored (inr true, w) v k e =
      subst (λ (x : W). stored x config ≡ true) (ap (λ (r : Option GoError × W). r.1) e) (k refl)
  config_checked_stored (inr false, w) v k e =
      config_put_stored (ports.put config (pos (length content)) ((content, ended) ∷ []) w) v
        (λ n.
          h.placed config _ _ w _
            (λ i. (n i, (ports.put config (pos (length content)) ((content, ended) ∷ []) w).1)))
        e

  config_attempt_stored :
      (w v : W) → config_attempt ports config content w ≡ (none, v) → stored v config ≡ true
  unfolding config_attempt
  config_attempt_stored w v e =
      config_checked_stored (ports.exists config w) v
        (λ n. h.found config w _ (λ i. (n i, (ports.exists config w).1))) e

  ensured_config :
      (needed : List Bytes) (w v : W)
      → Holds stored needed w
      → ensure_empty_config ports config content world policy w ≡ (none, v)
      → Holds stored (config ∷ needed) v
  unfolding ensure_empty_config
  ensured_config needed w v g e =
      let (x, q, k) =
        do_retry_done (Holds stored needed) world (config_attempt ports config content) policy w v
          (kept needed) g e in
      (
        config_attempt_stored x v k,
        subst (λ (y : Option GoError × W). Holds stored needed y.1) k ((kept needed).acts x q),
      )

  written_put :
      (held body : Bytes) (r : (GoError ⊎ Bytes) × W) (v : W) (d : Bytes)
      → written put held r ≡ (none, (v, d))
      → r ≡ (inr d, v)
  written_put held body (inl e, w) v d q = absurd (cc q)
  written_put held body (inr x, w) v d q = λ i. (inr (q i).1.1, (q i).1.0)

  described_done :
      (r : Option GoError × (W × Bytes)) (v : W) (d : Bytes)
      → described put r ≡ (inr d, v)
      → r ≡ (none, (v, d))
  described_done (some e, (w, x)) v d q = absurd (cc q)
  described_done (none, (w, x)) v d q =
      let first : ◌≡◌ {A = GoError ⊎ Bytes} (inr x) (inr d) =
        ap (λ (r : (GoError ⊎ Bytes) × W). r.0) q in
      let same : x ≡ d = cc first in λ i. (none, ((q i).1, same i))

  write_body_done :
      (needed : List Bytes) (body : Bytes) (w v : W) (d : Bytes)
      → Holds stored needed w
      → write_body put world' policy' body w ≡ (inr d, v)
      → (x : W) × Holds stored needed x × (put body x ≡ (inr d, v))
  unfolding write_body manifest_attempt
  write_body_done needed body w v d g e =
      let ((x, held), q, k) =
        do_retry_done (λ (y : W × Bytes). Holds stored needed y.0) world'
          (manifest_attempt put body) policy' (w, []) (v, d) (kept' needed body) g
          (described_done (do_retry world' policy' (manifest_attempt put body) (w, [])) v d e) in
      (x, q, written_put held body (put body x) v d k)

  ensured_done :
      (needed : List Bytes) (text : GoError ⊎ Bytes) (r : Option GoError × W) (v : W) (d : Bytes)
      → (r.0 ≡ none → Holds stored needed r.1)
      → ensured put world' policy' text r ≡ (inr d, v)
      → (x : W) × (body : Bytes) × Holds stored needed x
        × (text ≡ inr body)
        × (put body x ≡ (inr d, v))
  ensured_done needed text (some e, w) v d g q = absurd (cc q)
  ensured_done needed (inl e) (none, w) v d g q = absurd (cc q)
  ensured_done needed (inr body) (none, w) v d g q =
      let (x, held, k) = write_body_done needed body w v d (g refl) q in (x, body, held, refl, k)

  -- Where a push returns a digest behind its workers, it has put the text of the manifest, and the
  -- world that put it, under whatever attempts, held the empty config blob and every blob that was
  -- there when the workers were done; the port keeps its promises and the registry loses nothing.
  pub publish-Holds :
      (needed : List Bytes) (text : GoError ⊎ Bytes) (w v : W) (d : Bytes)
      → Holds stored needed w
      → publish ports config content put world policy world' policy' text w ≡ (inr d, v)
      → (x : W) × (body : Bytes) × Holds stored (config ∷ needed) x
        × (text ≡ inr body)
        × (put body x ≡ (inr d, v))
  unfolding publish
  publish-Holds needed text w v d g e =
      let r : Option GoError × W = ensure_empty_config ports config content world policy w in
      ensured_done (config ∷ needed) text r v d
        (λ n. ensured_config needed w r.1 g (λ i. (n i, r.1))) e
