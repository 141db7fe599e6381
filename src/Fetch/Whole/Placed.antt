-- ===== src/Fetch/Whole/Placed.antt =====
-- A part that `fetch` accepts is in its range of the file, found there or fetched.
use bigoci.Prelude.{
  Bytes, length, ℤ, ℕ, ◌≡◌, refl, ap, ◌⊎◌, inl, inr, Bool, true, false, Option, none, some, arith,
  bytes_eq_iff, bytes_eq_iff, ap,
}
use bigoci.Errors.{GoError}
use mathlib.Core.Path.{subst}
use bigoci.Fetch.{Fetch, attempt, rewind}
use bigoci.Fetch.Verified.{IsAligned, is_taken, rewind-IsAligned, answered-IsAligned, answered-none}
use bigoci.Fetch.Whole.{Ports, scanned, compared, verify, try_once, fetch_all, fetch_rest, fetch}
use bigoci.Retry.{World, Policy, normalized}
use bigoci.Retry.Done.{IsKept, do_retry_done}

-- The context, the sleep and the random source leave the part alone.
pub record IsApart {V : Type 0} (world : World (V × Fetch)) (policy : Policy (V × Fetch))
    : Type 0 where
  pub looks : (w : V × Fetch) → (world.ctx_err w).1.1 ≡ w.1
  pub sleeps : (d : ℤ) (w : V × Fetch) → ((normalized world policy).sleep d w).1.1 ≡ w.1
  pub draws : (d : ℤ) (w : V × Fetch) → ((normalized world policy).rand d w).1.1 ≡ w.1

module _ (digest_of : Bytes → Bytes) {V : Type 0} (ports : Ports V) (size : ℕ) (dgst : Bytes)
    (taken : (d : Bytes) (n : ℕ) (v : V) → is_taken (ports.get d n v).0 ≡ true)
    (world : World (V × Fetch)) (policy : Policy (V × Fetch)) (apart : IsApart world policy) where
  abbrev InLine : V × Fetch → Type 0
  InLine w = IsAligned size w.1

  attempts-IsKept :
      IsKept InLine world (normalized world policy) (try_once digest_of ports size dgst)
  unfolding try_once attempt
  attempts-IsKept = record {
    looks = λ w h. rw (apart.looks w) h;
    sleeps = λ d w h. rw (apart.sleeps d w) h;
    draws = λ d w h. rw (apart.draws d w) h;
    acts = λ w h.
        answered-IsAligned digest_of size dgst (rewind size w.1) _ (rewind-IsAligned size w.1 h)
          (taken dgst (rewind size w.1).done w.0);
  }

  -- what a part is, once it is in place
  abbrev pub IsPlaced : Fetch → Type 0
  IsPlaced f = (digest_of f.range ≡ dgst) × (length f.range ≡ size)

  try_once-IsPlaced :
      (w : V × Fetch) (v : V) (f : Fetch)
      → IsAligned size w.1
      → try_once digest_of ports size dgst w ≡ (none, (v, f))
      → IsPlaced f
  unfolding try_once attempt
  try_once-IsPlaced w v f h e =
      subst IsPlaced (ap (λ (r : Option GoError × (V × Fetch)). r.1.1) e) (
        answered-none digest_of size dgst (rewind size w.1) _ (rewind-IsAligned size w.1 h)
          (ap (λ (r : Option GoError × (V × Fetch)). r.0) e))

  fetch_all-IsPlaced :
      (w : V × Fetch) (v : V) (f : Fetch)
      → length w.1.range ≡ size
      → fetch_all digest_of ports world policy size dgst w ≡ (none, (v, f))
      → IsPlaced f
  unfolding fetch_all
  fetch_all-IsPlaced w v f l e =
      let start : IsAligned size (record w.1 { done = 0 }) = record {
        inside = omega arith;
        sized = l;
        agree = inl refl;
      } in
      let (x, h, k) =
        do_retry_done InLine world (try_once digest_of ports size dgst) policy _ (v, f)
          attempts-IsKept start e in
      try_once-IsPlaced x v f h k

  rest-IsPlaced :
      (r : (GoError ⊎ Bool) × (V × Fetch)) (v : V) (f : Fetch)
      → length r.1.1.range ≡ size
      → (r.0 ≡ inr true → IsPlaced r.1.1)
      → fetch_rest digest_of ports world policy size dgst r ≡ (none, (v, f))
      → IsPlaced f
  rest-IsPlaced (inl x, w) v f l k e = absurd (cc e)
  rest-IsPlaced (inr true, w) v f l k e =
      subst IsPlaced (ap (λ (r : Option GoError × (V × Fetch)). r.1.1) e) (k refl)
  rest-IsPlaced (inr false, w) v f l k e = fetch_all-IsPlaced w v f l e

  verified-IsPlaced :
      (w : V × Fetch)
      → (verify digest_of ports size dgst w).0 ≡ inr true
      → IsPlaced (verify digest_of ports size dgst w).1.1
  unfolding verify
  verified-IsPlaced w e = compared_placed (ports.scan w.0).0 e
    where
      compared_placed :
          (stop : Option (ℕ × GoError))
          → compared digest_of ports size dgst stop (scanned stop w.1.range) ≡ inr true
          → IsPlaced w.1
      compared_placed none k = ground (arith, k, bytes_eq_iff (digest_of w.1.range) dgst)
      compared_placed (some (n, x)) k = absurd (cc k)

  -- Whatever the registry answers, over all attempts, with or without a partial file to resume from,
  -- as long as the sink takes every byte that arrives: where `fetch` returns nil, the part's range of
  -- the file holds exactly the part's size of bytes, and their digest is the one in the manifest.
  pub fetch-IsPlaced :
      (resume : Bool) (w : V × Fetch) (v : V) (f : Fetch)
      → length w.1.range ≡ size
      → fetch digest_of ports world policy resume size dgst w ≡ (none, (v, f))
      → IsPlaced f
  unfolding fetch
  fetch-IsPlaced false w v f l e = fetch_all-IsPlaced w v f l e
  fetch-IsPlaced true w v f l e =
      rest-IsPlaced (verify digest_of ports size dgst w) v f (unfold verify in l)
        (verified-IsPlaced w) e
