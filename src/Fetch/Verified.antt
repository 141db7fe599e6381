-- ===== src/Fetch/Verified.antt =====
-- A part that an attempt accepts is in the file, byte for byte.
use bigoci.Prelude.{
  ◌==◌, if◌then◌else◌, Bool-cases, Option-cases, Bytes, length, take, All, ℤ, pos, ◌==ℤ◌, ℕ, zero,
  suc, ◌+◌, ◌-◌, ◌≤◌, min, ◌≡◌, refl, sym, ap, ◌∙◌, ◌≢◌, ◌⊎◌, inl, inr, Bool, true, false, not,
  ◌&&◌, Option, none, some, List, [], ◌∷◌, ◌++◌, arith, bytes_eq_iff, bytes_eq_iff, Bool-cases, sym,
  ap,
}
use bigoci.Errors.{GoError}
use bigoci.Fetch.{
  Fetch, Refusal, Delivery, Answer, unavailable, stream_at, write_at, place, stream_end, stream,
  rewind, restart, check_digest, answered, attempt, attempts,
}

length-write_at : (k : ℕ) (bs r : Bytes) → length (write_at k bs r) ≡ length r
unfolding write_at
length-write_at k bs [] = refl
length-write_at zero [] (x ∷ r) = refl
length-write_at zero (b ∷ bs) (x ∷ r) = ap suc (length-write_at zero bs r)
length-write_at (suc k) bs (x ∷ r) = ap suc (length-write_at k bs r)

take-write_at :
    (k : ℕ) (bs r : Bytes)
    → k + length bs ≤ length r
    → take (k + length bs) (write_at k bs r) ≡ take k r ++ bs
unfolding write_at
take-write_at zero [] [] h = refl
take-write_at zero (b ∷ bs) [] h = absurd (omega arith)
take-write_at (suc k) bs [] h = absurd (omega arith)
take-write_at zero [] (x ∷ r) h = refl
take-write_at zero (b ∷ bs) (x ∷ r) h =
    let e : 0 + suc (length bs) ≡ suc (0 + length bs) = omega arith in
    rw e (ap (λ t. b ∷ t) (take-write_at zero bs r (omega arith)))
take-write_at (suc k) bs (x ∷ r) h =
    let e : suc k + length bs ≡ suc (k + length bs) = omega arith in
    rw e (ap (λ t. x ∷ t) (take-write_at k bs r (omega arith)))

length-take : (n : ℕ) (bs : Bytes) → length (take n bs) ≡ min n (length bs)
length-take zero bs = omega arith
length-take (suc n) [] = omega arith
length-take (suc n) (b ∷ bs) = omega (arith, length-take n bs)

take_all : (bs : Bytes) → take (length bs) bs ≡ bs
take_all [] = refl
take_all (b ∷ bs) = ap (λ t. b ∷ t) (take_all bs)

-- The hasher holds the first `done` bytes of the part's range, unless it is about to start over.
pub record IsAligned (size : ℕ) (s : Fetch) : Type 0 where
  pub inside : s.done ≤ size
  pub sized : length s.range ≡ size
  pub agree : (s.done ≡ 0) ⊎ (s.hashed ≡ take s.done s.range)

-- No byte of the answer is refused by the sink.
abbrev pub is_taken : Answer → Bool
is_taken (unavailable e) = true
is_taken (stream_at start d) = elim d.refusal [ none ↦ true | some r ↦ false ]

pub rewind-IsAligned : (size : ℕ) (s : Fetch) → IsAligned size s → IsAligned size (rewind size s)
unfolding rewind
rewind-IsAligned size s h = elim (Bool-cases (s.done == size)) [
  | inl full ↦ rw full (record { inside = omega arith; sized = h.sized; agree = inl refl })
  | inr short ↦ rw short h
]

-- From here on the hasher holds the bytes up to `done`, also where that is zero.
record IsExact (size : ℕ) (s : Fetch) : Type 0 where
  inside : s.done ≤ size
  sized : length s.range ≡ size
  exact : s.hashed ≡ take s.done s.range

reset_hash :
    (n : ℕ) (hashed range : Bytes)
    → (n ≡ 0) ⊎ (hashed ≡ take n range)
    → (if n == 0 then [] else hashed) ≡ take n range
reset_hash zero hashed range h = refl
reset_hash (suc n) hashed range (inl z) = absurd (omega arith)
reset_hash (suc n) hashed range (inr e) = ground (arith, e)

restart-IsExact :
    (size : ℕ) (start : ℤ) (s : Fetch) → IsAligned size s → IsExact size (restart start s)
unfolding restart
restart-IsExact size start s h = elim (Bool-cases (start ==ℤ pos 0)) [
  | inl z ↦ rw z (record { inside = omega arith; sized = h.sized; exact = refl })
  | inr nz ↦ rw nz (record {
    inside = h.inside;
    sized = h.sized;
    exact = reset_hash s.done s.hashed s.range h.agree;
  })
]

place-IsExact :
    (size : ℕ) (s : Fetch) (bs : Bytes)
    → IsExact size s
    → length bs ≤ size - s.done
    → IsExact size (place s bs)
unfolding place
place-IsExact size s bs h k = record {
  inside = omega (arith, h.inside);
  sized = length-write_at s.done bs s.range ∙ h.sized;
  exact =
      ap (λ t. t ++ bs) h.exact
      ∙ sym (take-write_at s.done bs s.range (omega (arith, h.inside, h.sized)));
}

stream_taken :
    (size : ℕ) (s : Fetch) (d : Delivery)
    → d.refusal ≡ none
    → stream size s d ≡ (stream_end (size - s.done) d, place s (take (size - s.done) d.body))
unfolding stream
stream_taken size s d e = ground (arith, e)

stream_refused :
    (size : ℕ) (s : Fetch) (d : Delivery) (r : Refusal)
    → d.refusal ≡ some r
    → (stream size s d).0 ≢ none
unfolding stream
stream_refused size s d r e = ground (arith, e)

stream-IsExact :
    (size : ℕ) (s : Fetch) (d : Delivery)
    → IsExact size s
    → d.refusal ≡ none
    → IsExact size (stream size s d).1
stream-IsExact size s d h e = rw (stream_taken size s d e) (
    place-IsExact size s (take (size - s.done) d.body) h
      (omega (arith, length-take (size - s.done) d.body)))

stream_end-none : (n : ℕ) (d : Delivery) → stream_end n d ≡ none → length d.body ≡ n
unfolding stream_end
stream_end-none n d e = ground (arith, e)

done-place : (s : Fetch) (bs : Bytes) → (place s bs).done ≡ s.done + length bs
unfolding place
done-place s bs = refl

-- A stream that ends well has brought the rest of the part, and no more.
stream-none :
    (size : ℕ) (s : Fetch) (d : Delivery)
    → IsExact size s
    → (stream size s d).0 ≡ none
    → IsExact size (stream size s d).1 × ((stream size s d).1.done ≡ size)
stream-none size s d h e = elim (Option-cases d.refusal) [
  | inr (r, k) ↦ absurd (stream_refused size s d r k e)
  | inl k ↦
      let all : length d.body ≡ size - s.done =
        stream_end-none (size - s.done) d (rw (stream_taken size s d k) at e) in
      let long : length (take (size - s.done) d.body) ≡ size - s.done =
        omega (arith, all, length-take (size - s.done) d.body) in
      (
        stream-IsExact size s d h k,
        rw (stream_taken size s d k)
            (done-place s (take (size - s.done) d.body) ∙ omega (arith, long, h.inside)),
      )
]

IsExact-IsAligned : (size : ℕ) (s : Fetch) → IsExact size s → IsAligned size s
IsExact-IsAligned size s h = record { inside = h.inside; sized = h.sized; agree = inr h.exact }

-- A full part is in the range as a whole.
IsExact-range : (size : ℕ) (s : Fetch) → IsExact size s → s.done ≡ size → s.hashed ≡ s.range
IsExact-range size s h e =
    let full : s.done ≡ length s.range = e ∙ sym h.sized in
    h.exact ∙ ap (λ n. take n s.range) full ∙ take_all s.range

module _ (digest_of : Bytes → Bytes) (size : ℕ) (dgst : Bytes) where
  state-check_digest : (o : Option GoError) (s : Fetch) → (check_digest digest_of dgst (o, s)).1 ≡ s
  unfolding check_digest
  state-check_digest (some e) s = refl
  state-check_digest none s = ground arith

  check_digest-none :
      (o : Option GoError) (s : Fetch)
      → (check_digest digest_of dgst (o, s)).0 ≡ none
      → (o ≡ none) × (digest_of s.hashed ≡ dgst)
  unfolding check_digest
  check_digest-none (some e) s h = absurd (cc h)
  check_digest-none none s h = (refl, ground (arith, h, bytes_eq_iff (digest_of s.hashed) dgst))

  pub answered-IsAligned :
      (s : Fetch) (a : Answer)
      → IsAligned size s
      → is_taken a ≡ true
      → IsAligned size (answered digest_of size dgst s a).1
  unfolding answered
  answered-IsAligned s (unavailable e) h t = h
  answered-IsAligned s (stream_at start d) h t =
      elim (Bool-cases (not (start ==ℤ pos 0) && not (start ==ℤ pos s.done))) [
        | inl bad ↦ rw bad h
        | inr good ↦
            let taken : d.refusal ≡ none = ground (arith, t) in
            let exact =
              stream-IsExact size (restart start s) d (restart-IsExact size start s h) taken in
            rw
              (
                good,
                state-check_digest (stream size (restart start s) d).0
                    (stream size (restart start s) d).1,
              )
              (IsExact-IsAligned size _ exact)
      ]

  pub answered-none :
      (s : Fetch) (a : Answer)
      → IsAligned size s
      → (answered digest_of size dgst s a).0 ≡ none
      → (digest_of (answered digest_of size dgst s a).1.range ≡ dgst)
        × (length (answered digest_of size dgst s a).1.range ≡ size)
  unfolding answered
  answered-none s (unavailable e) h k = absurd (cc k)
  answered-none s (stream_at start d) h k =
      elim (Bool-cases (not (start ==ℤ pos 0) && not (start ==ℤ pos s.done))) [
        | inl bad ↦ absurd (ground (arith, rw bad at k))
        | inr good ↦
            let t = restart start s in
            let (ended, matches) =
              check_digest-none (stream size t d).0 (stream size t d).1 (rw good at k) in
            let (exact, full) = stream-none size t d (restart-IsExact size start s h) ended in
            rw (good, state-check_digest (stream size t d).0 (stream size t d).1)
              (ap digest_of (sym (IsExact-range size _ exact full)) ∙ matches, exact.sized)
      ]

  attempts-IsAligned :
      (s : Fetch) (l : List Answer)
      → IsAligned size s
      → All (λ a. is_taken a ≡ true) l
      → IsAligned size (attempts digest_of size dgst s l)
  unfolding attempts attempt
  attempts-IsAligned s [] h t = h
  attempts-IsAligned s (a ∷ l) h (t, ts) =
      attempts-IsAligned (answered digest_of size dgst (rewind size s) a).1 l
        (answered-IsAligned (rewind size s) a (rewind-IsAligned size s h) t) ts

  -- A part starts with nothing done, whatever the range of the file and the worker's hasher hold.
  -- However many attempts the registry spoils before, with any streams, errors and offsets, as long
  -- as the sink took every byte: an attempt that returns nil leaves the part's range with bytes of
  -- exactly the part's size whose digest is the one in the manifest.
  pub attempt-verified :
      (s : Fetch) (before : List Answer) (a : Answer)
      → s.done ≡ 0
      → length s.range ≡ size
      → All (λ x. is_taken x ≡ true) before
      → (attempt digest_of size dgst (attempts digest_of size dgst s before) a).0 ≡ none
      → (digest_of (attempt digest_of size dgst (attempts digest_of size dgst s before) a).1.range
          ≡ dgst)
        × (length (attempt digest_of size dgst (attempts digest_of size dgst s before) a).1.range
            ≡ size)
  unfolding attempt
  attempt-verified s before a z sized t k =
      let start : IsAligned size s = record {
        inside = omega arith;
        sized = sized;
        agree = inl z;
      } in
      let aligned = attempts-IsAligned s before start t in
      answered-none _ a (rewind-IsAligned size _ aligned) k
