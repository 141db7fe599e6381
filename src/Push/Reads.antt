-- ===== src/Push/Reads.antt =====
-- What an upload is given of the file that internal/transfer/push.go hashed before.
use bigoci.Prelude.{
  Bytes, length, length-append, pos, max_int64, add64_small, ℕ, ◌+◌, ◌≤◌, ◌<◌, ◌≡◌, refl, sym, ap,
  ◌⊎◌, inl, inr, Bool, true, false, ◌&&◌, List, [], ◌∷◌, ◌++◌, append-nil, append_assoc, arith,
  bytes_eq_iff, bytes_eq_iff, sym, length-append, add64_small, append-nil, append_assoc, ap,
  and_parts, ap,
}
use mathlib.Core.Path.{subst}
use bigoci.Push.{
  ReadEnd, going, eof, broken, TaggedEnd, fine, ended, source_error, Tagged, hashing, fresh_tagged,
  read_checked, read_tagged, tag_reads,
}

abbrev pub is_sound : TaggedEnd → Bool
is_sound fine = true
is_sound ended = true
is_sound (source_error e) = false

-- no read has failed
unfoldable pub is_unbroken : List (Bytes × TaggedEnd) → Bool
is_unbroken [] = true
is_unbroken ((chunk, end) ∷ l) = is_sound end && is_unbroken l

-- all the bytes that the reads gave
unfoldable pub received : List (Bytes × TaggedEnd) → Bytes
received [] = []
received ((chunk, end) ∷ l) = chunk ++ received l

-- the bytes that the range gave
unfoldable pub given : List (Bytes × ReadEnd) → ℕ
given [] = 0
given ((chunk, end) ∷ l) = length chunk + given l

module _ (digest_of : Bytes → Bytes) (expect : Bytes) (size : ℕ) (small : size ≤ max_int64) where
  -- one read that does not fail passes its chunk, and the digest is right once the size is reached
  read_sound :
      (chunk : Bytes) (end : ReadEnd) (t : Tagged) (n : ℕ)
      → t.read ≡ pos n
      → is_sound (read_checked digest_of expect (pos size) chunk end t).1 ≡ true
      → ((read_checked digest_of expect (pos size) chunk end t).0 ≡ chunk)
        × ((n < size) ⊎ (digest_of t.hashed ≡ expect))
  unfolding read_checked
  read_sound chunk going t n h s = ground (arith, h, s, bytes_eq_iff (digest_of t.hashed) expect)
  read_sound chunk eof t n h s = ground (arith, h, s, bytes_eq_iff (digest_of t.hashed) expect)
  read_sound chunk (broken e) t n h s = ground (arith, h, s)

  reads_settled :
      (l : List (Bytes × ReadEnd)) (s : Tagged) (acc : Bytes)
      → s.hashed ≡ acc
      → s.read ≡ pos (length acc)
      → length acc + given l ≤ max_int64
      → (length acc < size) ⊎ (digest_of acc ≡ expect)
      → is_unbroken (tag_reads digest_of expect (pos size) l s) ≡ true
      → let all = acc ++ received (tag_reads digest_of expect (pos size) l s) in
        (length all < size) ⊎ (digest_of all ≡ expect)
  unfolding tag_reads received given is_unbroken read_tagged
  reads_settled [] s acc h r g d u =
      subst (λ (b : Bytes). (length b < size) ⊎ (digest_of b ≡ expect)) (sym (append-nil acc)) d
  reads_settled ((chunk, end) ∷ l) s acc h r g d u =
      let t : Tagged = hashing chunk s in
      let total : length (acc ++ chunk) ≡ length acc + length chunk = length-append acc chunk in
      let read : t.read ≡ pos (length (acc ++ chunk)) =
        rw (r, total) (add64_small (length acc) (length chunk) (omega (arith, g))) in
      let held : t.hashed ≡ acc ++ chunk = ap (λ (b : Bytes). b ++ chunk) h in
      let (now, later) = and_parts _ _ u in
      let (same, settled) = read_sound chunk end t (length (acc ++ chunk)) read now in
      let next : (length (acc ++ chunk) < size) ⊎ (digest_of (acc ++ chunk) ≡ expect) =
        subst (λ (b : Bytes). (length (acc ++ chunk) < size) ⊎ (digest_of b ≡ expect)) held
          settled in
      rw (same, ← append_assoc acc chunk (received (tag_reads digest_of expect (pos size) l t)))
        (reads_settled l t (acc ++ chunk) held read (omega (arith, g, total)) next later)

  -- The reads that an upload gets of a part of positive size, where the range gives no more bytes
  -- than an int64 counts: if none fails and they bring at least the declared size, then what they
  -- brought has the digest that the hash pass recorded.
  pub tag_reads-digest :
      (l : List (Bytes × ReadEnd))
      → 0 < size
      → given l ≤ max_int64
      → is_unbroken (tag_reads digest_of expect (pos size) l fresh_tagged) ≡ true
      → size ≤ length (received (tag_reads digest_of expect (pos size) l fresh_tagged))
      → digest_of (received (tag_reads digest_of expect (pos size) l fresh_tagged)) ≡ expect
  tag_reads-digest l p g u n =
      elim (reads_settled l fresh_tagged [] refl refl (omega (arith, g)) (inl p) u) [
        | inl short ↦ absurd (omega (arith, short, n))
        | inr e ↦ e
      ]
