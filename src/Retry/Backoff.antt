-- ===== src/Retry/Backoff.antt =====
-- The ceiling of the backoff of policy.go, and the wait that it gives.
use bigoci.Prelude.{
  mul64, ℤ, pos, pos_part, ◌≤ℤ◌, min_ℤ, max_int64, mul64_small, ℕ, zero, suc, ◌+◌, ◌-◌, ◌*◌, ◌^◌,
  ◌≤◌, ◌<◌, min, ◌≡◌, ap, ◌∙◌, arith, min_ℤ-pos, dec_le, ap, ap,
}
use bigoci.Retry.{
  World, Policy, normalized, positive_or, default_base, default_cap, FilledPolicy, grow, raised,
  backoff, wait_after,
}
use native.Mathlib.Nat.{pow-succ', mul-le-mul_left, mul-le-mul_right, one-le-pow, mul_assoc}

double : (c : ℕ) → c + c ≤ max_int64 → mul64 (pos c) (pos 2) ≡ pos (c * 2)
double c h = mul64_small c 2 (omega arith) (omega arith) (omega arith)

two_pow_pos : (k : ℕ) → 0 < 2 ^ k
two_pow_pos k = one-le-pow k 2 (omega arith)

pow_shift : (c k : ℕ) → c * 2 ^ suc k ≡ c * 2 * 2 ^ k
pow_shift c k = rw (pow-succ' 2 k, mul_assoc c 2 (2 ^ k))

pow_grows : (c k : ℕ) → c ≤ c * 2 ^ k
pow_grows c k = omega (arith, mul-le-mul_left c (two_pow_pos k))

-- The guarded doubling is a power of two, cut off at the cap: it never overflows.
grow-pow :
    (cap k c : ℕ)
    → cap ≤ max_int64
    → 0 < c
    → c ≤ cap
    → grow (pos cap) k (pos c) ≡ pos (min cap (c * 2 ^ k))
unfolding grow
grow-pow cap zero c h p l = ground arith
grow-pow cap (suc k) c h p l =
    let shift : c * 2 ^ suc k ≡ c * 2 * 2 ^ k = pow_shift c k in
    let grows : c * 2 ≤ c * 2 * 2 ^ k = pow_grows (c * 2) k in
    ground (arith, double c, grow-pow cap k (c * 2) h)

le_of_not : (a b : ℕ) → ¬ (a ≤ b) → b ≤ a
le_of_not a b h = omega arith

cut_early : (base top k : ℕ) → min top (min base top * 2 ^ k) ≡ min top (base * 2 ^ k)
cut_early base top k = elim (dec_le base top) [
  | yes l ↦ let e : min base top ≡ base = omega arith in rw e
  | no g ↦
      let e : min base top ≡ top = omega arith in
      rw e (
        omega (
          arith,
          pow_grows top k,
          pow_grows base k,
          mul-le-mul_right (2 ^ k) (le_of_not base top g),
        ))
]

-- The ceiling of the wait after the given attempt, for a positive base and cap of int64: the base
-- doubled once per attempt already made, cut off at the cap. The draw is from zero up to it.
backoff-pow :
    {W : Type 0} (p : FilledPolicy W) (attempt base top : ℕ) (w : W)
    → p.base ≡ pos base
    → p.cap ≡ pos top
    → base ≤ max_int64
    → top ≤ max_int64
    → 0 < base
    → 0 < top
    → backoff p attempt w ≡ p.rand (pos (min top (base * 2 ^ (attempt - 1)))) w
unfolding backoff
backoff-pow p attempt base top w eb ec hb hc pb pc =
    rw
      (
        eb,
        ec,
        min_ℤ-pos base top,
        grow-pow top (attempt - 1) (min base top) hc (omega arith) (omega arith),
        cut_early base top (attempt - 1),
      )
      (ground (arith, pow_grows base (attempt - 1)))

-- The contract of Rand: a draw from a positive range falls inside it.
abbrev pub DrawsBelow : {W : Type 0} → (ℤ → W → ℤ × W) → Type 0
DrawsBelow {W} rand = (n : ℕ) (w : W) → 0 < n → (m : ℕ) × ((rand (pos n) w).0 ≡ pos m) × (m < n)

-- What the loop relies on in a policy with every field set.
pub record IsSound {W : Type 0} (p : FilledPolicy W) : Type 0 where
  pub base_nat : ℕ
  pub cap_nat : ℕ
  pub base_eq : p.base ≡ pos base_nat
  pub cap_eq : p.cap ≡ pos cap_nat
  pub base_le : base_nat ≤ max_int64
  pub cap_le : cap_nat ≤ max_int64
  pub base_pos : 0 < base_nat
  pub cap_pos : 0 < cap_nat
  pub draws : DrawsBelow p.rand

-- The jittered wait is below the cap.
backoff_bounds :
    {W : Type 0} (p : FilledPolicy W) (attempt : ℕ) (w : W) (s : IsSound p)
    → (d : ℕ) × ((backoff p attempt w).0 ≡ pos d) × (d < s.cap_nat)
backoff_bounds p attempt w s =
    let ceiling : ℕ = min s.cap_nat (s.base_nat * 2 ^ (attempt - 1)) in
    let (d, e, l) =
      s.draws ceiling w
        (omega (arith, s.cap_pos, s.base_pos, pow_grows s.base_nat (attempt - 1))) in
    (
      d,
      ap (λ r. r.0)
            (backoff-pow p attempt _ _ w s.base_eq s.cap_eq s.base_le s.cap_le s.base_pos s.cap_pos)
          ∙ e,
      omega arith,
    )

raised_bounds :
    (wait after top : ℤ)
    → pos 0 ≤ℤ wait
    → wait ≤ℤ top
    → (pos 0 ≤ℤ raised wait after top)
      × (raised wait after top ≤ℤ top)
      × (min_ℤ after top ≤ℤ raised wait after top)
      × (wait ≤ℤ raised wait after top)
raised_bounds wait after top h k = ground arith

-- Every wait lies between zero and the cap, and is never shorter than the jittered backoff, nor
-- than the wait that the far end asked for, cut off at the cap. The policy has a positive base and
-- cap and a Rand that keeps its contract.
pub wait_after_bounds :
    {W : Type 0} (p : FilledPolicy W) (attempt : ℕ) (after : ℤ) (w : W)
    → IsSound p
    → let wait = (wait_after p attempt after w).0 in
      (pos 0 ≤ℤ wait)
      × (wait ≤ℤ p.cap)
      × (min_ℤ after p.cap ≤ℤ wait)
      × ((backoff p attempt w).0 ≤ℤ wait)
unfolding wait_after
wait_after_bounds p attempt after w s =
    let (d, e, l) = backoff_bounds p attempt w s in
    raised_bounds (backoff p attempt w).0 after p.cap (rw e (omega arith))
      (rw (e, s.cap_eq) (omega arith))

module _ {W : Type 0} where
  pub normalized-attempts : (world : World W) (p : Policy W) → 0 < (normalized world p).attempts
  unfolding normalized positive_or
  normalized-attempts world p = ground arith

  pub normalized-IsSound :
      (world : World W) (p : Policy W)
      → p.base ≤ℤ pos max_int64
      → p.cap ≤ℤ pos max_int64
      → DrawsBelow (normalized world p).rand
      → IsSound (normalized world p)
  unfolding normalized positive_or
  normalized-IsSound world p hb hc d = record {
    base_nat = pos_part (positive_or p.base default_base);
    cap_nat = pos_part (positive_or p.cap default_cap);
    base_eq = ground arith;
    cap_eq = ground arith;
    base_le = ground arith;
    cap_le = ground arith;
    base_pos = ground arith;
    cap_pos = ground arith;
    draws = d;
  }
