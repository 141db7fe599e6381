-- ===== src/Errors/Matching.antt =====
-- Tagging a failure and what `errors.Is` sees of it (internal/retry/fault.go).
use bigoci.Prelude.{ℤ, ◌≡◌, refl, ◌≢◌, true, false, some, if_neg}
use bigoci.Errors.{
  GoError, fault, Sentinel, Sentinel-discrete, sentinel, is_error, is_transient, transient,
}

-- Tagging marks a failure as transient with the given wait, whatever tags it carries beneath, and
-- changes no sentinel that it matches.
pub transient-is_transient :
    (e : GoError) (after : ℤ)
    → (t : GoError) × (transient (some e) after ≡ some t)
      × (is_transient t ≡ some after)
      × ((s : Sentinel) → is_error s t ≡ is_error s e)
unfolding transient is_transient is_error
transient-is_transient e after = (fault e after, refl, refl, λ s. refl)

pub is_error-sentinel : (s t : Sentinel) → s ≢ t → is_error t (sentinel s) ≡ false
unfolding is_error
is_error-sentinel s t h = if_neg (Sentinel-discrete s t) h true false
