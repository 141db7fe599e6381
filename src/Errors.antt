-- ===== src/Errors.antt =====
-- Go's error values as trees: what `errors.Is` and `errors.As` see of them. The texts of
-- `fmt.Errorf` are kept as labels where a theorem tells two contexts apart.
pub mod Matching
use Prim.Native.String.{String}
use bigoci.Prelude.{◌==◌, ℤ, ℕ, Bool, true, false, ◌||◌, Option, none, some, ℕ_discrete, ite}

-- The package-level error values and typed errors that callers look for. `other` stands for an
-- error of code outside these packages, by its identity.
pub data Sentinel : Type 0 where
  err_too_many_parts err_not_bigoci_artifact err_digest_mismatch err_source_changed : Sentinel
  err_unauthorized err_not_found err_too_large : Sentinel
  other : ℕ → Sentinel

pub Sentinel-discrete : Discrete Sentinel
Sentinel-discrete = hlevel ℕ_discrete

-- `fault` is the tag of internal/retry/fault.go with the wait that the far end asked for.
-- `context` is `fmt.Errorf("text: %w", err)` and the safe causes, `after_attempts` and
-- `interrupted_by` are the two wrappers of internal/retry/retry.go.
-- `status_error` and `auth_failure` are StatusError and authError of internal/oci; an authError
-- without a cause has its reason there.
pub data GoError : Type 0 where
  sentinel : Sentinel → GoError
  plain : String → GoError
  fault : GoError → ℤ → GoError
  context : String → GoError → GoError
  after_attempts : ℕ → GoError → GoError
  interrupted_by : GoError → ℕ → GoError → GoError
  status_error : ℕ → GoError
  auth_failure : GoError → GoError

abbrev pub or_else {ℓ} : {A : Type ℓ} → Option A → Option A → Option A
or_else none y = y
or_else (some x) y = some x

-- `IsTransient`: the outermost tag that `errors.As` finds, in its depth-first order; `none` is the
-- answer `(0, false)`
unfoldable pub is_transient : GoError → Option ℤ
is_transient (sentinel s) = none
is_transient (plain m) = none
is_transient (fault e after) = some after
is_transient (context m e) = is_transient e
is_transient (after_attempts n e) = is_transient e
is_transient (status_error n) = none
is_transient (auth_failure e) = is_transient e
is_transient (interrupted_by c n e) = or_else (is_transient c) (is_transient e)

-- `StatusError.Is`
unfoldable pub status_matches : Sentinel → ℕ → Bool
status_matches err_not_found status = status == 404
status_matches err_unauthorized status = status == 401 || status == 403
status_matches err_too_large status = status == 413
status_matches err_too_many_parts status = false
status_matches err_not_bigoci_artifact status = false
status_matches err_digest_mismatch status = false
status_matches err_source_changed status = false
status_matches (other n) status = false

-- `authError.Is`
unfoldable pub auth_matches : Sentinel → Bool
auth_matches err_unauthorized = true
auth_matches err_not_found = false
auth_matches err_too_large = false
auth_matches err_too_many_parts = false
auth_matches err_not_bigoci_artifact = false
auth_matches err_digest_mismatch = false
auth_matches err_source_changed = false
auth_matches (other n) = false

-- `errors.Is`
unfoldable pub is_error : Sentinel → GoError → Bool
is_error t (sentinel s) = ite (Sentinel-discrete s t) true false
is_error t (plain m) = false
is_error t (fault e after) = is_error t e
is_error t (context m e) = is_error t e
is_error t (after_attempts n e) = is_error t e
is_error t (status_error n) = status_matches t n
is_error t (auth_failure e) = auth_matches t || is_error t e
is_error t (interrupted_by c n e) = is_error t c || is_error t e

-- `Transient`, where a nil error stays nil
unfoldable pub transient : Option GoError → ℤ → Option GoError
transient none after = none
transient (some e) after = some (fault e after)
