-- ===== src/Auth/System.antt =====
-- The requests of one repository and the exchanges they start, as steps on the state of
-- internal/oci/authstate.go: what any number of workers can do to it, in any order.
use bigoci.Prelude.{
  ◌==◌, if◌then◌else◌, Bytes, ℕ, ◌+◌, ◌≡◌, ◌≢◌, Bool, true, false, ◌&&◌, ◌||◌, List, [], ◌∷◌,
  bytes_eq,
}
use bigoci.Errors.{GoError}
use bigoci.Challenge.{Challenge, void}
use bigoci.Auth.{
  AuthState, Entry, Decision, anonymous, await, refuse, present, exchange, Outcome, authorize,
  answered, refused, deny, finish, learn,
}

-- The exchanges between `beginLocked` and `finishLocked`: the key and the number of the entry.
pub record System : Type 0 where
  pub auth : AuthState
  pub flights : List (Bytes × ℕ)

abbrev pub flown : Bytes → Decision → List (Bytes × ℕ) → List (Bytes × ℕ)
flown key anonymous f = f
flown key (await id) f = f
flown key (refuse e) f = f
flown key (present h) f = f
flown key (exchange id asked) f = (key, id) ∷ f

-- the system behind an operation that may start an exchange
abbrev pub launch : Bytes → List (Bytes × ℕ) → Decision × AuthState → System
launch key f (d, s) = record { auth = s; flights = flown key d f }

abbrev pub is_flight : Bytes → ℕ → Bytes → ℕ → Bool
is_flight key id k i = bytes_eq k key && i == id

unfoldable pub is_running : Bytes → ℕ → List (Bytes × ℕ) → Bool
is_running key id [] = false
is_running key id ((k, i) ∷ f) = is_flight key id k i || is_running key id f

-- the exchanges that run for a key
unfoldable pub runs : Bytes → List (Bytes × ℕ) → ℕ
runs key [] = 0
runs key ((k, i) ∷ f) = (if bytes_eq k key then 1 else 0) + runs key f

-- without the first exchange for the entry
unfoldable pub landed : Bytes → ℕ → List (Bytes × ℕ) → List (Bytes × ℕ)
landed key id [] = []
landed key id ((k, i) ∷ f) =
    let rest = landed key id f in if is_flight key id k i then f else (k, i) ∷ rest

-- One operation of one worker. A request that `deny` is about was sent with a header, and only an
-- exchange that runs can end.
pub data Step (s : System) : System → Type 0 where
  asking : (now : ℕ) (key : Bytes) → Step s (launch key s.flights (authorize now key s.auth))
  refusal :
      (key sent : Bytes) (asked : Challenge) (status : GoError)
      → Step s (launch key s.flights (refused key sent asked status s.auth))
  reply : (header : Bytes) → Step s (record s { auth = answered header s.auth })
  second_refusal :
      (key sent : Bytes) (status : GoError)
      → sent ≢ []
      → Step s (record s { auth = (deny key sent status s.auth).1 })
  version : (status : ℕ) (raw : Bytes) → Step s (record s { auth = (learn status raw s.auth).1 })
  landing :
      (id : ℕ) (key : Bytes) (now : ℕ) (end : Outcome)
      → is_running key id s.flights ≡ true
      → Step s (record { auth = finish id key now end s.auth; flights = landed key id s.flights })

-- Any number of steps.
pub data Steps (s : System) : System → Type 0 where
  here : Steps s s
  next : {t u : System} → Steps s t → Step t u → Steps s u

-- `newAuthState`
abbrev pub new_auth_state : (ℕ → Entry) → AuthState
new_auth_state heap = record {
  challenge = void;
  challenged = false;
  replied = false;
  entries = [];
  heap = heap;
  fresh = 0;
}

abbrev pub idle : (ℕ → Entry) → System
idle heap = record { auth = new_auth_state heap; flights = [] }
