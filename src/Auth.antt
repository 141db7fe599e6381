-- ===== src/Auth.antt =====
-- internal/oci/authstate.go: the tokens of one repository. Each operation is what the source does
-- with the mutex held; an exchange with the token endpoint starts in one operation and ends in
-- `finish`, with any others in between. Entries are shared by pointer: `heap` holds them by number,
-- and `entries` maps a scope key to a number. A clock reading is a number of nanoseconds.
pub mod Scopes
pub mod Exchange
pub mod System
pub mod Flight
pub mod Honest
pub mod Expiry
pub mod Stampede
use bigoci.Prelude.{
  ◌==◌, if◌then◌else◌, Bytes, sub64, ℤ, pos, negsuc, ltb_ℤ, ◌==ℤ◌, ℕ, suc, ◌+◌, ◌-◌, ◌/◌, ◌⊎◌, inl,
  inr, Bool, true, false, not, ◌||◌, Option, none, some, List, [], ◌∷◌, lookup, insert, bytes_eq,
  remove, insert,
}
use bigoci.Errors.{
  context, GoError, is_error, err_unauthorized, status_error, auth_failure, plain, fault,
}
use bigoci.Challenge.{Challenge, parse_challenge, AuthResult, ok, err}

pub data EntryState : Type 0 where
  acquiring unproven proven denied : EntryState

pub record Entry : Type 0 where
  pub header : Bytes
  pub acquired : ℕ
  pub lifetime : ℤ
  pub state : EntryState
  pub err : Option GoError

pub record AuthState : Type 0 where
  pub challenge : Challenge
  pub challenged : Bool
  pub replied : Bool
  pub entries : List (Bytes × ℕ)
  pub heap : ℕ → Entry
  pub fresh : ℕ

-- const tokenMargin, thirty seconds
abbrev pub token_margin : ℤ
token_margin = pos 30000000000

-- lifetime / shortTokenShare, with the quotient of int64
abbrev half_life : ℤ → ℤ
half_life (pos n) = pos (n / 2)
half_life (negsuc n) = if suc n / 2 == 0 then pos 0 else negsuc (suc n / 2 - 1)

unfoldable pub margin_for : ℤ → ℤ
margin_for lifetime =
    if ltb_ℤ (half_life lifetime) token_margin then half_life lifetime else token_margin

-- `usableLocked` at the reading `now`
unfoldable pub usable : ℕ → Entry → Bool
usable now held =
    held.lifetime ==ℤ pos 0
    || ltb_ℤ (sub64 (pos now) (pos held.acquired)) (sub64 held.lifetime (margin_for held.lifetime))

abbrev pub put : (ℕ → Entry) → ℕ → Entry → ℕ → Entry
put heap i e j = if i == j then e else heap j

-- What an operation tells its request to do: send no header, wait for the entry that is being
-- acquired, fail, present a header, or run an exchange for a fresh entry.
pub data Decision : Type 0 where
  anonymous : Decision
  await : ℕ → Decision
  refuse : Option GoError → Decision
  present : Bytes → Decision
  exchange : ℕ → Challenge → Decision

-- `beginLocked`
unfoldable pub begin : Bytes → AuthState → Decision × AuthState
begin key s = (
  exchange s.fresh s.challenge,
  record s {
    entries = insert key s.fresh s.entries;
    heap =
        put s.heap s.fresh
          (record { header = []; acquired = 0; lifetime = pos 0; state = acquiring; err = none });
    fresh = s.fresh + 1;
  },
)

abbrev begin_unless : Bool → Bytes → Entry → AuthState → Decision × AuthState
begin_unless true key e s = (present e.header, s)
begin_unless false key e s = begin key s

-- the switch of `authorize` on the entry under the key
unfoldable pub authorize_entry :
    ℕ → Bytes → ℕ → Entry → EntryState → AuthState → Decision × AuthState
authorize_entry now key id e acquiring s = (await id, s)
authorize_entry now key id e denied s = (refuse e.err, s)
authorize_entry now key id e unproven s = begin_unless (usable now e) key e s
authorize_entry now key id e proven s = begin_unless (usable now e) key e s

unfoldable pub authorize_held : ℕ → Bytes → Option ℕ → AuthState → Decision × AuthState
authorize_held now key none s = begin key s
authorize_held now key (some id) s = authorize_entry now key id (s.heap id) (s.heap id).state s

-- `authorize` for the access that the key names
unfoldable pub authorize : ℕ → Bytes → AuthState → Decision × AuthState
authorize now key s =
    if s.challenged then authorize_held now key (lookup key s.entries) s else (anonymous, s)

-- an entry whose header a reply has proven
abbrev pub prove : Bytes → Entry → Entry
prove header e = elim e.state [
  | unproven ↦ if bytes_eq e.header header then record e { state = proven } else e
  | acquiring ↦ e
  | proven ↦ e
  | denied ↦ e
]

-- the loop of `answered` over the map
unfoldable pub prove_all : Bytes → List (Bytes × ℕ) → (ℕ → Entry) → ℕ → Entry
prove_all header [] heap = heap
prove_all header ((k, id) ∷ m) heap = prove_all header m (put heap id (prove header (heap id)))

unfoldable pub answered : Bytes → AuthState → AuthState
answered header s =
    if bytes_eq header []
    then record s { replied = true }
    else record s { replied = true; heap = prove_all header s.entries s.heap }

-- the entry with the verdict of `deniedError`
abbrev pub verdict : GoError → Entry → Entry
verdict status e = record e { state = denied; err = some (auth_failure status) }

-- the switch of `refused` where the entry holds the header that the request carried
unfoldable pub refused_same : Bytes → ℕ → GoError → EntryState → AuthState → Decision × AuthState
refused_same key id status unproven s = (
  refuse (some (auth_failure status)),
  record s { heap = put s.heap id (verdict status (s.heap id)) },
)
refused_same key id status acquiring s = (await id, s)
refused_same key id status denied s = (refuse (s.heap id).err, s)
refused_same key id status proven s = begin key s

-- the switch of `refused` on the entry under the key
unfoldable pub refused_entry :
    Bytes → Bytes → ℕ → GoError → Entry → EntryState → AuthState → Decision × AuthState
refused_entry key sent id status e acquiring s = (await id, s)
refused_entry key sent id status e denied s = (refuse e.err, s)
refused_entry key sent id status e unproven s =
    if bytes_eq e.header sent then refused_same key id status unproven s else (present e.header, s)
refused_entry key sent id status e proven s =
    if bytes_eq e.header sent then refused_same key id status proven s else (present e.header, s)

unfoldable pub refused_held : Bytes → Bytes → GoError → Option ℕ → AuthState → Decision × AuthState
refused_held key sent status none s = begin key s
refused_held key sent status (some id) s =
    refused_entry key sent id status (s.heap id) (s.heap id).state s

abbrev pub challenged_by : Challenge → AuthState → AuthState
challenged_by asked s = record s { challenge = asked; challenged = true; replied = true }

-- `refused`
unfoldable pub refused : Bytes → Bytes → Challenge → GoError → AuthState → Decision × AuthState
refused key sent asked status s =
    refused_held key sent status (lookup key s.entries) (challenged_by asked s)

-- the failure of `deny` on a credential that was already replaced
abbrev pub replaced : GoError → GoError
replaced status = fault (auth_failure status) (pos 0)

unfoldable pub deny_state : ℕ → GoError → EntryState → AuthState → Option GoError × AuthState
deny_state id status denied s = ((s.heap id).err, s)
deny_state id status acquiring s =
    (some (auth_failure status), record s { heap = put s.heap id (verdict status (s.heap id)) })
deny_state id status unproven s =
    (some (auth_failure status), record s { heap = put s.heap id (verdict status (s.heap id)) })
deny_state id status proven s =
    (some (auth_failure status), record s { heap = put s.heap id (verdict status (s.heap id)) })

unfoldable pub deny_held : Bytes → GoError → Option ℕ → AuthState → Option GoError × AuthState
deny_held sent status none s = (some (replaced status), s)
deny_held sent status (some id) s =
    if bytes_eq (s.heap id).header sent
    then deny_state id status (s.heap id).state s
    else (some (replaced status), s)

-- `deny`
unfoldable pub deny : Bytes → Bytes → GoError → AuthState → Option GoError × AuthState
deny key sent status s = deny_held sent status (lookup key s.entries) s

-- How an exchange ends: with a header and its lifetime, or an error.
pub data Outcome : Type 0 where
  minted : Bytes → ℤ → Outcome
  failed : GoError → Outcome

abbrev pub mapped_to : ℕ → Option ℕ → Bool
mapped_to id none = false
mapped_to id (some held) = held == id

-- `finishLocked`
unfoldable pub finish : ℕ → Bytes → ℕ → Outcome → AuthState → AuthState
finish id key now (minted header lifetime) s = record s {
  heap = put s.heap id (record (s.heap id) {
    header = header;
    acquired = now;
    lifetime = lifetime;
    state = unproven;
  });
}
finish id key now (failed e) s =
    let lost = record (s.heap id) { err = some e } in
    if is_error err_unauthorized e
    then record s { heap = put s.heap id (record lost { state = denied }) }
    else record s {
      heap = put s.heap id lost;
      entries = if mapped_to id (lookup key s.entries) then remove key s.entries else s.entries;
    }

-- what `wait` reads once the exchange has ended: the error, or the header
unfoldable pub awaited : ℕ → AuthState → GoError ⊎ Bytes
awaited id s = elim (s.heap id).err [ some e ↦ inl e | none ↦ inr (s.heap id).header ]

-- isRefusal (internal/oci/repository.go)
unfoldable pub is_refusal : ℕ → Bool
is_refusal status = status == 401 || status == 403

abbrev learned : Option (AuthResult Challenge) → AuthState → Option GoError × AuthState
learned (some (ok asked)) s =
    (none, record s { challenge = record asked { scopes = [] }; challenged = true })
learned (some (err e)) s =
    (some (context "GET /v2/" (auth_failure (plain "unusable challenge"))), s)
learned none s = (some (context "GET /v2/" (auth_failure (plain "unusable challenge"))), s)

-- `learn` on the status of the version check and its WWW-Authenticate header
unfoldable pub learn : ℕ → Bytes → AuthState → Option GoError × AuthState
learn status raw s =
    if s.challenged || not (is_refusal status) || bytes_eq raw []
    then (none, record s { replied = true })
    else learned (parse_challenge raw) (record s { replied = true })
