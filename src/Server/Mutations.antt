-- ===== src/Server/Mutations.antt =====
-- `handleMutations` of internal/server/mutations.go, cut in two where it calls `Mutator.Mutate`:
-- `admit` runs up to the call, and `finish` of Server/Finish.antt from its return, so that other
-- requests can run between.
-- JSON, SHA-256 and decimal printing are the fields of `Library`. The readings of the clock, the
-- state of the request's context and the pane generations seen are those of a `Moment`.
use herdr_phone.Base.{
  ℕ, ◌+◌, ◌-◌, ◌*◌, List, [], ◌∷◌, ◌++◌, Bool, true, false, not, ◌&&◌, Option, none, some, ltb, leb,
  ◌==◌, Str, bytes, str_eq, lookup, if◌then◌else◌,
}
use herdr_phone.Stores.Nonces.{NonceStore, Binding, consume}
use herdr_phone.Stores.Idem.{
  IdemStore, IdemEntry, IdemResult, idem_reserved, idem_in_flight, idem_done, idem_mismatch,
  idem_miss, idem_key, peek, reserve, release,
}
use herdr_phone.Server.Operations.{
  OpSpec, is_empty, generation_checked, operations, Code, code_bad_request, code_conflict,
  code_generation_stale, code_confirmation_needed, code_confirmation_invalid,
  code_deadline_exceeded,
}

pub record MutationRequest : Type 0 where
  pub request_id : Str
  pub operation : Str
  pub deadline_unix_ms : ℕ
  pub expected_generation : ℕ
  pub confirmation : Str
  pub params : Str

pub record Config : Type 0 where
  pub server_mutation_deadline : ℕ
  pub deadline_skew : ℕ
  pub idempotency_ttl : ℕ
  pub confirmation_ttl : ℕ

pub record RequestIdentity : Type 0 where
  pub session_id : Str
  pub subject : Str

pub record AuditEntry : Type 0 where
  pub event : Str
  pub subject : Str
  pub session_id : Str
  pub operation : Str
  pub resource : Str
  pub request_id : Str
  pub result : Option Code

-- The envelope of a mutation: accepted with a result, or an error.
pub data MutationResponse : Type 0 where
  accepted : Str → Str → MutationResponse
  rejected : Str → Code → Bool → MutationResponse

pub record Library : Type 0 where
  pub canonical : Str → Option Str
  pub string_field : Str → Str → Str
  pub hash : Str → Str
  pub decimal : ℕ → Str
  pub encode : MutationResponse → Str

-- What a client gets: `writeError`, `writeRaw`, or `replay`.
pub data Reply : Type 0 where
  failed : ℕ → Code → Reply
  raw : ℕ → Str → Reply
  replayed : ℕ → Str → Reply

pub record Moment : Type 0 where
  pub peek_at : ℕ
  pub check_at : ℕ
  pub reserve_at : ℕ
  pub reserve_later : ℕ
  pub expired_before_dispatch : Bool
  pub consume_at : ℕ
  pub generation : Str → Option ℕ

-- The stores, the audit log, and the calls of `Mutator.Mutate` made so far, newest first.
pub record Server : Type 0 where
  pub nonces : NonceStore
  pub idem : IdemStore
  pub audit : List AuditEntry
  pub dispatched : List (Str × Str)

-- What a request that may be dispatched carries to its end.
pub record Ticket : Type 0 where
  pub request : MutationRequest
  pub identity : RequestIdentity
  pub spec : OpSpec
  pub resource : Str
  pub norm : Str
  pub key : Str
  pub fingerprint : Str

pub data Admission : Type 0 where
  refused : Reply → Admission
  admitted : Ticket → Admission

-- `reservationTTL`.
unfoldable pub reservation_ttl : Config → ℕ
reservation_ttl cfg =
    let ttl = 2 * cfg.server_mutation_deadline in
    if ltb ttl 30_000_000_000 then 30_000_000_000 else ttl

module _ (lib : Library) where
  unfoldable pub normalize_params : Str → Option Str
  normalize_params params = if is_empty params then some (bytes "{}") else lib.canonical params

  unfoldable pub param_string : Str → Str → Str
  param_string params field = if is_empty params then [] else lib.string_field params field

  unfoldable pub divergent_alt : Str → Str → Str → Bool
  unfolding param_string
  divergent_alt params alt_field canonical =
      if is_empty alt_field
      then false
      else let alt = param_string params alt_field in
        not (is_empty alt) && not (str_eq alt canonical)

  unfoldable pub request_fingerprint : Str → ℕ → Str → Str
  request_fingerprint operation expected norm =
      lib.hash (operation ++ 0 ∷ (lib.decimal expected ++ 0 ∷ norm))

  -- `writeMutationErr`.
  abbrev pub mutation_err : Str → ℕ → Code → Bool → Reply
  mutation_err id status code retryable = raw status (lib.encode (rejected id code retryable))

  abbrev pub binding : Ticket → Binding
  binding t = record {
    operation = t.request.operation;
    resource = t.resource;
    generation = t.request.expected_generation;
    session = t.identity.session_id;
    params_hash = lib.hash t.norm;
  }

  abbrev pub dispatch : Server → Ticket → Server
  dispatch sv t = record sv { dispatched = (t.request.operation, t.request.params) ∷ sv.dispatched }

  -- The nonce is spent just before the dispatch.
  unfoldable pub confirm : Server → Ticket → Moment → Server × Admission
  confirm sv t m =
      let (nonces', ok) = consume sv.nonces t.request.confirmation (binding t) m.consume_at in
      if not t.spec.requires_confirmation
      then (dispatch sv t, admitted t)
      else if ok
      then (dispatch (record sv { nonces = nonces' }) t, admitted t)
      else (
        record sv { nonces = nonces'; idem = release sv.idem t.key },
        refused (mutation_err t.request.request_id 403 code_confirmation_invalid false),
      )

  unfoldable pub after_reserve :
      Server → Ticket → Moment → IdemEntry → IdemResult → Server × Admission
  after_reserve sv t m e idem_done = (sv, refused (replayed e.status e.body))
  after_reserve sv t m e idem_in_flight =
      (sv, refused (mutation_err t.request.request_id 409 code_conflict true))
  after_reserve sv t m e idem_mismatch =
      (sv, refused (mutation_err t.request.request_id 409 code_conflict false))
  after_reserve sv t m e idem_reserved =
      if m.expired_before_dispatch
      then (
        record sv { idem = release sv.idem t.key },
        refused (mutation_err t.request.request_id 504 code_deadline_exceeded true),
      )
      else confirm sv t m
  after_reserve sv t m e idem_miss =
      if m.expired_before_dispatch
      then (
        record sv { idem = release sv.idem t.key },
        refused (mutation_err t.request.request_id 504 code_deadline_exceeded true),
      )
      else confirm sv t m

  unfoldable pub reserve_key : Config → Server → Ticket → Moment → Server × Admission
  reserve_key cfg sv t m =
      let (idem', e, result) =
        reserve sv.idem t.key t.fingerprint (reservation_ttl cfg) m.reserve_at m.reserve_later in
      after_reserve (record sv { idem = idem' }) t m e result

  -- The deadline: the shorter of the server's and what the client has left after the skew.
  unfoldable pub check_deadline : Config → Server → Ticket → Moment → Server × Admission
  check_deadline cfg sv t m =
      let deadline = t.request.deadline_unix_ms * 1_000_000 in
      let late = m.check_at + cfg.deadline_skew in
      let remaining = deadline - late in
      let id = t.request.request_id in
      if ltb 0 t.request.deadline_unix_ms && leb deadline late
      then (sv, refused (mutation_err id 504 code_deadline_exceeded true))
      else let budget =
          if ltb 0 t.request.deadline_unix_ms && ltb remaining cfg.server_mutation_deadline
          then remaining
          else cfg.server_mutation_deadline in
        if budget == 0
        then (sv, refused (mutation_err id 504 code_deadline_exceeded true))
        else reserve_key cfg sv t m

  -- What `State.Generation` says of the pane against what the client saw.
  unfoldable pub at_generation : Config → Server → Ticket → Moment → Option ℕ → Server × Admission
  at_generation cfg sv t m none =
      (sv, refused (mutation_err t.request.request_id 409 code_generation_stale true))
  at_generation cfg sv t m (some gen) =
      if gen == t.request.expected_generation
      then check_deadline cfg sv t m
      else (sv, refused (mutation_err t.request.request_id 409 code_generation_stale true))

  -- The generation guard of pane-scoped operations.
  unfoldable pub check_generation : Config → Server → Ticket → Moment → Server × Admission
  check_generation cfg sv t m =
      if not (generation_checked t.spec.resource_field)
      then check_deadline cfg sv t m
      else if t.request.expected_generation == 0
      then (sv, refused (mutation_err t.request.request_id 400 code_generation_stale false))
      else at_generation cfg sv t m (m.generation t.resource)

  unfoldable pub check_target : Config → Server → Ticket → Moment → Server × Admission
  check_target cfg sv t m =
      if divergent_alt t.request.params t.spec.alt_resource_field t.resource
      then (sv, refused (failed 400 code_bad_request))
      else if t.spec.requires_confirmation && is_empty t.request.confirmation
      then (sv, refused (mutation_err t.request.request_id 428 code_confirmation_needed false))
      else check_generation cfg sv t m

  abbrev pub ticket : RequestIdentity → MutationRequest → OpSpec → Str → Ticket
  ticket ident req spec norm = record {
    request = req;
    identity = ident;
    spec = spec;
    resource =
        if is_empty spec.resource_field then [] else param_string req.params spec.resource_field;
    norm = norm;
    key = idem_key ident.session_id req.request_id;
    fingerprint = request_fingerprint req.operation req.expected_generation norm;
  }

  unfoldable pub after_peek :
      Config → Server → Ticket → Moment → IdemEntry → IdemResult → Server × Admission
  after_peek cfg sv t m e idem_done = (sv, refused (replayed e.status e.body))
  after_peek cfg sv t m e idem_mismatch =
      (sv, refused (mutation_err t.request.request_id 409 code_conflict false))
  after_peek cfg sv t m e _ = check_target cfg sv t m

  unfoldable pub peek_key : Config → Server → Ticket → Moment → Server × Admission
  peek_key cfg sv t m =
      let (idem', e, result) = peek sv.idem t.key t.fingerprint m.peek_at in
      after_peek cfg (record sv { idem = idem' }) t m e result

  unfoldable pub admit_params :
      Config
      → Server
      → RequestIdentity
      → MutationRequest
      → Moment
      → OpSpec
      → Option Str
      → Server × Admission
  admit_params cfg sv ident req m spec none = (sv, refused (failed 400 code_bad_request))
  admit_params cfg sv ident req m spec (some norm) = peek_key cfg sv (ticket ident req spec norm) m

  unfoldable pub admit_operation :
      Config
      → Server
      → RequestIdentity
      → MutationRequest
      → Moment
      → Option OpSpec
      → Server × Admission
  admit_operation cfg sv ident req m none = (sv, refused (failed 400 code_bad_request))
  admit_operation cfg sv ident req m (some spec) =
      admit_params cfg sv ident req m spec (normalize_params req.params)

  unfoldable pub admit :
      Config → Server → RequestIdentity → MutationRequest → Moment → Server × Admission
  admit cfg sv ident req m =
      if is_empty req.request_id
      then (sv, refused (failed 400 code_bad_request))
      else admit_operation cfg sv ident req m (lookup req.operation operations)
