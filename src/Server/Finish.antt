-- ===== src/Server/Finish.antt =====
-- `handleMutations` of internal/server/mutations.go from the return of `Mutator.Mutate` to its end.
use herdr_phone.Base.{
  ℕ, ◌∷◌, Bool, true, false, ◌&&◌, ◌||◌, Option, none, some, Str, bytes, if◌then◌else◌,
}
use herdr_phone.Stores.Idem.{complete, release}
use herdr_phone.Server.Operations.{
  Code, code_confirmation_needed, Upstream, ContextErr, classify_mutate_err,
}
use herdr_phone.Server.Mutations.{
  Config, Library, Ticket, Server, Reply, raw, AuditEntry, accepted, rejected,
}

-- What `Mutator.Mutate` came to.
pub data Outcome : Type 0 where
  succeeded : Str → Outcome
  errored : ContextErr → Upstream → Outcome

-- A retryable failure of an operation whose nonce is spent asks for a fresh confirmation.
unfoldable pub reconfirm : Bool → Code × ℕ × Bool → Code × ℕ × Bool
reconfirm confirmed (code, status, retryable) =
    if retryable && confirmed
    then (code_confirmation_needed, 428, false)
    else (code, status, retryable)

abbrev pub is_confirmation_needed : Code → Bool
is_confirmation_needed code_confirmation_needed = true
is_confirmation_needed _ = false

module _ (lib : Library) where
  abbrev pub audit_entry : Ticket → Option Code → AuditEntry
  audit_entry t result = record {
    event = bytes "mutation";
    subject = t.identity.subject;
    session_id = t.identity.session_id;
    operation = t.request.operation;
    resource = t.resource;
    request_id = t.request.request_id;
    result = result;
  }

  -- The end of the handler; `now` is read when a result is stored.
  unfoldable pub finish : Config → Server → Ticket → Outcome → ℕ → Server × Reply
  unfolding reconfirm classify_mutate_err
  finish cfg sv t (succeeded result) now =
      let body = lib.encode (accepted t.request.request_id result) in
      (
        record sv {
          audit = audit_entry t none ∷ sv.audit;
          idem = complete sv.idem t.key t.fingerprint 200 body cfg.idempotency_ttl now;
        },
        raw 200 body,
      )
  finish cfg sv t (errored ctx e) now =
      let (code, status, retryable) =
        reconfirm t.spec.requires_confirmation (classify_mutate_err ctx e) in
      let body = lib.encode (rejected t.request.request_id code retryable) in
      (
        record sv {
          audit = audit_entry t (some code) ∷ sv.audit;
          idem =
              if is_confirmation_needed code || retryable
              then release sv.idem t.key
              else complete sv.idem t.key t.fingerprint status body cfg.idempotency_ttl now;
        },
        raw status body,
      )
