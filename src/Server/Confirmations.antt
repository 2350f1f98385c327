-- ===== src/Server/Confirmations.antt =====
-- `handleConfirmations` of internal/server/mutations.go, which hands out the single-use nonces. The
-- token that `randToken` draws and the readings of the clock are arguments. The reply holds the
-- expiry in nanoseconds; that the source prints it in milliseconds is left out.
use herdr_phone.Base.{
  ℕ, [], ◌∷◌, Bool, false, not, ◌&&◌, Option, none, some, ◌==◌, Str, bytes, str_eq, lookup,
  if◌then◌else◌,
}
use herdr_phone.Stores.Nonces.{Binding, issue}
use herdr_phone.Server.Operations.{
  ConfirmSpec, is_empty, generation_checked, confirmable, Code, code_bad_request, code_not_found,
  code_generation_stale,
}
use herdr_phone.Server.Mutations.{
  Config, RequestIdentity, AuditEntry, Library, Server, normalize_params, param_string,
  divergent_alt,
}

pub record ConfirmationRequest : Type 0 where
  pub operation : Str
  pub resource_id : Str
  pub expected_generation : ℕ
  pub params : Str

pub data ConfirmationReply : Type 0 where
  denied : ℕ → Code → ConfirmationReply
  issued : Str → ℕ → ConfirmationReply

-- What the outside gives one call: the token, the times of the expiry and of the sweep, and the
-- generations of the panes.
pub record Draw : Type 0 where
  pub token : Str
  pub issue_at : ℕ
  pub sweep_at : ℕ
  pub generation : Str → Option ℕ

module _ (lib : Library) where
  abbrev pub bound : RequestIdentity → ConfirmationRequest → Str → Binding
  bound ident req norm = record {
    operation = req.operation;
    resource = req.resource_id;
    generation = req.expected_generation;
    session = ident.session_id;
    params_hash = lib.hash norm;
  }

  abbrev pub issue_entry : RequestIdentity → ConfirmationRequest → AuditEntry
  issue_entry ident req = record {
    event = bytes "confirmation.issue";
    subject = ident.subject;
    session_id = ident.session_id;
    operation = req.operation;
    resource = req.resource_id;
    request_id = [];
    result = none;
  }

  unfoldable pub issue_nonce :
      Config
      → Server
      → RequestIdentity
      → ConfirmationRequest
      → Draw
      → Option Str
      → Server × ConfirmationReply
  issue_nonce cfg sv ident req d none = (sv, denied 400 code_bad_request)
  issue_nonce cfg sv ident req d (some norm) =
      let (nonces', exp) =
        issue sv.nonces d.token (bound ident req norm) cfg.confirmation_ttl d.issue_at d.sweep_at in
      (record sv { nonces = nonces'; audit = issue_entry ident req ∷ sv.audit }, issued d.token exp)

  unfoldable pub confirm_generation :
      Config
      → Server
      → RequestIdentity
      → ConfirmationRequest
      → Draw
      → Option ℕ
      → Server × ConfirmationReply
  confirm_generation cfg sv ident req d none = (sv, denied 404 code_not_found)
  confirm_generation cfg sv ident req d (some gen) =
      if not (req.expected_generation == gen)
      then (sv, denied 409 code_generation_stale)
      else issue_nonce cfg sv ident req d (normalize_params lib req.params)

  unfoldable pub mismatched : ConfirmationRequest → ConfirmSpec → Bool
  mismatched req spec =
      if is_empty spec.resource_field
      then false
      else let got = param_string lib req.params spec.resource_field in
        not (is_empty got) && not (str_eq got req.resource_id)

  unfoldable pub confirm_resource :
      Config
      → Server
      → RequestIdentity
      → ConfirmationRequest
      → Draw
      → Option ConfirmSpec
      → Server × ConfirmationReply
  confirm_resource cfg sv ident req d none = (sv, denied 400 code_bad_request)
  confirm_resource cfg sv ident req d (some spec) =
      if not (is_empty spec.resource_field) && is_empty req.resource_id
      then (sv, denied 400 code_bad_request)
      else if mismatched req spec
      then (sv, denied 400 code_bad_request)
      else if divergent_alt lib req.params spec.alt_resource_field req.resource_id
      then (sv, denied 400 code_bad_request)
      else if generation_checked spec.resource_field
      then confirm_generation cfg sv ident req d (d.generation req.resource_id)
      else issue_nonce cfg sv ident req d (normalize_params lib req.params)

  unfoldable pub handle_confirmations :
      Config → Server → RequestIdentity → ConfirmationRequest → Draw → Server × ConfirmationReply
  handle_confirmations cfg sv ident req d =
      confirm_resource cfg sv ident req d (lookup req.operation confirmable)
