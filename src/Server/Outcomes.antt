-- ===== src/Server/Outcomes.antt =====
-- How `handleMutations` of internal/server/mutations.go ends, and what a retry of the request gets.
use herdr_phone.Base.{
  ℕ, ◌+◌, ◌≤◌, List, ◌∷◌, ◌≡◌, refl, ap, ◌∙◌, Bool, true, false, not, ◌||◌, Option, some, arith,
  Str, str_eq_refl, All, lookup, IsMap,
}
use herdr_phone.Stores.Idem.{IdemStore, idem_done, idem_key, peek, complete, release}
use herdr_phone.Stores.IdemHistory.{
  Call, Foreign, run, completed, run_keeps, complete_stores, complete-IsMap,
}
use herdr_phone.Server.Operations.{
  OpSpec, is_empty, operations, Code, classify_mutate_err, ContextErr, Upstream,
}
use herdr_phone.Server.Mutations.{
  MutationRequest, Config, RequestIdentity, Library, Reply, raw, replayed, Moment, Server, Ticket,
  refused, normalize_params, ticket, after_peek, peek_key, admit_params, admit_operation, admit,
}
use herdr_phone.Server.Finish.{
  Outcome, succeeded, errored, audit_entry, reconfirm, finish, is_confirmation_needed,
}

-- Success, or a failure that a retry would not mend.
abbrev pub is_final : Outcome → Bool
is_final (succeeded result) = true
is_final (errored ctx e) = not (classify_mutate_err ctx e).2

not_is_true : (b : Bool) → not b ≡ true → b ≡ false
not_is_true true h = ground (arith, h)
not_is_true false h = refl

not_is_false : (b : Bool) → not b ≡ false → b ≡ true
not_is_false true h = refl
not_is_false false h = ground (arith, h)

classified :
    (ctx : ContextErr) (e : Upstream) → is_confirmation_needed (classify_mutate_err ctx e).0 ≡ false
unfolding classify_mutate_err
classified ctx e = ground arith

-- A failure gives the request id back exactly if it is classified as retryable.
gives_back :
    (confirmed : Bool) (c : Code × ℕ × Bool)
    → is_confirmation_needed c.0 ≡ false
    → (is_confirmation_needed (reconfirm confirmed c).0 || (reconfirm confirmed c).2) ≡ c.2
unfolding reconfirm
gives_back confirmed (code, status, retryable) h = ground (arith, h)

module _ (lib : Library) where
  -- How an ended mutation is answered, audited and remembered.
  abbrev pub Ends : Config → Server → Ticket → Outcome → ℕ → Server × Reply → Type 0
  Ends cfg sv t o now (sv', reply) =
      (status : ℕ) × (body : Str) × (reply ≡ raw status body)
      × ((result : Option Code) × (sv'.audit ≡ audit_entry lib t result ∷ sv.audit))
      × (sv'.dispatched ≡ sv.dispatched)
      × (sv'.nonces ≡ sv.nonces)
      × (is_final o ≡ true
          → sv'.idem ≡ complete sv.idem t.key t.fingerprint status body cfg.idempotency_ttl now)
      × (is_final o ≡ false → sv'.idem ≡ release sv.idem t.key)

  -- Every mutation that was dispatched is answered with a body and audited once, under the session,
  -- operation, resource and request id it had. A success and a failure that is not retryable are
  -- kept for replay as they were answered; a retryable failure gives the request id back.
  pub finish-Ends :
      (cfg : Config) (sv : Server) (t : Ticket) (o : Outcome) (now : ℕ)
      → Ends cfg sv t o now (finish lib cfg sv t o now)
  unfolding finish
  finish-Ends cfg sv t (succeeded result) now =
      (_, _, refl, (_, refl), refl, refl, (λ _. refl), (λ h. ground (arith, h)))
  finish-Ends cfg sv t (errored ctx e) now = (
    _,
    _,
    refl,
    (_, refl),
    refl,
    refl,
    (λ h. rw (given, not_is_true _ h) refl),
    (λ h. rw (given, not_is_false _ h) refl),
  )
    where
      answer : Code × ℕ × Bool
      answer = reconfirm t.spec.requires_confirmation (classify_mutate_err ctx e)

      given : (is_confirmation_needed answer.0 || answer.2) ≡ (classify_mutate_err ctx e).2
      given = gives_back t.spec.requires_confirmation (classify_mutate_err ctx e) (classified ctx e)

  peek_replays :
      (i : IdemStore) (key fp : Str) (status : ℕ) (body : Str) (expires now : ℕ)
      → lookup key i ≡ some (completed fp status body expires)
      → now ≤ expires
      → peek i key fp now ≡ (i, completed fp status body expires, idem_done)
  unfolding peek
  peek_replays i key fp status body expires now at live = ground (arith, str_eq_refl fp)

  peek_key-replays :
      (cfg : Config) (sv : Server) (t : Ticket) (m : Moment) (status : ℕ) (body : Str) (expires : ℕ)
      → lookup t.key sv.idem ≡ some (completed t.fingerprint status body expires)
      → m.peek_at ≤ expires
      → peek_key lib cfg sv t m ≡ (sv, refused (replayed status body))
  unfolding peek_key after_peek
  peek_key-replays cfg sv t m status body expires at live =
      rw (peek_replays sv.idem t.key t.fingerprint status body expires m.peek_at at live) refl

  -- A request with an id, a listed operation and valid params, whose mutation has ended with a
  -- success or a failure that is not retryable, on a server that holds each request id once, is
  -- answered again, until that expires, with the status and body of the first answer, whatever
  -- calls are made on the idempotency cache that neither complete nor release its id. The retry
  -- leaves the server unchanged.
  pub admit-finish :
      (cfg : Config) (sv sv' : Server) (ident : RequestIdentity) (req : MutationRequest)
      (spec : OpSpec) (norm : Str) (o : Outcome) (now : ℕ) (cs : List Call) (m : Moment)
      → is_empty req.request_id ≡ false
      → lookup req.operation operations ≡ some spec
      → normalize_params lib req.params ≡ some norm
      → IsMap sv.idem
      → is_final o ≡ true
      → sv'.idem ≡ run (finish lib cfg sv (ticket lib ident req spec norm) o now).0.idem cs
      → All (Foreign (idem_key ident.session_id req.request_id) (now + cfg.idempotency_ttl)) cs
      → m.peek_at ≤ now + cfg.idempotency_ttl
      → (status : ℕ) × (body : Str) × ((finish lib cfg sv (ticket lib ident req spec norm) o now).1
          ≡ raw status body)
        × (admit lib cfg sv' ident req m ≡ (sv', refused (replayed status body)))
  unfolding admit admit_operation admit_params
  admit-finish cfg sv sv' ident req spec norm o now cs m named listed valid h final after f live =
      let t = ticket lib ident req spec norm in
      let (status, body, answer, _, _, _, keeps, _) = finish-Ends cfg sv t o now in
      let (_, at) =
        run_keeps t.key (completed t.fingerprint status body (now + cfg.idempotency_ttl))
          (complete sv.idem t.key t.fingerprint status body cfg.idempotency_ttl now) cs
          (complete-IsMap sv.idem t.key t.fingerprint status body cfg.idempotency_ttl now h)
          (complete_stores sv.idem t.key t.fingerprint status body cfg.idempotency_ttl now) f in
      let stored =
        ap (λ (i : IdemStore). lookup t.key i)
          (after ∙ ap (λ (i : IdemStore). run i cs) (keeps final))
        ∙ at in
      (
        status,
        body,
        answer,
        rw (named, listed, valid) (peek_key-replays cfg sv' t m status body _ stored live),
      )
