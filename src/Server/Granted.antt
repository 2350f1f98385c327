-- ===== src/Server/Granted.antt =====
-- What a nonce that `handleConfirmations` of internal/server/mutations.go hands out stands for.
use herdr_phone.Base.{
  ◌⊎◌, inl, inr, sym, leb, if◌then◌else◌, kept, prune, IsMap, insert-IsMap, prune-IsMap,
  lookup-prune, str_eq, str_eq_iff, Bool-cases, ℕ, ◌+◌, ◌≤◌, ◌∷◌, ◌≡◌, refl, ap, ◌∙◌, subst, true,
  false, not, ◌&&◌, Option, none, some, arith, ◌==◌, Str, str_eq_refl, lookup, lookup-insert,
  if_both,
}
use herdr_phone.Stores.Nonces.{nonce_expired, Nonce, issue, nonce_gc}
use herdr_phone.Stores.NonceHistory.{bound_to, consume_lem}
use herdr_phone.Server.Operations.{ConfirmSpec, is_empty, generation_checked, confirmable}
use herdr_phone.Server.Mutations.{
  Config, RequestIdentity, Library, Moment, Server, Ticket, admitted, normalize_params,
  divergent_alt, binding, confirm,
}
use herdr_phone.Server.Confirmations.{
  ConfirmationRequest, ConfirmationReply, denied, issued, Draw, bound, issue_entry, issue_nonce,
  confirm_generation, mismatched, confirm_resource, handle_confirmations,
}

module _ (lib : Library) where
  -- The nonce is stored with its binding and audited, and nothing is dispatched.
  abbrev pub IsStored :
      Config → Server → RequestIdentity → ConfirmationRequest → Draw → Server → Str → ℕ → Type 0
  IsStored cfg sv ident req d sv' token exp =
      (norm : Str) × (normalize_params lib req.params ≡ some norm)
      × (token ≡ d.token)
      × (exp ≡ d.issue_at + cfg.confirmation_ttl)
      × ((n : Nonce) × (lookup token sv'.nonces ≡ some n)
          × (bound_to n ≡ bound lib ident req norm)
          × (n.expires_at ≡ exp))
      × (sv'.audit ≡ issue_entry lib ident req ∷ sv.audit)
      × (sv'.idem ≡ sv.idem)
      × (sv'.dispatched ≡ sv.dispatched)

  abbrev Answered :
      Config
      → Server
      → RequestIdentity
      → ConfirmationRequest
      → Draw
      → Server × ConfirmationReply
      → Type 0
  Answered cfg sv ident req d (sv', denied status code) = sv' ≡ sv
  Answered cfg sv ident req d (sv', issued token exp) = IsStored cfg sv ident req d sv' token exp

  issue_nonce-Answered :
      (cfg : Config) (sv : Server) (ident : RequestIdentity) (req : ConfirmationRequest) (d : Draw)
      (o : Option Str)
      → normalize_params lib req.params ≡ o
      → Answered cfg sv ident req d (issue_nonce lib cfg sv ident req d o)
  unfolding issue_nonce issue
  issue_nonce-Answered cfg sv ident req d none e = refl
  issue_nonce-Answered cfg sv ident req d (some norm) e = (
    norm,
    e,
    refl,
    refl,
    (
      _,
      lookup-insert d.token d.token _ (nonce_gc d.sweep_at sv.nonces)
          ∙ rw (str_eq_refl d.token) refl,
      refl,
      refl,
    ),
    refl,
    refl,
    refl,
  )

  -- Of a server's answer: an issued nonce is that of a listed operation at the current generation.
  abbrev pub IsGranted :
      Config
      → Server
      → RequestIdentity
      → ConfirmationRequest
      → Draw
      → Server × ConfirmationReply
      → Type 0
  IsGranted cfg sv ident req d (sv', denied status code) = sv' ≡ sv
  IsGranted cfg sv ident req d (sv', issued token exp) =
      IsStored cfg sv ident req d sv' token exp
      × ((spec : ConfirmSpec) × (lookup req.operation confirmable ≡ some spec)
          × (mismatched lib req spec ≡ false)
          × (divergent_alt lib req.params spec.alt_resource_field req.resource_id ≡ false)
          × (generation_checked spec.resource_field ≡ true
              → d.generation req.resource_id ≡ some req.expected_generation))

  granted :
      (cfg : Config) (sv : Server) (ident : RequestIdentity) (req : ConfirmationRequest) (d : Draw)
      (spec : ConfirmSpec)
      → lookup req.operation confirmable ≡ some spec
      → mismatched lib req spec ≡ false
      → divergent_alt lib req.params spec.alt_resource_field req.resource_id ≡ false
      → (generation_checked spec.resource_field ≡ true
          → d.generation req.resource_id ≡ some req.expected_generation)
      → (r : Server × ConfirmationReply) → Answered cfg sv ident req d r
      → IsGranted cfg sv ident req d r
  granted cfg sv ident req d spec e a b c (sv', denied status code) h = h
  granted cfg sv ident req d spec e a b c (sv', issued token exp) h = (h, (spec, e, a, b, c))

  confirm_generation-IsGranted :
      (cfg : Config) (sv : Server) (ident : RequestIdentity) (req : ConfirmationRequest) (d : Draw)
      (spec : ConfirmSpec)
      → lookup req.operation confirmable ≡ some spec
      → mismatched lib req spec ≡ false
      → divergent_alt lib req.params spec.alt_resource_field req.resource_id ≡ false
      → (o : Option ℕ) → d.generation req.resource_id ≡ o
      → IsGranted cfg sv ident req d (confirm_generation lib cfg sv ident req d o)
  unfolding confirm_generation
  confirm_generation-IsGranted cfg sv ident req d spec e a b none seen = refl
  confirm_generation-IsGranted cfg sv ident req d spec e a b (some gen) seen =
      if_both (IsGranted cfg sv ident req d) (not (req.expected_generation == gen)) (λ _. refl)
        (λ same.
          granted cfg sv ident req d spec e a b (λ _. seen ∙ ap some (ground arith))
            (issue_nonce lib cfg sv ident req d (normalize_params lib req.params))
            (issue_nonce-Answered cfg sv ident req d (normalize_params lib req.params) refl))

  confirm_resource-IsGranted :
      (cfg : Config) (sv : Server) (ident : RequestIdentity) (req : ConfirmationRequest) (d : Draw)
      (o : Option ConfirmSpec)
      → lookup req.operation confirmable ≡ o
      → IsGranted cfg sv ident req d (confirm_resource lib cfg sv ident req d o)
  unfolding confirm_resource
  confirm_resource-IsGranted cfg sv ident req d none e = refl
  confirm_resource-IsGranted cfg sv ident req d (some spec) e =
      if_both G (not (is_empty spec.resource_field) && is_empty req.resource_id) (λ _. refl)
        λ _.
          if_both G (mismatched lib req spec) (λ _. refl)
            λ a.
              if_both G (divergent_alt lib req.params spec.alt_resource_field req.resource_id)
                (λ _. refl)
                λ b.
                  if_both G (generation_checked spec.resource_field)
                    (λ _. confirm_generation-IsGranted cfg sv ident req d spec e a b _ refl)
                    (λ free.
                      granted cfg sv ident req d spec e a b (λ checked. cc (free, checked))
                        (issue_nonce lib cfg sv ident req d (normalize_params lib req.params))
                        (issue_nonce-Answered cfg sv ident req d (normalize_params lib req.params)
                          refl))
    where
      G : Server × ConfirmationReply → Type 0
      G = IsGranted cfg sv ident req d

  granted_reply :
      (cfg : Config) (sv : Server) (ident : RequestIdentity) (req : ConfirmationRequest) (d : Draw)
      → IsGranted cfg sv ident req d (handle_confirmations lib cfg sv ident req d)
  unfolding handle_confirmations
  granted_reply cfg sv ident req d =
      confirm_resource-IsGranted cfg sv ident req d (lookup req.operation confirmable) refl

  -- A nonce that has not expired.
  abbrev pub live_at : ℕ → Option Nonce → Option Nonce
  live_at now none = none
  live_at now (some n) = if leb now n.expires_at then some n else none

  kept-live_at : (now : ℕ) (o : Option Nonce) → kept (nonce_expired now) o ≡ live_at now o
  kept-live_at now none = refl
  kept-live_at now (some n) = ground arith

  -- The issued token is the only one that is added, and of the others only the expired ones go.
  abbrev pub OnlyAdds : Server → Draw → Server × ConfirmationReply → Type 0
  OnlyAdds sv d (sv', denied status code) = sv' ≡ sv
  OnlyAdds sv d (sv', issued token exp) =
      IsMap sv'.nonces
      × ((j : Str) → (j ≡ token) ⊎ (lookup j sv'.nonces ≡ live_at d.sweep_at (lookup j sv.nonces)))

  issue_nonce-OnlyAdds :
      (cfg : Config) (sv : Server) (ident : RequestIdentity) (req : ConfirmationRequest) (d : Draw)
      (o : Option Str)
      → IsMap sv.nonces
      → OnlyAdds sv d (issue_nonce lib cfg sv ident req d o)
  unfolding issue_nonce issue nonce_gc
  issue_nonce-OnlyAdds cfg sv ident req d none h = refl
  issue_nonce-OnlyAdds cfg sv ident req d (some norm) h =
      let swept = prune (nonce_expired d.sweep_at) sv.nonces in
      (
        insert-IsMap d.token _ swept (prune-IsMap (nonce_expired d.sweep_at) sv.nonces h),
        λ j. elim (Bool-cases (str_eq d.token j)) [
          | inl e ↦ inl (sym ((str_eq_iff d.token j).0 e))
          | inr e ↦ inr (
              lookup-insert d.token j _ swept
              ∙ rw e (
                  lookup-prune (nonce_expired d.sweep_at) j sv.nonces h
                  ∙ kept-live_at d.sweep_at (lookup j sv.nonces)))
        ],
      )

  handle_confirmations-OnlyAdds :
      (cfg : Config) (sv : Server) (ident : RequestIdentity) (req : ConfirmationRequest) (d : Draw)
      → IsMap sv.nonces
      → OnlyAdds sv d (handle_confirmations lib cfg sv ident req d)
  unfolding handle_confirmations confirm_resource confirm_generation
  handle_confirmations-OnlyAdds cfg sv ident req d h = resource (lookup req.operation confirmable)
    where
      issues : (o : Option Str) → OnlyAdds sv d (issue_nonce lib cfg sv ident req d o)
      issues o = issue_nonce-OnlyAdds cfg sv ident req d o h

      generation : (o : Option ℕ) → OnlyAdds sv d (confirm_generation lib cfg sv ident req d o)
      generation none = refl
      generation (some gen) =
          if_both (OnlyAdds sv d) (not (req.expected_generation == gen)) (λ _. refl)
            (λ _. issues (normalize_params lib req.params))

      resource :
          (o : Option ConfirmSpec) → OnlyAdds sv d (confirm_resource lib cfg sv ident req d o)
      resource none = refl
      resource (some spec) =
          if_both (OnlyAdds sv d) (not (is_empty spec.resource_field) && is_empty req.resource_id)
            (λ _. refl)
            λ _.
              if_both (OnlyAdds sv d) (mismatched lib req spec) (λ _. refl)
                λ _.
                  if_both (OnlyAdds sv d)
                    (divergent_alt lib req.params spec.alt_resource_field req.resource_id)
                    (λ _. refl)
                    λ _.
                      if_both (OnlyAdds sv d) (generation_checked spec.resource_field)
                        (λ _. generation (d.generation req.resource_id))
                        (λ _. issues (normalize_params lib req.params))

  -- On a server that holds each nonce once, `handleConfirmations` changes nothing when it refuses.
  -- When it answers with a token, the operation is one that needs confirmation, the params are valid
  -- and agree with the resource id, and a pane is at the expected generation. A nonce is then stored
  -- under the token for the confirmation lifetime, bound to the operation, resource, generation,
  -- session and params of the request, with one audit entry; it is the only one added, and of the
  -- others just the expired ones are gone.
  pub handle_confirmations-IsGranted :
      (cfg : Config) (sv : Server) (ident : RequestIdentity) (req : ConfirmationRequest) (d : Draw)
      → IsMap sv.nonces
      → IsGranted cfg sv ident req d (handle_confirmations lib cfg sv ident req d)
        × OnlyAdds sv d (handle_confirmations lib cfg sv ident req d)
  handle_confirmations-IsGranted cfg sv ident req d h =
      (granted_reply cfg sv ident req d, handle_confirmations-OnlyAdds cfg sv ident req d h)

  -- A mutation that asks for what a confirmation was issued for.
  abbrev pub IsConfirmed : RequestIdentity → ConfirmationRequest → Str → Ticket → Type 0
  IsConfirmed ident req token t =
      (t.request.confirmation ≡ token)
      × ((norm : Str)
          → normalize_params lib req.params ≡ some norm
          → bound lib ident req norm ≡ binding lib t)

  -- The token that a confirmation request is answered with is accepted: a mutation with it, for the
  -- same operation, resource, generation, session and params, made before the expiry, passes the
  -- confirmation check of `handleMutations` and is dispatched.
  pub confirm-handle_confirmations :
      (cfg : Config) (sv sv' : Server) (ident : RequestIdentity) (req : ConfirmationRequest)
      (d : Draw) (token : Str) (exp : ℕ) (t : Ticket) (m : Moment)
      → handle_confirmations lib cfg sv ident req d ≡ (sv', issued token exp)
      → IsConfirmed ident req token t
      → m.consume_at ≤ exp
      → ((confirm lib sv' t m).1 ≡ admitted t)
        × ((confirm lib sv' t m).0.dispatched
            ≡ (t.request.operation, t.request.params) ∷ sv'.dispatched)
  unfolding confirm
  confirm-handle_confirmations cfg sv sv' ident req d token exp t m e (same, bind) live =
      let ((norm, f, _, _, (n, at, bounds, expires), _, _, _), _) =
        subst (IsGranted cfg sv ident req d) e (granted_reply cfg sv ident req d) in
      let ok = (consume_lem sv'.nonces t.request.confirmation (binding lib t) m.consume_at).0.1 (
        n,
        ap (λ k. lookup k sv'.nonces) same ∙ at,
        bounds ∙ bind norm f,
        omega (arith, expires),
      ) in
      ground (arith, ok)
