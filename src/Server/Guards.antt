-- ===== src/Server/Guards.antt =====
-- What `handleMutations` of internal/server/mutations.go has checked when it calls `Mutator.Mutate`.
use herdr_phone.Base.{
  ℕ, ◌+◌, ◌-◌, ◌*◌, ◌<◌, ◌∷◌, ◌≡◌, ◌≢◌, ◌⊎◌, refl, sym, ap, ◌∙◌, subst, true, false, not, ◌&&◌,
  Option, none, some, arith, ltb, leb, ◌==◌, Str, lookup, if◌then◌else◌, if_both, inl, inr,
}
use herdr_phone.Stores.Idem.{
  IdemEntry, IdemResult, idem_reserved, idem_done, idem_mismatch, peek, held,
}
use herdr_phone.Server.Operations.{OpSpec, is_empty, generation_checked, operations}
use herdr_phone.Server.Mutations.{
  MutationRequest, Config, RequestIdentity, Library, Reply, Moment, Server, Ticket, Admission,
  refused, admitted, normalize_params, divergent_alt, reserve_key, check_deadline, at_generation,
  check_generation, check_target, ticket, after_peek, peek_key, admit_params, admit_operation,
  admit,
}
use herdr_phone.Server.Dispatch.{Confirmed, IsHeld, Dispatched, reserve_key-Dispatched}

module _ (lib : Library) where
  -- What the stages of the handler before the reservation check.
  abbrev InTime : Config → Ticket → Moment → Type 0
  InTime cfg t m =
      (0 < cfg.server_mutation_deadline)
      × (0 < t.request.deadline_unix_ms
          → m.check_at + cfg.deadline_skew < t.request.deadline_unix_ms * 1_000_000)

  abbrev Current : Ticket → Moment → Type 0
  Current t m =
      generation_checked t.spec.resource_field ≡ true
      → (t.request.expected_generation ≢ 0)
        × (m.generation t.resource ≡ some t.request.expected_generation)

  abbrev pub Refused : Server → Server × Admission → Type 0
  Refused sv r = (reply : Reply) × (r ≡ (sv, refused reply))

  pub check_deadline-cases :
      (cfg : Config) (sv : Server) (t : Ticket) (m : Moment)
      → Refused sv (check_deadline lib cfg sv t m)
        ⊎ (InTime cfg t m × (check_deadline lib cfg sv t m ≡ reserve_key lib cfg sv t m))
  unfolding check_deadline
  check_deadline-cases cfg sv t m =
      if_both Cases
        (ltb 0 t.request.deadline_unix_ms
          && leb (t.request.deadline_unix_ms * 1_000_000) (m.check_at + cfg.deadline_skew))
        (λ _. inl (_, refl))
        λ timely.
          if_both Cases (budget == 0) (λ _. inl (_, refl)) (λ some_left. inr (ground arith, refl))
    where
      Cases : Server × Admission → Type 0
      Cases r = Refused sv r ⊎ (InTime cfg t m × (r ≡ reserve_key lib cfg sv t m))

      budget : ℕ
      budget =
          if ltb 0 t.request.deadline_unix_ms
            && ltb (t.request.deadline_unix_ms * 1_000_000 - (m.check_at + cfg.deadline_skew))
                cfg.server_mutation_deadline
          then t.request.deadline_unix_ms * 1_000_000 - (m.check_at + cfg.deadline_skew)
          else cfg.server_mutation_deadline

  at_generation-cases :
      (cfg : Config) (sv : Server) (t : Ticket) (m : Moment) (seen : Option ℕ)
      → Refused sv (at_generation lib cfg sv t m seen)
        ⊎ ((seen ≡ some t.request.expected_generation)
            × (at_generation lib cfg sv t m seen ≡ check_deadline lib cfg sv t m))
  unfolding at_generation
  at_generation-cases cfg sv t m none = inl (_, refl)
  at_generation-cases cfg sv t m (some gen) =
      if_both Cases (gen == t.request.expected_generation)
        (λ same. inr (ap some (ground arith), refl)) (λ _. inl (_, refl))
    where
      Cases : Server × Admission → Type 0
      Cases r =
          Refused sv r
          ⊎ ((some gen ≡ some t.request.expected_generation) × (r ≡ check_deadline lib cfg sv t m))

  pub check_generation-cases :
      (cfg : Config) (sv : Server) (t : Ticket) (m : Moment)
      → Refused sv (check_generation lib cfg sv t m)
        ⊎ (Current t m × (check_generation lib cfg sv t m ≡ check_deadline lib cfg sv t m))
  unfolding check_generation
  check_generation-cases cfg sv t m =
      if_both Cases (not (generation_checked t.spec.resource_field))
        (λ free. inr (λ scoped. cc (free, ap not scoped), refl))
        λ _.
          if_both Cases (t.request.expected_generation == 0) (λ _. inl (_, refl))
            λ set. elim (at_generation-cases cfg sv t m (m.generation t.resource)) [
              | inl stale ↦ inl stale
              | inr (same, next) ↦ inr (λ _. (ground arith, same), next)
            ]
    where
      Cases : Server × Admission → Type 0
      Cases r = Refused sv r ⊎ (Current t m × (r ≡ check_deadline lib cfg sv t m))

  pub check_target-cases :
      (cfg : Config) (sv : Server) (t : Ticket) (m : Moment)
      → Refused sv (check_target lib cfg sv t m)
        ⊎ ((divergent_alt lib t.request.params t.spec.alt_resource_field t.resource ≡ false)
            × (check_target lib cfg sv t m ≡ check_generation lib cfg sv t m))
  unfolding check_target
  check_target-cases cfg sv t m =
      if_both Cases (divergent_alt lib t.request.params t.spec.alt_resource_field t.resource)
        (λ _. inl (_, refl))
        λ agrees.
          if_both Cases (t.spec.requires_confirmation && is_empty t.request.confirmation)
            (λ _. inl (_, refl)) (λ _. inr (agrees, refl))
    where
      Cases : Server × Admission → Type 0
      Cases r =
          Refused sv r
          ⊎ ((divergent_alt lib t.request.params t.spec.alt_resource_field t.resource ≡ false)
              × (r ≡ check_generation lib cfg sv t m))

  pub after_peek-cases :
      (cfg : Config) (sv : Server) (t : Ticket) (m : Moment) (e : IdemEntry) (r : IdemResult)
      → Refused sv (after_peek lib cfg sv t m e r)
        ⊎ (after_peek lib cfg sv t m e r ≡ check_target lib cfg sv t m)
  unfolding after_peek
  after_peek-cases cfg sv t m e idem_done = inl (_, refl)
  after_peek-cases cfg sv t m e idem_mismatch = inl (_, refl)
  after_peek-cases cfg sv t m e idem_reserved = inr refl
  after_peek-cases cfg sv t m e _ = inr refl

  -- What holds of a request that the handler of `t` reaches through its guards.
  abbrev Guarded : Config → Ticket → Moment → Type 0
  Guarded cfg t m =
      (divergent_alt lib t.request.params t.spec.alt_resource_field t.resource ≡ false)
      × Current t m
      × InTime cfg t m

  abbrev IsGuarded : Config → Server → Ticket → Moment → Server × Admission → Type 0
  IsGuarded cfg sv t m (sv', refused r) = Dispatched lib cfg sv t m (sv', refused r)
  IsGuarded cfg sv t m (sv', admitted t') =
      Dispatched lib cfg sv t m (sv', admitted t') × Guarded cfg t m

  Refused-IsGuarded :
      (cfg : Config) (sv : Server) (t : Ticket) (m : Moment) {r : Server × Admission}
      → Refused sv r
      → IsGuarded cfg sv t m r
  Refused-IsGuarded cfg sv t m (reply, same) = subst (IsGuarded cfg sv t m) (sym same) refl

  pass-IsGuarded :
      (cfg : Config) (sv : Server) (t : Ticket) (m : Moment) (r : Server × Admission)
      → Guarded cfg t m
      → Dispatched lib cfg sv t m r
      → IsGuarded cfg sv t m r
  pass-IsGuarded cfg sv t m (sv', refused r) g d = d
  pass-IsGuarded cfg sv t m (sv', admitted t') g d = (d, g)

  check_target-IsGuarded :
      (cfg : Config) (sv : Server) (t : Ticket) (m : Moment)
      → IsGuarded cfg sv t m (check_target lib cfg sv t m)
  check_target-IsGuarded cfg sv t m = elim (check_target-cases cfg sv t m) [
    | inl stop ↦ Refused-IsGuarded cfg sv t m stop
    | inr (agrees, to_generation) ↦ elim (check_generation-cases cfg sv t m) [
      | inl stop ↦
          subst (IsGuarded cfg sv t m) (sym to_generation) (Refused-IsGuarded cfg sv t m stop)
      | inr (current, to_deadline) ↦ elim (check_deadline-cases cfg sv t m) [
        | inl stop ↦
            subst (IsGuarded cfg sv t m) (sym (to_generation ∙ to_deadline))
              (Refused-IsGuarded cfg sv t m stop)
        | inr (timely, to_reserve) ↦
            subst (IsGuarded cfg sv t m) (sym (to_generation ∙ to_deadline ∙ to_reserve)) (
              pass-IsGuarded cfg sv t m (reserve_key lib cfg sv t m) (agrees, current, timely)
                (reserve_key-Dispatched lib cfg sv t m))
      ]
    ]
  ]

  peek_key-IsGuarded :
      (cfg : Config) (sv : Server) (t : Ticket) (m : Moment)
      → IsGuarded cfg sv t m (peek_key lib cfg sv t m)
  unfolding peek_key
  peek_key-IsGuarded cfg sv t m =
      let (idem', e, r) = peek sv.idem t.key t.fingerprint m.peek_at in
      elim (after_peek-cases cfg (record sv { idem = idem' }) t m e r) [
        | inl stop ↦ Refused-IsGuarded cfg (record sv { idem = idem' }) t m stop
        | inr next ↦
            subst (IsGuarded cfg sv t m) (sym next)
              (check_target-IsGuarded cfg (record sv { idem = idem' }) t m)
      ]

  -- An admission of a request is that of a listed operation, with valid params, and has passed every
  -- guard.
  abbrev pub IsAllowed :
      Config → Server → RequestIdentity → MutationRequest → Moment → Server × Admission → Type 0
  IsAllowed cfg sv ident req m (sv', refused r) = sv'.dispatched ≡ sv.dispatched
  IsAllowed cfg sv ident req m (sv', admitted t) =
      (spec : OpSpec) × (norm : Str) × (lookup req.operation operations ≡ some spec)
      × (normalize_params lib req.params ≡ some norm)
      × (t ≡ ticket lib ident req spec norm)
      × (sv'.dispatched ≡ (req.operation, req.params) ∷ sv.dispatched)
      × IsHeld lib cfg (ticket lib ident req spec norm) m sv'
      × Confirmed lib sv sv' (ticket lib ident req spec norm) m
      × Guarded cfg (ticket lib ident req spec norm) m

  ticket-IsAllowed :
      (cfg : Config) (sv : Server) (ident : RequestIdentity) (req : MutationRequest) (m : Moment)
      (spec : OpSpec) (norm : Str)
      → lookup req.operation operations ≡ some spec
      → normalize_params lib req.params ≡ some norm
      → (r : Server × Admission) → IsGuarded cfg sv (ticket lib ident req spec norm) m r
      → IsAllowed cfg sv ident req m r
  ticket-IsAllowed cfg sv ident req m spec norm e f (sv', refused r) d = d
  ticket-IsAllowed cfg sv ident req m spec norm e f (sv', admitted t)
        ((same, once, held, spent), g) =
      (spec, norm, e, f, same, once, held, spent, g)

  admit_params-IsAllowed :
      (cfg : Config) (sv : Server) (ident : RequestIdentity) (req : MutationRequest) (m : Moment)
      (spec : OpSpec)
      → lookup req.operation operations ≡ some spec
      → (o : Option Str) → normalize_params lib req.params ≡ o
      → IsAllowed cfg sv ident req m (admit_params lib cfg sv ident req m spec o)
  unfolding admit_params
  admit_params-IsAllowed cfg sv ident req m spec e none f = refl
  admit_params-IsAllowed cfg sv ident req m spec e (some norm) f =
      ticket-IsAllowed cfg sv ident req m spec norm e f
        (peek_key lib cfg sv (ticket lib ident req spec norm) m)
        (peek_key-IsGuarded cfg sv (ticket lib ident req spec norm) m)

  admit_operation-IsAllowed :
      (cfg : Config) (sv : Server) (ident : RequestIdentity) (req : MutationRequest) (m : Moment)
      (o : Option OpSpec)
      → lookup req.operation operations ≡ o
      → IsAllowed cfg sv ident req m (admit_operation lib cfg sv ident req m o)
  unfolding admit_operation
  admit_operation-IsAllowed cfg sv ident req m none e = refl
  admit_operation-IsAllowed cfg sv ident req m (some spec) e =
      admit_params-IsAllowed cfg sv ident req m spec e (normalize_params lib req.params) refl

  pub admit-IsAllowed :
      (cfg : Config) (sv : Server) (ident : RequestIdentity) (req : MutationRequest) (m : Moment)
      → IsAllowed cfg sv ident req m (admit lib cfg sv ident req m)
  unfolding admit
  admit-IsAllowed cfg sv ident req m =
      if_both (IsAllowed cfg sv ident req m) (is_empty req.request_id) (λ _. refl)
        λ _. admit_operation-IsAllowed cfg sv ident req m (lookup req.operation operations) refl
