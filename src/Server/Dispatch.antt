-- ===== src/Server/Dispatch.antt =====
-- The last stages of `handleMutations` of internal/server/mutations.go, from the reservation of the
-- request id to the call of `Mutator.Mutate`.
use herdr_phone.Base.{
  ℕ, ◌+◌, ◌≤◌, ◌∷◌, ◌≡◌, refl, ap, ◌∙◌, Bool, true, false, not, none, some, arith, Str, str_eq_refl,
  lookup, lookup-insert, if_both, Option-cases, inl, inr,
}
use herdr_phone.Stores.Nonces.{Nonce, consume}
use herdr_phone.Stores.NonceHistory.{bound_to, consume_lem}
use herdr_phone.Stores.Idem.{
  IdemStore, IdemEntry, IdemResult, idem_reserved, idem_in_flight, idem_done, idem_mismatch,
  idem_miss, reserve, reservation, held, idem_gc,
}
use herdr_phone.Server.Mutations.{
  Config, Library, Moment, Server, Ticket, Admission, refused, admitted, reservation_ttl, binding,
  confirm, after_reserve, reserve_key,
}

-- Whether `reserve` has given the key to its caller; it never answers with a miss.
abbrev pub owns : IdemResult → Bool
owns idem_reserved = true
owns idem_miss = true
owns _ = false

pub held_elsewhere : (e : IdemEntry) (fp : Str) → owns (held e fp).1 ≡ false
unfolding held
held_elsewhere e fp = ground arith

owns-reserve :
    (m : IdemStore) (key fp : Str) (ttl now later : ℕ)
    → owns (reserve m key fp ttl now later).2 ≡ true
    → lookup key (reserve m key fp ttl now later).0 ≡ some (reservation fp (later + ttl))
unfolding reserve
owns-reserve m key fp ttl now later own = elim (Option-cases (lookup key (idem_gc now m))) [
  | inl e ↦ ground (
    arith,
    e,
    str_eq_refl key,
    lookup-insert key key (reservation fp (later + ttl)) (idem_gc now m),
  )
  | inr (entry, e) ↦ ground (arith, e, own, held_elsewhere entry fp)
]

module _ (lib : Library) where
  -- The confirmation that a destructive operation has spent: it was stored under the token of the
  -- request, bound to the operation, resource, generation, session and params, and live; it is gone.
  abbrev pub Confirmed : Server → Server → Ticket → Moment → Type 0
  Confirmed sv sv' t m =
      t.spec.requires_confirmation ≡ true
      → ((n : Nonce) × (lookup t.request.confirmation sv.nonces ≡ some n)
          × (bound_to n ≡ binding lib t)
          × (m.consume_at ≤ n.expires_at))
        × (lookup t.request.confirmation sv'.nonces ≡ none)

  -- The key of the request is reserved for it.
  abbrev pub IsHeld : Config → Ticket → Moment → Server → Type 0
  IsHeld cfg t m sv =
      lookup t.key sv.idem
      ≡ some (reservation t.fingerprint (m.reserve_later + reservation_ttl cfg))

  -- From a server `sv`: a refusal dispatches nothing; an admission dispatches the request once,
  -- confirmed.
  abbrev pub Dispatched : Config → Server → Ticket → Moment → Server × Admission → Type 0
  Dispatched cfg sv t m (sv', refused r) = sv'.dispatched ≡ sv.dispatched
  Dispatched cfg sv t m (sv', admitted t') =
      (t' ≡ t)
      × (sv'.dispatched ≡ (t.request.operation, t.request.params) ∷ sv.dispatched)
      × IsHeld cfg t m sv'
      × Confirmed sv sv' t m

  confirm-Dispatched :
      (cfg : Config) (sv : Server) (t : Ticket) (m : Moment)
      → IsHeld cfg t m sv
      → Dispatched cfg sv t m (confirm lib sv t m)
  unfolding confirm
  confirm-Dispatched cfg sv t m held =
      let spent = consume_lem sv.nonces t.request.confirmation (binding lib t) m.consume_at in
      if_both (Dispatched cfg sv t m) (not t.spec.requires_confirmation)
        (λ free. (refl, refl, held, λ needs. cc (free, ap not needs)))
        λ _.
          if_both (Dispatched cfg sv t m)
            (consume sv.nonces t.request.confirmation (binding lib t) m.consume_at).1
            (λ ok. (
              refl,
              refl,
              held,
              λ _. (
                spent.0.0 ok,
                spent.1 t.request.confirmation ∙ rw (str_eq_refl t.request.confirmation) refl,
              ),
            ))
            (λ _. refl)

  after_reserve-Dispatched :
      (cfg : Config) (sv : Server) (t : Ticket) (m : Moment) (e : IdemEntry) (r : IdemResult)
      → (owns r ≡ true → IsHeld cfg t m sv)
      → Dispatched cfg sv t m (after_reserve lib sv t m e r)
  unfolding after_reserve
  after_reserve-Dispatched cfg sv t m e idem_done h = refl
  after_reserve-Dispatched cfg sv t m e idem_in_flight h = refl
  after_reserve-Dispatched cfg sv t m e idem_mismatch h = refl
  after_reserve-Dispatched cfg sv t m e idem_reserved h =
      if_both (Dispatched cfg sv t m) m.expired_before_dispatch (λ _. refl)
        (λ _. confirm-Dispatched cfg sv t m (h refl))
  after_reserve-Dispatched cfg sv t m e idem_miss h =
      if_both (Dispatched cfg sv t m) m.expired_before_dispatch (λ _. refl)
        (λ _. confirm-Dispatched cfg sv t m (h refl))

  pub reserve_key-Dispatched :
      (cfg : Config) (sv : Server) (t : Ticket) (m : Moment)
      → Dispatched cfg sv t m (reserve_key lib cfg sv t m)
  unfolding reserve_key
  reserve_key-Dispatched cfg sv t m =
      after_reserve-Dispatched cfg _ t m _ _ (
        owns-reserve sv.idem t.key t.fingerprint (reservation_ttl cfg) m.reserve_at m.reserve_later)
