-- ===== src/Server/Replays.antt =====
-- What becomes of a second request under the request id of `handleMutations`
-- (internal/server/mutations.go): while the first is in flight, and after its end.
use herdr_phone.Base.{
  ℕ, ◌+◌, ◌≤◌, List, ◌≡◌, refl, sym, ap, ◌∙◌, subst, false, Option, none, some, arith, Str, All,
  lookup, if_both, inl, inr, IsMap,
}
use herdr_phone.Stores.Idem.{
  IdemStore, IdemEntry, IdemResult, idem_reserved, idem_in_flight, idem_done, idem_mismatch,
  idem_miss, idem_key, peek, reservation, held,
}
use herdr_phone.Stores.IdemHistory.{Call, Foreign, run, run_keeps, reserve-held}
use herdr_phone.Server.Operations.{OpSpec, is_empty, operations}
use herdr_phone.Server.Mutations.{
  MutationRequest, Config, RequestIdentity, Library, Reply, Moment, Server, Ticket, Admission,
  refused, admitted, reservation_ttl, normalize_params, after_reserve, reserve_key, check_target,
  ticket, peek_key, admit_params, admit_operation, admit,
}
use herdr_phone.Server.Dispatch.{owns, held_elsewhere}
use herdr_phone.Server.Guards.{
  Refused, check_target-cases, check_generation-cases, check_deadline-cases, after_peek-cases,
  IsAllowed, admit-IsAllowed,
}

-- A refusal that dispatches nothing and spends no nonce.
abbrev pub Stops : Server → Server × Admission → Type 0
Stops sv r =
    ((reply : Reply) × (r.1 ≡ refused reply))
    × (r.0.dispatched ≡ sv.dispatched)
    × (r.0.nonces ≡ sv.nonces)

-- An unexpired reservation, of whatever request, under the key.
abbrev Taken : Str → ℕ → IdemStore → Type 0
Taken key limit m = IsMap m × ((fp : Str) × (lookup key m ≡ some (reservation fp limit)))

peek_pending :
    (m : IdemStore) (key fp fp' : Str) (now limit : ℕ)
    → lookup key m ≡ some (reservation fp limit)
    → now ≤ limit
    → (peek m key fp' now).0 ≡ m
unfolding peek
peek_pending m key fp fp' now limit at live = ground arith

module _ (lib : Library) where
  Refused-Stops : (sv : Server) {r : Server × Admission} → Refused lib sv r → Stops sv r
  Refused-Stops sv (reply, same) = subst (Stops sv) (sym same) ((reply, refl), refl, refl)

  after_reserve-Stops :
      (sv : Server) (t : Ticket) (m : Moment) (e : IdemEntry) (r : IdemResult)
      → owns r ≡ false
      → Stops sv (after_reserve lib sv t m e r)
  unfolding after_reserve
  after_reserve-Stops sv t m e idem_done h = ((_, refl), refl, refl)
  after_reserve-Stops sv t m e idem_in_flight h = ((_, refl), refl, refl)
  after_reserve-Stops sv t m e idem_mismatch h = ((_, refl), refl, refl)
  after_reserve-Stops sv t m e idem_reserved h = ground (arith, h)
  after_reserve-Stops sv t m e idem_miss h = ground (arith, h)

  reserve_key-Stops :
      (cfg : Config) (sv : Server) (t : Ticket) (m : Moment) (limit : ℕ)
      → Taken t.key limit sv.idem
      → m.reserve_at ≤ limit
      → Stops sv (reserve_key lib cfg sv t m)
  unfolding reserve_key
  reserve_key-Stops cfg sv t m limit (h, (fp, at)) live = after_reserve-Stops _ t m _ _ (
      (ap owns
        (reserve-held sv.idem t.key t.fingerprint (reservation_ttl cfg) m.reserve_at m.reserve_later
          (reservation fp limit) h at live).1)
      ∙ held_elsewhere (reservation fp limit) t.fingerprint)

  check_target-Stops :
      (cfg : Config) (sv : Server) (t : Ticket) (m : Moment)
      → Stops sv (reserve_key lib cfg sv t m)
      → Stops sv (check_target lib cfg sv t m)
  check_target-Stops cfg sv t m stop = elim (check_target-cases lib cfg sv t m) [
    | inl r ↦ Refused-Stops sv r
    | inr (_, to_generation) ↦
        subst (Stops sv) (sym to_generation) (elim (check_generation-cases lib cfg sv t m) [
          | inl r ↦ Refused-Stops sv r
          | inr (_, to_deadline) ↦
              subst (Stops sv) (sym to_deadline) (elim (check_deadline-cases lib cfg sv t m) [
                | inl r ↦ Refused-Stops sv r
                | inr (_, to_reserve) ↦ subst (Stops sv) (sym to_reserve) stop
              ])
        ])
  ]

  peek_key-Stops :
      (cfg : Config) (sv : Server) (t : Ticket) (m : Moment) (limit : ℕ)
      → Taken t.key limit sv.idem
      → m.peek_at ≤ limit
      → m.reserve_at ≤ limit
      → Stops sv (peek_key lib cfg sv t m)
  unfolding peek_key
  peek_key-Stops cfg sv t m limit (h, (fp, at)) early live =
      let (idem', e, r) = peek sv.idem t.key t.fingerprint m.peek_at in
      let same = peek_pending sv.idem t.key fp t.fingerprint m.peek_at limit at early in
      elim (after_peek-cases lib cfg (record sv { idem = idem' }) t m e r) [
        | inl r ↦ Refused-Stops (record sv { idem = idem' }) r
        | inr next ↦ subst (Stops sv) (sym next) (
            check_target-Stops cfg (record sv { idem = idem' }) t m
              (reserve_key-Stops cfg (record sv { idem = idem' }) t m limit
                (subst (Taken t.key limit) (sym same) (h, (fp, at))) live))
      ]

  admit_params-Stops :
      (cfg : Config) (sv : Server) (ident : RequestIdentity) (req : MutationRequest) (m : Moment)
      (limit : ℕ) (spec : OpSpec) (o : Option Str)
      → Taken (idem_key ident.session_id req.request_id) limit sv.idem
      → m.peek_at ≤ limit
      → m.reserve_at ≤ limit
      → Stops sv (admit_params lib cfg sv ident req m spec o)
  unfolding admit_params
  admit_params-Stops cfg sv ident req m limit spec none h early live = ((_, refl), refl, refl)
  admit_params-Stops cfg sv ident req m limit spec (some norm) h early live =
      peek_key-Stops cfg sv (ticket lib ident req spec norm) m limit h early live

  admit_operation-Stops :
      (cfg : Config) (sv : Server) (ident : RequestIdentity) (req : MutationRequest) (m : Moment)
      (limit : ℕ) (o : Option OpSpec)
      → Taken (idem_key ident.session_id req.request_id) limit sv.idem
      → m.peek_at ≤ limit
      → m.reserve_at ≤ limit
      → Stops sv (admit_operation lib cfg sv ident req m o)
  unfolding admit_operation
  admit_operation-Stops cfg sv ident req m limit none h early live = ((_, refl), refl, refl)
  admit_operation-Stops cfg sv ident req m limit (some spec) h early live =
      admit_params-Stops cfg sv ident req m limit spec (normalize_params lib req.params) h early
        live

  admit-Stops :
      (cfg : Config) (sv : Server) (ident : RequestIdentity) (req : MutationRequest) (m : Moment)
      (limit : ℕ)
      → Taken (idem_key ident.session_id req.request_id) limit sv.idem
      → m.peek_at ≤ limit
      → m.reserve_at ≤ limit
      → Stops sv (admit lib cfg sv ident req m)
  unfolding admit
  admit-Stops cfg sv ident req m limit h early live =
      if_both (Stops sv) (is_empty req.request_id) (λ _. ((_, refl), refl, refl))
        λ _.
          admit_operation-Stops cfg sv ident req m limit (lookup req.operation operations) h early
            live

  -- An admitted request holds its key until its reservation expires.
  admitted-Taken :
      (cfg : Config) (sv sv1 : Server) (ident : RequestIdentity) (req : MutationRequest)
      (m : Moment) (t : Ticket) (cs : List Call)
      → admit lib cfg sv ident req m ≡ (sv1, admitted t)
      → IsMap sv1.idem
      → All
          (Foreign
            (idem_key ident.session_id req.request_id)
            (m.reserve_later + reservation_ttl cfg))
          cs
      → Taken
          (idem_key ident.session_id req.request_id)
          (m.reserve_later + reservation_ttl cfg)
          (run sv1.idem cs)
  admitted-Taken cfg sv sv1 ident req m t cs e h f =
      let (spec, norm, _, _, _, _, held, _, _) =
        subst (IsAllowed lib cfg sv ident req m) e (admit-IsAllowed lib cfg sv ident req m) in
      let (is_map, at) = run_keeps _ _ sv1.idem cs h held f in (is_map, (_, at))

  -- After a request has been admitted by a server that then holds each request id once, until its
  -- reservation expires, and whatever calls are made on the idempotency cache that neither complete
  -- nor release its id: every request of the same session under the same request id is refused. It
  -- dispatches nothing and spends no nonce.
  pub admit-admit :
      (cfg : Config) (sv sv1 sv2 : Server) (ident ident' : RequestIdentity)
      (req req' : MutationRequest) (m m' : Moment) (t : Ticket) (cs : List Call)
      → admit lib cfg sv ident req m ≡ (sv1, admitted t)
      → IsMap sv1.idem
      → sv2.idem ≡ run sv1.idem cs
      → All
          (Foreign
            (idem_key ident.session_id req.request_id)
            (m.reserve_later + reservation_ttl cfg))
          cs
      → ident'.session_id ≡ ident.session_id
      → req'.request_id ≡ req.request_id
      → m'.peek_at ≤ m.reserve_later + reservation_ttl cfg
      → m'.reserve_at ≤ m.reserve_later + reservation_ttl cfg
      → Stops sv2 (admit lib cfg sv2 ident' req' m')
  admit-admit cfg sv sv1 sv2 ident ident' req req' m m' t cs e h after f same_session same_id early
        live =
      let limit = m.reserve_later + reservation_ttl cfg in
      let taken =
        subst (Taken (idem_key ident.session_id req.request_id) limit) (sym after)
          (admitted-Taken cfg sv sv1 ident req m t cs e h f) in
      admit-Stops cfg sv2 ident' req' m' limit
        (subst (λ k. Taken k limit sv2.idem) (sym same_key) taken) early live
    where
      same_key :
          idem_key ident'.session_id req'.request_id ≡ idem_key ident.session_id req.request_id
      same_key = rw (same_session, same_id) refl
