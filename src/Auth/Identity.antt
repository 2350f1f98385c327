-- ===== src/Auth/Identity.antt =====
-- Which session `GetByIdentity` of internal/auth/session.go hands back.
use herdr_phone.Base.{
  ℕ, ◌<◌, List, [], ◌∷◌, ◌≡◌, ◌⊎◌, refl, sym, ap, ◌∙◌, subst, Bool, true, false, ◌&&◌, Option, none,
  some, arith, ltb, ◌==◌, Str, str_eq, str_lt, str_lt_total, str_lt_irrefl, str_lt_trans,
  str_le_trans, lookup, lookup-tail, lookup-head, IsMap, Each, Each-lookup, if◌then◌else◌,
  Bool-cases, inl, inr,
}
use herdr_phone.Auth.Session.{
  Identity, Session, SessionStore, session_expired, seen, candidate, better, scan, get_by_identity,
  identity_subject, is_empty,
}
use herdr_phone.Auth.History.{IsSound, Owns, get_by_identity-result, identity_result}

-- A live session of the subject `key`.
abbrev pub matches : SessionStore → Str → ℕ → Session → Bool
matches s key now sess =
    if session_expired s sess now then false else str_eq (identity_subject sess.identity) key

-- The order by which one is chosen: by creation time, then by id.
abbrev pub AtMost : Session → Session → Type 0
AtMost a b =
    (a.created_at < b.created_at) ⊎ ((a.created_at ≡ b.created_at) × (str_lt b.id a.id ≡ false))

AtMost-refl : (a : Session) → AtMost a a
AtMost-refl a = inr (refl, str_lt_irrefl a.id)

AtMost-trans : (a b c : Session) → AtMost a b → AtMost b c → AtMost a c
AtMost-trans a b c h k = ground (arith, str_le_trans a.id b.id c.id)

abbrev Upper : Option Session → Session → Type 0
Upper none b = Unit
Upper (some a) b = AtMost a b

Upper-trans : (o : Option Session) (a b : Session) → Upper o a → AtMost a b → Upper o b
Upper-trans none a b h k = tt
Upper-trans (some c) a b h k = AtMost-trans c a b h k

same_id : (a b : Session) → AtMost a b → AtMost b a → a.id ≡ b.id
same_id a b h k = ground (arith, str_lt_total a.id b.id)

-- What a scan from the candidate `best` has found.
abbrev Choice :
    SessionStore → Str → ℕ → List (Str × Session) → Option Session → Option Session → Type 0
Choice s key now m best none = (best ≡ none) × Each (λ k x. matches s key now x ≡ false) m
Choice s key now m best (some b) =
    Upper best b
    × Each (λ k x. matches s key now x ≡ true → AtMost x b) m
    × ((best ≡ some b) ⊎ ((k : Str) × (lookup k m ≡ some b) × (matches s key now b ≡ true)))

asym :
    (a b : Session)
    → a.created_at ≡ b.created_at
    → str_lt b.id a.id ≡ true
    → str_lt a.id b.id ≡ false
asym a b e h = elim (Bool-cases (str_lt a.id b.id)) [
  | inr f ↦ f
  | inl f ↦ ground (arith, str_lt_trans a.id b.id a.id f h, str_lt_irrefl a.id)
]

better-Upper :
    (sess : Session) (best : Option Session)
    → (b : Session) × (better sess best ≡ some b)
      × Upper best b
      × AtMost sess b
      × ((best ≡ some b) ⊎ (b ≡ sess))
unfolding better
better-Upper sess none = (sess, refl, tt, AtMost-refl sess, inr refl)
better-Upper sess (some a) = elim (Bool-cases (ltb a.created_at sess.created_at)) [
  | inl later ↦ (sess, ground (arith, later), ground (arith, later), AtMost-refl sess, inr refl)
  | inr e ↦ elim (Bool-cases (sess.created_at == a.created_at && str_lt a.id sess.id)) [
    | inl f ↦
        (sess, ground (arith, e, f), ground (arith, e, f, asym sess a), AtMost-refl sess, inr refl)
    | inr f ↦ (a, ground (arith, e, f), AtMost-refl a, ground (arith, e, f), inl refl)
  ]
]

-- The candidate after one entry: what it was, or the entry if that matches.
candidate_next :
    (s : SessionStore) (key : Str) (now : ℕ) (sess : Session) (best : Option Session)
    → ((matches s key now sess ≡ false)
        × ((if session_expired s sess now then best else candidate key sess best) ≡ best))
      ⊎ ((matches s key now sess ≡ true)
          × ((if session_expired s sess now then best else candidate key sess best)
              ≡ better sess best))
candidate_next s key now sess best = elim (Bool-cases (session_expired s sess now)) [
  | inl gone ↦ inl (ground (arith, gone), ground (arith, gone))
  | inr live ↦ elim (Bool-cases (str_eq (identity_subject sess.identity) key)) [
    | inl mine ↦ inr (ground (arith, live, mine), ground (arith, live, mine))
    | inr other ↦ inl (ground (arith, live, other), ground (arith, live, other))
  ]
]

module _ (s : SessionStore) (key : Str) (now : ℕ) where
  Choice-skips :
      (sid : Str) (sess : Session) (m : List (Str × Session)) (best found : Option Session)
      → IsMap ((sid, sess) ∷ m)
      → matches s key now sess ≡ false
      → Choice s key now m best found
      → Choice s key now ((sid, sess) ∷ m) best found
  Choice-skips sid sess m best none h miss c = (c.0, (miss, c.1))
  Choice-skips sid sess m best (some b) h miss c = (
    c.0,
    (λ hit. cc (hit, miss), c.1),
    elim c.2 [ inl e ↦ inl e | inr (k, at, ok) ↦ inr (k, lookup-tail k sid sess b m h.0 at, ok) ],
  )

  Choice-takes :
      (sid : Str) (sess : Session) (m : List (Str × Session)) (best found : Option Session)
      → IsMap ((sid, sess) ∷ m)
      → matches s key now sess ≡ true
      → Choice s key now m (better sess best) found
      → Choice s key now ((sid, sess) ∷ m) best found
  Choice-takes sid sess m best none h ok c =
      let (b, e, upper, at_most, from) = better-Upper sess best in cc (e, c.0)
  Choice-takes sid sess m best (some b) h ok c =
      let (a, e, upper, at_most, from) = better-Upper sess best in
      let above = subst (λ o. Upper o b) e c.0 in
      (
        Upper-trans best a b upper above,
        (λ _. AtMost-trans sess a b at_most above, c.1),
        elim c.2 [
          | inr (k, at, live) ↦ inr (k, lookup-tail k sid sess b m h.0 at, live)
          | inl e' ↦ elim from [
            | inl old ↦ inl (cc (old, e, e'))
            | inr new ↦
                let same : sess ≡ b = cc (new, e, e') in
                inr (
                  sid,
                  lookup-head sid sess m ∙ ap some same,
                  subst (λ x. matches s key now x ≡ true) same ok,
                )
          ]
        ],
      )

  scan-Choice :
      (m : List (Str × Session)) (best : Option Session)
      → IsMap m
      → Choice s key now m best (scan s key now m best).1
  unfolding scan
  scan-Choice [] none h = (refl, tt)
  scan-Choice [] (some b) h = (AtMost-refl b, tt, inl refl)
  scan-Choice ((sid, sess) ∷ m) best h = elim (candidate_next s key now sess best) [
    | inl (miss, e) ↦ rw e (Choice-skips sid sess m best _ h miss (scan-Choice m best h.1))
    | inr (hit, e) ↦
        rw e (Choice-takes sid sess m best _ h hit (scan-Choice m (better sess best) h.1))
  ]

-- The choice depends on the stored sessions alone: two lists that hold the same ones, in whatever
-- order, give the same.
Choice-unique :
    (s : SessionStore) (key : Str) (now : ℕ) (m m' : List (Str × Session)) (r r' : Option Session)
    → Each (Owns s.ttl) m
    → ((k : Str) → lookup k m ≡ lookup k m')
    → Choice s key now m none r
    → Choice s key now m' none r'
    → r ≡ r'
Choice-unique s key now m m' none none o same c c' = refl
Choice-unique s key now m m' none (some b') o same c c' = elim c'.2 [
  | inl e ↦ cc e
  | inr (k, at, hit) ↦
      let miss = Each-lookup (λ j x. matches s key now x ≡ false) k m c.1 (same k ∙ at) in
      cc (hit, miss)
]
Choice-unique s key now m m' (some b) none o same c c' = elim c.2 [
  | inl e ↦ cc e
  | inr (k, at, hit) ↦
      let miss = Each-lookup (λ j x. matches s key now x ≡ false) k m' c'.1 (sym (same k) ∙ at) in
      cc (hit, miss)
]
Choice-unique s key now m m' (some b) (some b') o same c c' = elim c.2 [
  | inl e ↦ cc e
  | inr (k, at, hit) ↦ elim c'.2 [
    | inl e ↦ cc e
    | inr (k', at', hit') ↦
        let below =
          Each-lookup (λ j x. matches s key now x ≡ true → AtMost x b') k m' c'.1
            (sym (same k) ∙ at) hit in
        let above =
          Each-lookup (λ j x. matches s key now x ≡ true → AtMost x b) k' m c.1 (same k' ∙ at')
            hit' in
        let own = Each-lookup (Owns s.ttl) k m o at in
        let own' = Each-lookup (Owns s.ttl) k' m o (same k' ∙ at') in
        let one : k ≡ k' = sym own.0 ∙ same_id b b' below above ∙ own'.0 in
        sym at ∙ ap (λ j. lookup j m) one ∙ same k' ∙ at'
  ]
]

scan-store :
    (s : SessionStore) (m' : List (Str × Session)) (key : Str) (now : ℕ) (m : List (Str × Session))
    (best : Option Session)
    → (scan (record s { sessions = m' }) key now m best).1 ≡ (scan s key now m best).1
unfolding scan session_expired
scan-store s m' key now [] best = refl
scan-store s m' key now ((sid, sess) ∷ m) best = scan-store s m' key now m _

result_of : ℕ → Option Session → Option Session
result_of now none = none
result_of now (some b) = some (seen b now)

identity_result-of :
    (s : SessionStore) (now : ℕ) (live : List (Str × Session)) (best : Option Session)
    → (identity_result s now live best).1 ≡ result_of now best
unfolding identity_result result_of
identity_result-of s now live none = refl
identity_result-of s now live (some b) = refl

get_by_identity-answer :
    (s : SessionStore) (id : Identity) (now : ℕ)
    → (get_by_identity s id now).1 ≡ (
        if is_empty (identity_subject id)
        then none
        else result_of now (scan s (identity_subject id) now s.sessions none).1)
get_by_identity-answer s id now =
    rw (get_by_identity-result s id now) (elim (Bool-cases (is_empty (identity_subject id))) [
      | inl e ↦ rw e refl
      | inr e ↦ rw e (identity_result-of s now _ _)
    ])

-- `GetByIdentity` answers alike on two sound stores that hold the same sessions under the same ids:
-- the order in which the map is walked does not matter.
pub get_by_identity-order :
    (s : SessionStore) (m' : List (Str × Session)) (id : Identity) (now : ℕ)
    → IsSound s
    → IsSound (record s { sessions = m' })
    → ((k : Str) → lookup k s.sessions ≡ lookup k m')
    → (get_by_identity s id now).1 ≡ (get_by_identity (record s { sessions = m' }) id now).1
get_by_identity-order s m' id now h h' same =
    let key = identity_subject id in
    let chosen =
      Choice-unique s key now s.sessions m' _ _ h.owned same
        (scan-Choice s key now s.sessions none h.is_map) (scan-Choice s key now m' none h'.is_map)
      ∙ sym (scan-store s m' key now m' none) in
    rw (get_by_identity-answer s id now, get_by_identity-answer (record s { sessions = m' }) id now)
      (ap (λ (o : Option Session). if is_empty key then none else result_of now o) chosen)

-- For an identity with a subject, `GetByIdentity` answers with a session exactly if a live one of
-- that subject is stored. The answer is such a session, seen now, and none of the others was created
-- later, nor at the same time with a greater id.
pub get_by_identity_lem :
    (s : SessionStore) (id : Identity) (now : ℕ)
    → IsSound s
    → is_empty (identity_subject id) ≡ false
    → (((get_by_identity s id now).1 ≡ none)
        × Each (λ k x. matches s (identity_subject id) now x ≡ false) s.sessions)
      ⊎ ((b : Session) × ((get_by_identity s id now).1 ≡ some (seen b now))
          × (lookup b.id s.sessions ≡ some b)
          × (matches s (identity_subject id) now b ≡ true)
          × Each (λ k x. matches s (identity_subject id) now x ≡ true → AtMost x b) s.sessions)
get_by_identity_lem s id now h ne =
    let key = identity_subject id in
    answer_of (scan s key now s.sessions none).1 (scan-Choice s key now s.sessions none h.is_map)
      (get_by_identity-answer s id now ∙ rw ne refl)
  where
    key : Str
    key = identity_subject id

    answer_of :
        (found : Option Session)
        → Choice s key now s.sessions none found
        → (get_by_identity s id now).1 ≡ result_of now found
        → (((get_by_identity s id now).1 ≡ none)
            × Each (λ k x. matches s key now x ≡ false) s.sessions)
          ⊎ ((b : Session) × ((get_by_identity s id now).1 ≡ some (seen b now))
              × (lookup b.id s.sessions ≡ some b)
              × (matches s key now b ≡ true)
              × Each (λ k x. matches s key now x ≡ true → AtMost x b) s.sessions)
    answer_of none c e = inl (e ∙ unfold result_of in refl, c.1)
    answer_of (some b) c e = elim c.2 [
      | inl bad ↦ cc bad
      | inr (k, at, hit) ↦
          let own = Each-lookup (Owns s.ttl) k s.sessions h.owned at in
          inr (b, e ∙ unfold result_of in refl, ap (λ j. lookup j s.sessions) own.0 ∙ at, hit, c.1)
    ]
