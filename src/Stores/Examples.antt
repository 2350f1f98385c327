-- ===== src/Stores/Examples.antt =====
-- Runs of the stores of internal/server/stores.go on concrete calls.
use herdr_phone.Base.{
  ◌+◌, ◌-◌, ◌*◌, ◌≤◌, List, [], ◌∷◌, ◌≡◌, ◌≢◌, refl, arith, true, Str, bytes, str_eq, lookup,
  insert, prune, if◌then◌else◌,
}
use herdr_phone.Stores.Nonces.{NonceStore, Binding, issue, consume}
use herdr_phone.Stores.NonceHistory.{Call, issues, consumes, drawn, accepted, accepted-le-drawn}
use herdr_phone.Stores.Idem.{idem_mismatch, idem_in_flight, idem_reserved, reserve}
use herdr_phone.Stores.IdemHistory.{peeks, releases, run, reserve-reserve}
use herdr_phone.Stores.Rate.{new_rate_limiter}
use herdr_phone.Stores.RateBound.{granted, granted_bound}

abbrev closing : Binding
closing = record {
  operation = bytes "pane.close";
  resource = bytes "w1:p1";
  generation = 3;
  session = bytes "s";
  params_hash = bytes "h";
}

abbrev confirmed : NonceStore
confirmed = (issue [] (bytes "t") closing 60 100 100).0

consume-confirmed : (consume confirmed (bytes "t") closing 150).1 ≡ true
unfolding consume issue lookup str_eq insert
consume-confirmed = refl

abbrev two_uses : List Call
two_uses =
    issues (bytes "t") closing 60 100 100
    ∷ consumes (bytes "t") closing 150
    ∷ consumes (bytes "t") closing 151
    ∷ []

accepted-le-drawn_example : accepted (bytes "t") [] two_uses ≤ drawn (bytes "t") two_uses
accepted-le-drawn_example = accepted-le-drawn (bytes "t") two_uses

abbrev key : Str
key = bytes "s/1"

abbrev other_key : Str
other_key = bytes "s/2"

other_differs : key ≢ other_key
other_differs h = ground (arith, h)

reserve_free : (reserve [] key (bytes "f") 30 10 11).2 ≡ idem_reserved
unfolding reserve lookup prune
reserve_free = refl

reserve-reserve_example :
    (reserve
      (run
        (reserve [] key (bytes "f") 30 10 11).0
        (peeks key (bytes "f") 12 ∷ releases other_key ∷ []))
      key
      (bytes "g")
      30
      40
      40).2
    ≡ (if str_eq (bytes "f") (bytes "g") then idem_in_flight else idem_mismatch)
reserve-reserve_example =
    reserve-reserve [] key (bytes "f") (bytes "g") 30 10 11 30 40 40
      (peeks key (bytes "f") 12 ∷ releases other_key ∷ []) tt reserve_free
      (omega arith, (other_differs, tt)) (omega arith)

granted_bound_example :
    granted key
        (new_rate_limiter 5 2 0)
        ((key, 0) ∷ (key, 1) ∷ (key, 2) ∷ (other_key, 3) ∷ (key, 6) ∷ [])
      * 5
    ≤ 2 * 5 + (7 - 0)
granted_bound_example =
    granted_bound key 5 2 0 7 ((key, 0) ∷ (key, 1) ∷ (key, 2) ∷ (other_key, 3) ∷ (key, 6) ∷ [])
      (omega arith) (omega arith) (ground arith)
