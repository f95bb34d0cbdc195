-- ===== src/Mobile/Tickets/Uses.antt =====
-- How often a websocket ticket can be used, and by whom.
use crypto_arc_v.Prelude.{
  ℕ, ◌≤◌, ◌≡◌, ◌≢◌, refl, ◌∙◌, inl, inr, String, false, none, List, [], ◌∷◌, is_empty, str_eq,
  count, arith, eq_iff, Bool-cases,
}
use crypto_arc_v.Prelude.Dict.{Dict, keys, lookup, erase, lookup-insert, lookup-eq_none}
use crypto_arc_v.Prelude.Text.{strip}
use crypto_arc_v.Mobile.Storage.{Platform, PublicDevice}
use crypto_arc_v.Mobile.Tickets.{
  MobileWebSocketTicket, cleanup, oldest_from, drop_oldest, make_room, issue_websocket_ticket,
  redeem, consume_websocket_ticket,
}

-- The calls of the service; an issued ticket is drawn, and its hash is not that of `spent`.
pub data Step (p : Platform) (spent : String) (st : Dict MobileWebSocketTicket)
    : Dict MobileWebSocketTicket → Type 0 where
  issue_step :
      (now : ℕ) (hash device_id : String)
      → hash ≢ spent
      → Step p spent st (issue_websocket_ticket now hash device_id st).1
  consume_step :
      (now today : ℕ) (devices : List PublicDevice) (raw : String)
      → Step p spent st (consume_websocket_ticket p now today devices raw st).1

pub data Run (p : Platform) (spent : String) (st : Dict MobileWebSocketTicket)
    : Dict MobileWebSocketTicket → Type 0 where
  stay : Run p spent st st
  and_then :
      {mid next : Dict MobileWebSocketTicket}
      → Run p spent st mid
      → Step p spent mid next
      → Run p spent st next

module _ {V : Type 0} where
  erase-none : (k j : String) (d : Dict V) → lookup k d ≡ none → lookup k (erase j d) ≡ none
  unfolding lookup erase
  erase-none k j [] h = refl
  erase-none k j ((i, v) ∷ d) h = ground (arith, h, erase-none k j d)

  count-erase : (k j : String) (d : Dict V) → count k (keys (erase j d)) ≤ count k (keys d)
  unfolding erase
  count-erase k j [] = omega arith
  count-erase k j ((i, v) ∷ d) = ground (arith, count-erase k j d)

  erase-same : (k : String) (d : Dict V) → count k (keys d) ≤ 1 → lookup k (erase k d) ≡ none
  unfolding lookup erase
  erase-same k [] h = refl
  erase-same k ((j, v) ∷ d) h = elim (Bool-cases (str_eq j k)) [
    | inl e ↦ rw e (lookup-eq_none k d (ground (arith, h, e)))
    | inr e ↦ rw (e, e) (erase-same k d (ground (arith, h, e)))
  ]

cleanup-none :
    (k : String) (now : ℕ) (d : Dict MobileWebSocketTicket)
    → lookup k d ≡ none
    → lookup k (cleanup now d) ≡ none
unfolding lookup cleanup
cleanup-none k now [] h = refl
cleanup-none k now ((j, t) ∷ d) h = ground (arith, h, cleanup-none k now d)

count-cleanup :
    (k : String) (now : ℕ) (d : Dict MobileWebSocketTicket)
    → count k (keys (cleanup now d)) ≤ count k (keys d)
unfolding cleanup
count-cleanup k now [] = omega arith
count-cleanup k now ((j, t) ∷ d) = ground (arith, count-cleanup k now d)

make_room-none :
    (k : String) (d : Dict MobileWebSocketTicket)
    → lookup k d ≡ none
    → lookup k (make_room d) ≡ none
unfolding make_room drop_oldest
make_room-none k [] h = ground (arith, h)
make_room-none k ((j, t) ∷ d) h =
    ground (arith, h, erase-none k (oldest_from (j, t.expires_at) d) ((j, t) ∷ d) h)

Step-none :
    (p : Platform) (spent : String) (st next : Dict MobileWebSocketTicket)
    → Step p spent st next
    → lookup spent st ≡ none
    → lookup spent next ≡ none
unfolding issue_websocket_ticket consume_websocket_ticket
Step-none p spent st _ (issue_step now hash device_id other) h =
    elim (Bool-cases (is_empty device_id)) [
      | inl e ↦ rw e h
      | inr e ↦
          let kept = make_room-none spent (cleanup now st) (cleanup-none spent now st h) in
          rw e (
            lookup-insert hash spent _ (make_room (cleanup now st))
            ∙ ground (arith, kept, other, eq_iff hash spent))
    ]
Step-none p spent st _ (consume_step now today devices raw) h =
    elim (Bool-cases (is_empty (strip raw))) [
      | inl e ↦ rw e h
      | inr e ↦ rw e (
          erase-none spent (p.hash_websocket_ticket (strip raw)) (cleanup now st)
            (cleanup-none spent now st h))
    ]

Run-none :
    (p : Platform) (spent : String) (st next : Dict MobileWebSocketTicket)
    → Run p spent st next
    → lookup spent st ≡ none
    → lookup spent next ≡ none
Run-none p spent st _ stay h = h
Run-none p spent st next (and_then {mid} r s) h =
    Step-none p spent mid next s (Run-none p spent st mid r h)

none-consume :
    (p : Platform) (now today : ℕ) (devices : List PublicDevice) (raw : String)
    (st : Dict MobileWebSocketTicket)
    → lookup (p.hash_websocket_ticket (strip raw)) st ≡ none
    → (consume_websocket_ticket p now today devices raw st).0 ≡ none
unfolding consume_websocket_ticket redeem
none-consume p now today devices raw st h = elim (Bool-cases (is_empty (strip raw))) [
  | inl e ↦ rw e refl
  | inr e ↦ rw (e, cleanup-none (p.hash_websocket_ticket (strip raw)) now st h) refl
]

-- A ticket is used once: after it has been presented, whether or not it was accepted, and after any further
-- calls that draw other tickets, it is refused.
pub consume_websocket_ticket-once :
    (p : Platform) (now later today later_today : ℕ) (devices later_devices : List PublicDevice)
    (raw : String) (tickets last : Dict MobileWebSocketTicket)
    → ((k : String) → count k (keys tickets) ≤ 1)
    → is_empty (strip raw) ≡ false
    → Run p
        (p.hash_websocket_ticket (strip raw))
        (consume_websocket_ticket p now today devices raw tickets).1
        last
    → (consume_websocket_ticket p later later_today later_devices raw last).0 ≡ none
unfolding consume_websocket_ticket
consume_websocket_ticket-once p now later today later_today devices later_devices raw tickets last
      unique filled r =
    let hash = p.hash_websocket_ticket (strip raw) in
    let gone : lookup hash (consume_websocket_ticket p now today devices raw tickets).1 ≡ none =
      rw filled (
        erase-same hash (cleanup now tickets)
          (omega (arith, unique hash, count-cleanup hash now tickets))) in
    none-consume p later later_today later_devices raw last
      (Run-none p hash (consume_websocket_ticket p now today devices raw tickets).1 last r gone)
