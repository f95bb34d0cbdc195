-- ===== src/Mobile/Tickets.antt =====
-- The websocket tickets of backend/app/mobile/service.py: `issue_websocket_ticket`, `consume_websocket_ticket`
-- and `_current_mobile_device`. `now` is the monotonic clock in microseconds, `today` the time of day; the devices are those
-- that `state.mobile_devices` lists.
pub mod Uses
use crypto_arc_v.Prelude.{
  ℕ, ◌+◌, ◌*◌, String, Bool, true, false, not, ◌||◌, Option, some, none, List, [], ◌∷◌,
  if◌then◌else◌, is_empty, str_eq, ltb, leb, contains, length,
}
use crypto_arc_v.Prelude.Dict.{Dict, lookup, insert, erase}
use crypto_arc_v.Prelude.Result.{Result, ok, err}
use crypto_arc_v.Prelude.Text.{strip}
use crypto_arc_v.Mobile.Scopes.{mobile_monitor_scope}
use crypto_arc_v.Mobile.Storage.{Platform, PublicDevice}

pub record MobileWebSocketTicket : Type 0 where
  pub device_id : String
  pub scope : String
  pub expires_at : ℕ

abbrev pub websocket_ticket_ttl_seconds : ℕ
websocket_ticket_ttl_seconds = 30

abbrev pub max_websocket_tickets : ℕ
max_websocket_tickets = 512

-- `_cleanup_websocket_tickets_locked`
unfoldable pub cleanup : ℕ → Dict MobileWebSocketTicket → Dict MobileWebSocketTicket
cleanup now [] = []
cleanup now ((digest, ticket) ∷ tickets) =
    let rest = cleanup now tickets in
    if leb ticket.expires_at now then rest else (digest, ticket) ∷ rest

-- `min(tickets, key=expires_at)`: the first of the smallest, beside the best so far
unfoldable pub oldest_from : String × ℕ → Dict MobileWebSocketTicket → String
oldest_from (digest, _) [] = digest
oldest_from best ((digest, ticket) ∷ tickets) =
    oldest_from (if ltb ticket.expires_at best.1 then (digest, ticket.expires_at) else best) tickets

unfoldable pub drop_oldest : Dict MobileWebSocketTicket → Dict MobileWebSocketTicket
unfolding oldest_from
drop_oldest [] = []
drop_oldest ((digest, ticket) ∷ tickets) =
    erase (oldest_from (digest, ticket.expires_at) tickets) ((digest, ticket) ∷ tickets)

unfoldable pub make_room : Dict MobileWebSocketTicket → Dict MobileWebSocketTicket
unfolding drop_oldest
make_room tickets =
    if leb max_websocket_tickets (length tickets) then drop_oldest tickets else tickets

-- `issue_websocket_ticket`: `ticket_hash` is the hash of the drawn ticket.
unfoldable pub issue_websocket_ticket :
    ℕ
    → String
    → String
    → Dict MobileWebSocketTicket
    → Result MobileWebSocketTicket × Dict MobileWebSocketTicket
unfolding cleanup make_room
issue_websocket_ticket now ticket_hash device_id tickets =
    let ticket : MobileWebSocketTicket = record {
      device_id = device_id;
      scope = mobile_monitor_scope;
      expires_at = now + websocket_ticket_ttl_seconds * 1_000_000;
    } in
    if is_empty device_id
    then (err "Mobile device identity is required", tickets)
    else (ok ticket, insert ticket_hash ticket (make_room (cleanup now tickets)))

unfoldable pub find_public : String → List PublicDevice → Option PublicDevice
find_public device_id [] = none
find_public device_id (device ∷ devices) =
    if str_eq device.id device_id then some device else find_public device_id devices

abbrev pub is_over : Option ℕ → ℕ → Bool
is_over none today = true
is_over (some expires_at) today = leb expires_at today

-- `_current_mobile_device`, of the first device with the id
unfoldable pub current_device : Platform → ℕ → String → Option PublicDevice → Option PublicDevice
current_device p today required_scope none = none
current_device p today required_scope (some device) =
    if not (is_empty device.revoked_at)
      || not (contains required_scope device.scopes)
      || is_over (p.fromisoformat device.expires_at) today
    then none
    else some device

unfoldable pub redeem :
    Platform → ℕ → ℕ → List PublicDevice → Option MobileWebSocketTicket → Option PublicDevice
unfolding current_device find_public
redeem p now today devices none = none
redeem p now today devices (some ticket) =
    if leb ticket.expires_at now || not (str_eq ticket.scope mobile_monitor_scope)
    then none
    else current_device p today ticket.scope (find_public ticket.device_id devices)

-- `consume_websocket_ticket`; the ticket is taken out whether or not it can be redeemed.
unfoldable pub consume_websocket_ticket :
    Platform
    → ℕ
    → ℕ
    → List PublicDevice
    → String
    → Dict MobileWebSocketTicket
    → Option PublicDevice × Dict MobileWebSocketTicket
unfolding cleanup redeem
consume_websocket_ticket p now today devices raw_ticket tickets =
    let ticket_hash = p.hash_websocket_ticket (strip raw_ticket) in
    let kept = cleanup now tickets in
    if is_empty (strip raw_ticket)
    then (none, tickets)
    else (redeem p now today devices (lookup ticket_hash kept), erase ticket_hash kept)
