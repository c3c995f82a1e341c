-- ===== src/Dispatch/Parse.antt =====
-- DispatchMsgService::parseEvent: the body of a request as an event.
use shared_bike_server.Base.{ℕ, List, Option, none, some, ◌==◌, if◌then◌else◌, take}
use shared_bike_server.Events.{Event, mobile_code_req_ev, login_req_ev}
use shared_bike_server.Events.Codes.{eeventid_get_moblie_code_req, eeventid_login_req}
use shared_bike_server.Events.Codec.{Codec}

abbrev made : Event × ℕ → Option Event × ℕ
made (ev, sn) = (some ev, sn)

abbrev pub mobile_code_req : Option (List ℕ) → ℕ → Option Event × ℕ
mobile_code_req none sn = (none, sn)
mobile_code_req (some mobile) sn = made (mobile_code_req_ev mobile sn)

abbrev pub login_req : Option (List ℕ × ℕ) → ℕ → Option Event × ℕ
login_req none sn = (none, sn)
login_req (some (mobile, icode)) sn = made (login_req_ev mobile icode sn)

-- message, len and eid, and the counter of the sequence numbers; the result is an event, or null.
unfoldable pub parse_event : Codec → Option (List ℕ) → ℕ → ℕ → ℕ → Option Event × ℕ
parse_event codec none len eid sn = (none, sn)
parse_event codec (some message) len eid sn =
    if eid == eeventid_get_moblie_code_req
    then mobile_code_req (codec.parse_mobile_request (take len message)) sn
    else if eid == eeventid_login_req
    then login_req (codec.parse_login_request (take len message)) sn
    else (none, sn)
