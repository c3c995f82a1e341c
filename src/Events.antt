-- ===== src/Events.antt =====
-- src/HeaderFiles/ievent.h, SourceFiles/ievent.cpp, HeaderFiles/events_def.h and
-- SourceFiles/events_def.cpp: the events that pass between the network and the handlers. An object
-- of a subclass of `iEvent` is a record with the fields of `iEvent` and its protobuf message.
pub mod Codes
pub mod Codec
pub mod Dump
use shared_bike_server.Base.{ℕ, ◌+◌, Option, none, some, List, add32}
use Codes.{
  eeventid_get_moblie_code_req, eeventid_get_moblie_code_rsp, eeventid_login_req,
  eeventid_login_rsp, eeventid_exit_rsp, get_reason_by_error_code,
}

-- `msg_` of each subclass: tianyun::mobile_request, mobile_response, login_request and
-- login_response; ExitRspEv has none.
pub data Message : Type 0 where
  mobile_request : List ℕ → Message
  mobile_response : ℕ → ℕ → List ℕ → Message
  login_request : List ℕ → ℕ → Message
  login_response : ℕ → List ℕ → Message
  no_message : Message

-- `args_` is not set by the constructor; here it is null until `set_args`.
pub record Event : Type 0 where
  pub eid : ℕ
  pub sn : ℕ
  pub args : Option ℕ
  pub msg : Message

-- The static counter of `iEvent::generateSeqNo` comes in and goes out.
abbrev pub generate_seq_no : ℕ → ℕ × ℕ
generate_seq_no sn = (sn, add32 sn 1)

abbrev new_event : ℕ → ℕ → Message → Event × ℕ
new_event eid counter m =
    let (sn, counter') = generate_seq_no counter in
    (record { eid = eid; sn = sn; args = none; msg = m }, counter')

abbrev pub set_args : ℕ → Event → Event
set_args cs ev = record ev { args = some cs }

-- The constructors of events_def.cpp: the counter before, the event and the counter after.
unfoldable pub mobile_code_req_ev : List ℕ → ℕ → Event × ℕ
mobile_code_req_ev mobile = λ c. new_event eeventid_get_moblie_code_req c (mobile_request mobile)

unfoldable pub mobile_code_rsp_ev : ℕ → ℕ → ℕ → Event × ℕ
mobile_code_rsp_ev rc icode c =
    new_event eeventid_get_moblie_code_rsp c
      (mobile_response rc icode (get_reason_by_error_code rc))

unfoldable pub exit_rsp_ev : ℕ → Event × ℕ
exit_rsp_ev c = new_event eeventid_exit_rsp c no_message

unfoldable pub login_req_ev : List ℕ → ℕ → ℕ → Event × ℕ
login_req_ev mobile icode c = new_event eeventid_login_req c (login_request mobile icode)

unfoldable pub login_rsp_ev : ℕ → ℕ → Event × ℕ
login_rsp_ev rc c = new_event eeventid_login_rsp c (login_response rc (get_reason_by_error_code rc))

-- The casts `(MobileCodeReqEv*)ev` and `(LoginReqEv*)ev` followed by the getters. A cast to
-- another class than the object's is undefined behaviour: `none`.
abbrev pub as_mobile_code_req : Event → Option (List ℕ)
as_mobile_code_req ev = elim ev.msg [ mobile_request mobile ↦ some mobile | _ ↦ none ]

abbrev pub as_login_req : Event → Option (List ℕ × ℕ)
as_login_req ev = elim ev.msg [ login_request mobile icode ↦ some (mobile, icode) | _ ↦ none ]
