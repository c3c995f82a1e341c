-- ===== src/Tests/Messages.antt =====
-- The messages over the wire format in which each number is one byte.
use shared_bike_server.Base.{
  ℕ, ◌≡◌, ◌≢◌, refl, List, [], ◌∷◌, none, some, arith, length, codes, replicate,
}
use shared_bike_server.Events.{login_request, mobile_request, login_req_ev}
use shared_bike_server.Protobuf.{Parsed, merged, no_fuel, merge_partial}
use shared_bike_server.Protobuf.Instance.{protobuf, parse-serialize}
use shared_bike_server.Protobuf.LoginRequest as Lr
use shared_bike_server.Protobuf.AccountRecord as Ar
use shared_bike_server.Protobuf.AccountRecord.{AccountRecord}
use shared_bike_server.Protobuf.ListAccountRecordsResponse as La
use shared_bike_server.Protobuf.ListTravelRecordsResponse as Lt
use shared_bike_server.Protobuf.ListTravelRecordsResponse.Size as LtSize
use shared_bike_server.Net.Request.Deframe.{frame, deframe}
use shared_bike_server.Dispatch.Parse.{parse_event}
use shared_bike_server.Client.{own_mobile, send_lr}
use shared_bike_server.Server.Exchange.{send_lr-parse_event}
use shared_bike_server.Tests.{mobile}
use shared_bike_server.Tests.Wire.{byte_wire, library}

parse-serialize_example :
    ((protobuf library).parse_mobile_request ((protobuf library).serialize (mobile_request mobile))
      ≡ some mobile)
    × ((protobuf library).parse_login_request
          ((protobuf library).serialize (login_request mobile 123456))
        ≡ some (mobile, 123456))
parse-serialize_example = parse-serialize library mobile 123456 (omega arith) (omega arith)

send_lr-parse_event_example :
    (body : List ℕ) × (deframe (send_lr (protobuf library) (replicate 1024 7) 123456)
      ≡ frame 3 body [])
    × (parse_event (protobuf library) (some body) (length body) 3 0
        ≡ (some (login_req_ev own_mobile 123456 0).0, (login_req_ev own_mobile 123456 0).1))
unfolding Lr.byte_size_long
send_lr-parse_event_example =
    send_lr-parse_event library (replicate 1024 7) 123456 0 refl (omega arith) (omega arith)
      (omega arith)

-- Two records of an account.
abbrev records : List (Parsed AccountRecord)
records =
    record { fields = record { type = some 1; limit = some 50; timestamp = some 99 }; unknown = [] }
    ∷ record {
      fields = record { type = some 2; limit = some 7; timestamp = some 100 };
      unknown = [];
    }
    ∷ []

abbrev account_list : La.ListAccountRecordsResponse
account_list = record { code = some 200; desc = none; records = records }

merge_partial-merge_from_account_list_example :
    merge_partial byte_wire
      (La.step byte_wire)
      La.clear
      (La.serialize byte_wire (record { fields = account_list; unknown = [] }))
    ≡ merged (La.merge_from (record { fields = account_list; unknown = [] }) La.clear) []
unfolding Ar.byte_size_long
merge_partial-merge_from_account_list_example =
    La.merge_partial-merge_from_account_list byte_wire account_list La.clear (omega arith) tt (
      ((refl, omega arith, omega arith, omega arith), omega arith),
      (((refl, omega arith, omega arith, omega arith), omega arith), tt),
    )

-- A list with a travel, and with a double that is not set.
abbrev travel_list : Parsed Lt.ListTravelRecordsResponse
travel_list = record {
  fields = record {
    code = some 200;
    desc = some (codes "Ok.");
    mileage = some 5;
    discharge = none;
    calorie = some 70;
    records =
        record {
          fields = record { stm = some 3; duration = some 60; amount = some 2 };
          unknown = [];
        }
        ∷ [];
  };
  unknown = 9 ∷ [];
}

travel_list_byte_size_long_example :
    Lt.byte_size_long byte_wire travel_list ≡ length (Lt.serialize byte_wire travel_list)
travel_list_byte_size_long_example = LtSize.travel_list_byte_size_long byte_wire travel_list

merge_partial_login_request_total_example :
    merge_partial byte_wire (Lr.step byte_wire) Lr.clear (200 ∷ 201 ∷ 202 ∷ []) ≢ no_fuel
merge_partial_login_request_total_example =
    Lr.merge_partial_login_request_total byte_wire Lr.clear (200 ∷ 201 ∷ 202 ∷ [])
