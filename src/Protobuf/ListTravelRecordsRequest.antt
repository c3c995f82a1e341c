-- ===== src/Protobuf/ListTravelRecordsRequest.antt =====
-- bike.pb.cpp: tianyun::list_travel_records_request, whose generated code is that of mobile_request under another name.
use shared_bike_server.Base.{ℕ, Bool, List}
use shared_bike_server.Protobuf.{Wire, Parsed, Field}
use shared_bike_server.Protobuf.MobileRequest as Same

abbrev pub ListTravelRecordsRequest : Type 0
ListTravelRecordsRequest = Same.MobileRequest

abbrev pub clear : Parsed ListTravelRecordsRequest
clear = Same.clear

abbrev pub is_initialized : ListTravelRecordsRequest → Bool
is_initialized = Same.is_initialized

abbrev pub merge_from :
    Parsed ListTravelRecordsRequest
    → Parsed ListTravelRecordsRequest
    → Parsed ListTravelRecordsRequest
merge_from = Same.merge_from

module _ (wire : Wire) where
  abbrev pub step : ℕ → ListTravelRecordsRequest → List ℕ → Field ListTravelRecordsRequest
  step = Same.step wire

  abbrev pub serialize : Parsed ListTravelRecordsRequest → List ℕ
  serialize = Same.serialize wire

  abbrev pub byte_size_long : Parsed ListTravelRecordsRequest → ℕ
  byte_size_long = Same.byte_size_long wire
