-- ===== src/Protobuf/ListTravelRecordsResponse.antt =====
-- bike.pb.cpp: tianyun::list_travel_records_response.
pub mod Size
pub mod Merge
use mathlib.Core.List.{append-nil, append_assoc}
use shared_bike_server.Base.{
  ℕ, suc, ◌+◌, ◌/◌, ◌%◌, ◌^◌, ◌<◌, ◌≡◌, refl, ap, sym, ◌∙◌, Bool, ◌&&◌, List, [], ◌++◌, ◌∷◌, Option,
  none, some, arith, ◌==◌, if◌then◌else◌, length, ◌≢◌, length-append,
}
use shared_bike_server.Protobuf.{
  Wire, Parsed, Field, unusual, Merged, merged, no_fuel, set_field, merge_partial,
}
use shared_bike_server.Protobuf.Fields.{
  other, other-none, is_set, or_zero, or_empty, write_field, field_size, length-write_field,
  double_field_size, length-write_double_field,
}
use shared_bike_server.Protobuf.Total.{Shortens, merge_partial-Ends, case-shorter, field-shorter}
use shared_bike_server.Protobuf.Loop.{Short, Small, Small64, loop-end, loop-field}
use shared_bike_server.Protobuf.Messages.{
  Each, write_messages, messages_size, length-write_messages, loop-messages, message-shorter,
  Each-IsReadable,
}
use shared_bike_server.Protobuf.TravelRecord as Record
use shared_bike_server.Protobuf.TravelRecord.{TravelRecord}

pub record ListTravelRecordsResponse : Type 0 where
  pub code : Option ℕ
  pub desc : Option (List ℕ)
  pub mileage : Option ℕ
  pub discharge : Option ℕ
  pub calorie : Option ℕ
  pub records : List (Parsed TravelRecord)

-- A new message, and one after Clear: no field is set.
abbrev pub clear : Parsed ListTravelRecordsResponse
clear = record {
  fields = record {
    code = none;
    desc = none;
    mileage = none;
    discharge = none;
    calorie = none;
    records = [];
  };
  unknown = [];
}

-- MergeFrom: the fields that are set there replace those that are here, and the
-- messages there follow those that are here.
unfoldable pub merge_from :
    Parsed ListTravelRecordsResponse
    → Parsed ListTravelRecordsResponse
    → Parsed ListTravelRecordsResponse
merge_from from m = record {
  fields = record {
    code = other from.fields.code m.fields.code;
    desc = other from.fields.desc m.fields.desc;
    mileage = other from.fields.mileage m.fields.mileage;
    discharge = other from.fields.discharge m.fields.discharge;
    calorie = other from.fields.calorie m.fields.calorie;
    records = m.fields.records ++ from.fields.records;
  };
  unknown = m.unknown ++ from.unknown;
}

module _ (wire : Wire) where
  -- AllAreInitialized of the messages is a function of libprotobuf.
  unfoldable pub is_initialized : ListTravelRecordsResponse → Bool
  is_initialized x =
      is_set x.mileage
      && is_set x.discharge
      && is_set x.calorie
      && is_set x.code
      && wire.all_are_initialized TravelRecord Record.is_initialized x.records

  -- The loop of a message in the repeated field, which starts from a new one.
  abbrev pub merge_record : List ℕ → Merged TravelRecord
  merge_record s = merge_partial wire (Record.step wire) Record.clear s

  -- The switch of MergePartialFromCodedStream.
  unfoldable pub step : ℕ → ListTravelRecordsResponse → List ℕ → Field ListTravelRecordsResponse
  step tag x rest =
      if tag / 8 == 1
      then (if tag % 256 == 8
          then set_field (λ v. record x { code = some v }) (wire.int32.parse rest)
          else unusual)
      else if tag / 8 == 2
      then (if tag % 256 == 18
          then set_field (λ s. record x { desc = some s }) (wire.string.parse rest)
          else unusual)
      else if tag / 8 == 3
      then (if tag % 256 == 25
          then set_field (λ v. record x { mileage = some v }) (wire.double.parse rest)
          else unusual)
      else if tag / 8 == 4
      then (if tag % 256 == 33
          then set_field (λ v. record x { discharge = some v }) (wire.double.parse rest)
          else unusual)
      else if tag / 8 == 5
      then (if tag % 256 == 41
          then set_field (λ v. record x { calorie = some v }) (wire.double.parse rest)
          else unusual)
      else if tag / 8 == 6
      then (if tag % 256 == 50
          then set_field (λ r. record x { records = x.records ++ r ∷ [] })
              (wire.read_message TravelRecord merge_record rest)
          else unusual)
      else unusual

  -- SerializeWithCachedSizes, and the same into an array.
  unfoldable pub serialize : Parsed ListTravelRecordsResponse → List ℕ
  serialize m =
      write_field wire.int32 1 m.fields.code
      ++ (write_field wire.string 2 m.fields.desc
          ++ (write_field wire.double 3 m.fields.mileage
              ++ (write_field wire.double 4 m.fields.discharge
                  ++ (write_field wire.double 5 m.fields.calorie
                      ++ (write_messages wire (Record.byte_size_long wire) (Record.serialize wire) 6
                            m.fields.records
                          ++ m.unknown)))))

  unfoldable pub required_fields_byte_size_fallback : ListTravelRecordsResponse → ℕ
  required_fields_byte_size_fallback x =
      double_field_size x.mileage
      + double_field_size x.discharge
      + double_field_size x.calorie
      + field_size wire.int32 x.code

  -- When all required fields are set their sizes are added up without looking at each bit.
  abbrev pub required_size : ListTravelRecordsResponse → ℕ
  required_size x =
      if is_set x.mileage && is_set x.discharge && is_set x.calorie && is_set x.code
      then (1 + 8) + (1 + 8) + (1 + 8) + (1 + wire.int32.size (or_zero x.code))
      else required_fields_byte_size_fallback x

  unfoldable pub byte_size_long : Parsed ListTravelRecordsResponse → ℕ
  byte_size_long m =
      length m.unknown
      + required_size m.fields
      + messages_size wire (Record.byte_size_long wire) (Record.serialize wire) m.fields.records
      + field_size wire.string m.fields.desc

  step-Shortens : Shortens wire step
  unfolding step
  step-Shortens tag x s x' rest e =
      case-shorter wire tag 1 8 s x' rest _ _ (omega arith)
        (field-shorter wire wire.int32 (λ v. record x { code = some v }) s x' rest)
        (λ e1.
          case-shorter wire tag 2 18 s x' rest _ _ (omega arith)
            (field-shorter wire wire.string (λ s. record x { desc = some s }) s x' rest)
            (λ e2.
              case-shorter wire tag 3 25 s x' rest _ _ (omega arith)
                (field-shorter wire wire.double (λ v. record x { mileage = some v }) s x' rest)
                (λ e3.
                  case-shorter wire tag 4 33 s x' rest _ _ (omega arith)
                    (field-shorter wire wire.double (λ v. record x { discharge = some v }) s x'
                      rest)
                    (λ e4.
                      case-shorter wire tag 5 41 s x' rest _ _ (omega arith)
                        (field-shorter wire wire.double (λ v. record x { calorie = some v }) s x'
                          rest)
                        (λ e5.
                          case-shorter wire tag 6 50 s x' rest _ _ (omega arith)
                            (message-shorter wire merge_record
                              (λ r. record x { records = x.records ++ r ∷ [] }) s x' rest)
                            (λ e6. absurd cc) e5)
                        e4)
                    e3)
                e2)
            e1)
        e

  -- The loop that reads a list of travel records ends on every input, in at most as many turns as there
  -- are bytes and one more.
  pub merge_partial_travel_list_total :
      (m : Parsed ListTravelRecordsResponse) (s : List ℕ) → merge_partial wire step m s ≢ no_fuel
  merge_partial_travel_list_total m s = merge_partial-Ends wire step m s step-Shortens
