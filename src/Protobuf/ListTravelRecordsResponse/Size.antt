-- ===== src/Protobuf/ListTravelRecordsResponse/Size.antt =====
-- The size that is announced for a list of travel records.
use shared_bike_server.Base.{
  ℕ, ◌+◌, ◌≡◌, refl, ◌&&◌, Option, none, some, arith, if◌then◌else◌, length, length-append,
}
use shared_bike_server.Protobuf.{Wire, Parsed}
use shared_bike_server.Protobuf.Fields.{
  is_set, or_zero, field_size, length-write_field, double_field_size, length-write_double_field,
}
use shared_bike_server.Protobuf.Messages.{length-write_messages}
use shared_bike_server.Protobuf.TravelRecord as Record
use shared_bike_server.Protobuf.TravelRecord.{TravelRecord}
use shared_bike_server.Protobuf.ListTravelRecordsResponse.{
  ListTravelRecordsResponse, serialize, required_fields_byte_size_fallback, required_size,
  byte_size_long,
}

module _ (wire : Wire) where
  -- On each way the sizes of the required fields are those of what is written for them.
  required_size-fields :
      (x : ListTravelRecordsResponse)
      → required_size wire x
        ≡ double_field_size x.mileage
          + double_field_size x.discharge
          + double_field_size x.calorie
          + field_size wire.int32 x.code
  unfolding required_fields_byte_size_fallback
  required_size-fields x = by_bits x.mileage x.discharge x.calorie x.code
    where
      by_bits :
          (mileage : Option ℕ) (discharge : Option ℕ) (calorie : Option ℕ) (code : Option ℕ)
          → (if is_set mileage && is_set discharge && is_set calorie && is_set code
              then (1 + 8) + (1 + 8) + (1 + 8) + (1 + wire.int32.size (or_zero code))
              else double_field_size mileage
                + double_field_size discharge
                + double_field_size calorie
                + field_size wire.int32 code)
            ≡ double_field_size mileage
              + double_field_size discharge
              + double_field_size calorie
              + field_size wire.int32 code
      by_bits none discharge calorie code = refl
      by_bits (some a0) none calorie code = refl
      by_bits (some a0) (some a1) none code = refl
      by_bits (some a0) (some a1) (some a2) none = refl
      by_bits (some a0) (some a1) (some a2) (some a3) = refl

  -- The size that is announced for a list of travel records is that of its bytes, whichever fields are
  -- set, and on each way of computing it.
  pub travel_list_byte_size_long :
      (m : Parsed ListTravelRecordsResponse) → byte_size_long wire m ≡ length (serialize wire m)
  unfolding byte_size_long serialize required_fields_byte_size_fallback
  travel_list_byte_size_long m =
      rw (length-append, length-append, length-append, length-append, length-append, length-append)
        (omega (
          arith,
          required_size-fields m.fields,
          length-write_field wire.int32 1 m.fields.code (omega arith),
          length-write_field wire.string 2 m.fields.desc (omega arith),
          length-write_double_field wire 3 m.fields.mileage (omega arith),
          length-write_double_field wire 4 m.fields.discharge (omega arith),
          length-write_double_field wire 5 m.fields.calorie (omega arith),
          length-write_messages wire (Record.byte_size_long wire) (Record.serialize wire) 6
              m.fields.records (omega arith) (Record.travel_record_byte_size_long wire),
        ))
