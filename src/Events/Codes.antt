-- ===== src/Events/Codes.antt =====
-- src/HeaderFiles/eventtype.h and SourceFiles/eventtype.cpp: event ids, error codes and the table
-- of their descriptions.
use shared_bike_server.Base.{
  ℕ, ◌≡◌, ◌≢◌, refl, List, [], ◌∷◌, ◌++◌, Option, none, some, arith, ◌==◌, if◌then◌else◌, codes,
  String,
}

-- enum EventID
abbrev pub eeventid_get_moblie_code_req : ℕ
eeventid_get_moblie_code_req = 0x01

abbrev pub eeventid_get_moblie_code_rsp : ℕ
eeventid_get_moblie_code_rsp = 0x02

abbrev pub eeventid_login_req : ℕ
eeventid_login_req = 0x03

abbrev pub eeventid_login_rsp : ℕ
eeventid_login_rsp = 0x04

abbrev pub eeventid_recharge_req : ℕ
eeventid_recharge_req = 0x05

abbrev pub eeventid_get_account_balance_req : ℕ
eeventid_get_account_balance_req = 0x07

abbrev pub eeventid_list_account_records_req : ℕ
eeventid_list_account_records_req = 0x09

abbrev pub eeventid_exit_rsp : ℕ
eeventid_exit_rsp = 0xfe

abbrev pub eeventid_unkown : ℕ
eeventid_unkown = 0xff

-- enum EErrorCode
abbrev pub errc_success : ℕ
errc_success = 200

abbrev pub errc_invalid_msg : ℕ
errc_invalid_msg = 400

abbrev pub errc_invalid_data : ℕ
errc_invalid_data = 404

abbrev pub errc_method_not_allowed : ℕ
errc_method_not_allowed = 405

abbrev pub erro_proccess_failed : ℕ
erro_proccess_failed = 406

abbrev pub erro_bike_is_took : ℕ
erro_bike_is_took = 407

abbrev pub erro_bike_is_running : ℕ
erro_bike_is_running = 408

abbrev pub erro_bike_is_damaged : ℕ
erro_bike_is_damaged = 409

abbrev pub err_null : ℕ
err_null = 0

pub record ErrorReason : Type 0 where
  pub code : ℕ
  pub reason : List ℕ

abbrev row : ℕ → String → ErrorReason
row c r = record { code = c; reason = codes r }

-- The rows of the table EER before the last, and the table.
abbrev pub described : List ErrorReason
described =
    row errc_success "Ok."
    ∷ row errc_invalid_msg "Invalid message."
    ∷ row errc_invalid_data "Invalid data."
    ∷ row errc_method_not_allowed "Method not allowed."
    ∷ row erro_proccess_failed "Proccess failed."
    ∷ row erro_bike_is_took "Bike is took."
    ∷ row erro_bike_is_running "Bike is running."
    ∷ row erro_bike_is_damaged "Bike is damaged."
    ∷ []

abbrev pub eer : List ErrorReason
eer = described ++ row err_null "Undefined" ∷ []

-- `for (i = 0; EER[i].code != ERR_NULL; i++) if (EER[i].code == code) return EER[i].reason;` and
-- the return after it, from row i on. `none` is a read past the end of the table.
unfoldable pub find_reason : ℕ → List ErrorReason → Option (List ℕ)
find_reason c [] = none
find_reason c (r ∷ rs) =
    let rest = find_reason c rs in
    if r.code == err_null then some r.reason else if r.code == c then some r.reason else rest

abbrev or_empty : Option (List ℕ) → List ℕ
or_empty none = []
or_empty (some r) = r

-- getReasonByErrorCode; that the read never leaves the table is `find_reason-eer`.
unfoldable pub get_reason_by_error_code : ℕ → List ℕ
unfolding find_reason
get_reason_by_error_code c = or_empty (find_reason c eer)

-- What the table is for: the row with the code, or the last row.
unfoldable pub reason_of : ℕ → List ErrorReason → List ℕ
reason_of c [] = codes "Undefined"
reason_of c (r ∷ rs) = if r.code == c then r.reason else reason_of c rs

-- A loop over rows that the end mark follows stays in the table, and finds the first row with the
-- code.
abbrev HasNoMark : List ErrorReason → Type 0
HasNoMark [] = Unit
HasNoMark (r ∷ rs) = (r.code ≢ err_null) × HasNoMark rs

find_reason-marked :
    (c : ℕ) (rows : List ErrorReason)
    → HasNoMark rows
    → find_reason c (rows ++ row err_null "Undefined" ∷ []) ≡ some (reason_of c rows)
unfolding find_reason reason_of
find_reason-marked c [] h = refl
find_reason-marked c (r ∷ rows) h = ground (arith, find_reason-marked c rows h.1)

pub find_reason-eer : (c : ℕ) → find_reason c eer ≡ some (reason_of c described)
find_reason-eer c = find_reason-marked c described (omega arith)

-- For every code the lookup ends inside the table, and gives the description of the row with that
-- code, or "Undefined" when there is none.
pub get_reason-eq-reason_of :
    (c : ℕ)
    → (find_reason c eer ≡ some (get_reason_by_error_code c))
      × (get_reason_by_error_code c ≡ reason_of c described)
unfolding get_reason_by_error_code
get_reason-eq-reason_of c = rw (find_reason-eer c) (refl, refl)
