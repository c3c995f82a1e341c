-- ===== src/Events/Dump.antt =====
-- events_def.cpp: the dump functions, which print an event. An output stream is the text that was
-- written to it; a u32 and an i32 go out in decimal.
use shared_bike_server.Base.{
  ℕ, zero, suc, ◌+◌, ◌-◌, ◌*◌, ◌/◌, ◌%◌, ◌^◌, Bool, ◌&&◌, List, [], ◌∷◌, ◌++◌, ltb, leb,
  if◌then◌else◌, codes,
}
use shared_bike_server.Events.{
  Event, Message, mobile_request, mobile_response, login_request, login_response, no_message,
}

-- `out << n` for a number below 2 ^ 32, which has ten digits at most.
unfoldable pub digits : ℕ → ℕ → List ℕ
digits zero n = []
digits (suc fuel) n =
    let more = digits fuel (n / 10) in
    if ltb n 10 then (48 + n) ∷ [] else more ++ (48 + n % 10) ∷ []

abbrev pub put_u32 : ℕ → List ℕ
put_u32 n = digits 10 n

-- An i32, whose 32 bits are given.
abbrev pub put_i32 : ℕ → List ℕ
put_i32 n = if ltb n (2 ^ 31) then put_u32 n else 45 ∷ put_u32 (2 ^ 32 - n)

abbrev endl : List ℕ
endl = 10 ∷ []

module _ (out : List ℕ) (sn : ℕ) where
  abbrev dump_mobile_code_req : List ℕ → List ℕ
  dump_mobile_code_req mobile =
      out
      ++ (codes "MobileCodeReq sn="
          ++ (put_u32 sn ++ (codes "," ++ (codes "mobile=" ++ (mobile ++ endl)))))

  abbrev dump_mobile_code_rsp : ℕ → ℕ → List ℕ → List ℕ
  dump_mobile_code_rsp code icode reason =
      out
      ++ (codes "MobileCodeReqEv sn ="
          ++ (put_u32 sn
              ++ (codes ","
                  ++ (codes "code="
                      ++ (put_i32 code
                          ++ (endl
                              ++ (codes "icode="
                                  ++ (put_i32 icode
                                      ++ (endl
                                          ++ (codes "describle = " ++ (reason ++ endl)))))))))))

  abbrev dump_login_req : List ℕ → ℕ → List ℕ
  dump_login_req mobile icode =
      out
      ++ (codes "LoginRe<q>Ev sn = "
          ++ (put_u32 sn
              ++ (codes ","
                  ++ (codes "mobile = "
                      ++ (mobile ++ (endl ++ (codes "icode = " ++ (put_i32 icode ++ endl))))))))

  abbrev dump_login_rsp : ℕ → List ℕ → List ℕ
  dump_login_rsp code desc =
      out
      ++ (codes "LoginRe<s>Ev sn = "
          ++ (put_u32 sn
              ++ (codes ","
                  ++ (codes "code="
                      ++ (put_i32 code ++ (endl ++ (codes "describe = " ++ (desc ++ endl))))))))

  -- The virtual function: an exit response has that of iEvent, which prints nothing.
  abbrev dump_message : Message → List ℕ
  dump_message (mobile_request mobile) = dump_mobile_code_req mobile
  dump_message (mobile_response code icode reason) = dump_mobile_code_rsp code icode reason
  dump_message (login_request mobile icode) = dump_login_req mobile icode
  dump_message (login_response code desc) = dump_login_rsp code desc
  dump_message no_message = out

unfoldable pub dump : Event → List ℕ → List ℕ
dump ev out = dump_message out ev.sn ev.msg

-- The number that a text begins with, and what is behind it.
abbrev is_digit : ℕ → Bool
is_digit c = leb 48 c && leb c 57

unfoldable pub scan : ℕ → List ℕ → ℕ × List ℕ
scan n [] = (n, [])
scan n (c ∷ s) = let rest = scan (n * 10 + (c - 48)) s in if is_digit c then rest else (n, c ∷ s)

-- What is in front of the number in what an event of a class prints.
abbrev pub sn_label : Message → List ℕ
sn_label (mobile_request mobile) = codes "MobileCodeReq sn="
sn_label (mobile_response code icode reason) = codes "MobileCodeReqEv sn ="
sn_label (login_request mobile icode) = codes "LoginRe<q>Ev sn = "
sn_label (login_response code desc) = codes "LoginRe<s>Ev sn = "
sn_label no_message = []
