-- ===== src/Tests/Client.antt =====
-- The client and the printing of events at concrete texts.
use shared_bike_server.Base.{
  ℕ, ◌≡◌, List, [], ◌∷◌, ◌++◌, some, arith, codes, string_eq, if◌then◌else◌, replicate,
}
use shared_bike_server.Client.{send_mr, send_lr}
use shared_bike_server.Client.Commands.{cmd_read_data, writes, ignores, cmd_read_data-IsLine}
use shared_bike_server.Client.Connect.{Calls}
use shared_bike_server.Tests.{plain}

abbrev buffer : List ℕ
buffer = replicate 1024 0

-- The line "send_lr" without its first letter.
abbrev end_lr : List ℕ
end_lr = codes "end_lr"

cmd_read_data-IsLine_example :
    (cmd_read_data plain buffer 123456 (some (115 ∷ end_lr)) ≡ (
      if string_eq (115 ∷ end_lr) (codes "send_mr")
      then writes (send_mr plain buffer)
      else if string_eq (115 ∷ end_lr) (codes "send_lr")
      then writes (send_lr plain buffer 123456)
      else ignores))
    × (cmd_read_data plain buffer 123456 (some (115 ∷ end_lr ++ 10 ∷ []))
        ≡ cmd_read_data plain buffer 123456 (some (115 ∷ end_lr)))
cmd_read_data-IsLine_example = cmd_read_data-IsLine plain buffer 123456 115 end_lr (omega arith)

-- The server at a valid address refuses the connection (111), and close fails too (9).
abbrev refused : Calls
refused = record {
  inet_aton = 1;
  socket = some 3;
  socket_errno = 0;
  connect = some 111;
  close_errno = λ e. 9;
}
