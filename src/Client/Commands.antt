-- ===== src/Client/Commands.antt =====
-- client.cpp: cmd_read_data, the commands that are typed.
use shared_bike_server.Base.{
  ℕ, ◌≡◌, ◌≢◌, refl, ap, sym, ◌∙◌, List, [], ◌∷◌, ◌++◌, Option, none, some, arith, ◌==◌,
  if◌then◌else◌, codes, string_eq,
}
use shared_bike_server.Events.Codec.{Codec}
use shared_bike_server.User.Service.{c_str}
use shared_bike_server.Client.{send_mr, send_lr}

-- The process exits, bytes go to the socket, or nothing happens.
pub data Typed : Type 0 where
  exits : Typed
  writes : List ℕ → Typed
  ignores : Typed

-- A newline at the end is replaced by the NUL that ends the text.
unfoldable pub without_newline : List ℕ → List ℕ
without_newline [] = []
without_newline (c ∷ []) = if c == 10 then [] else c ∷ []
without_newline (c ∷ d ∷ s) = c ∷ without_newline (d ∷ s)

module _ (codec : Codec) (msg : List ℕ) (icode : ℕ) where
  abbrev run_command : List ℕ → Typed
  run_command cmd =
      if string_eq cmd (codes "send_mr")
      then writes (send_mr codec msg)
      else if string_eq cmd (codes "send_lr")
      then writes (send_lr codec msg icode)
      else ignores

  -- For what `read` gave of at most 1023 bytes, or `none` for an error; msg is what the buffer for
  -- the request holds, and icode the code of the last response.
  unfoldable pub cmd_read_data : Option (List ℕ) → Typed
  cmd_read_data none = exits
  cmd_read_data (some []) = exits
  cmd_read_data (some (c ∷ s)) = run_command (c_str (without_newline (c ∷ s)))

-- A line holds neither a NUL nor a newline.
abbrev pub IsLine : List ℕ → Type 0
IsLine [] = Unit
IsLine (c ∷ s) = (c ≢ 0) × (c ≢ 10) × IsLine s

c_str-IsLine : (s : List ℕ) → IsLine s → c_str s ≡ s
unfolding c_str
c_str-IsLine [] h = refl
c_str-IsLine (c ∷ s) (no_nul, _, h) = ground (arith, c_str-IsLine s h)

without_newline-IsLine : (s : List ℕ) → IsLine s → without_newline s ≡ s
unfolding without_newline
without_newline-IsLine [] h = refl
without_newline-IsLine (c ∷ []) (_, other, h) = ground arith
without_newline-IsLine (c ∷ d ∷ s) (_, _, h) = ap (◌∷◌ c) (without_newline-IsLine (d ∷ s) h)

without_newline-append : (s : List ℕ) → IsLine s → without_newline (s ++ 10 ∷ []) ≡ s
unfolding without_newline
without_newline-append [] h = refl
without_newline-append (c ∷ []) h = refl
without_newline-append (c ∷ d ∷ s) (_, _, h) = ap (◌∷◌ c) (without_newline-append (d ∷ s) h)

module _ (codec : Codec) (msg : List ℕ) (icode c : ℕ) (s : List ℕ) where
  -- A line that is typed, with its newline or without, is a command exactly if it is the text of
  -- one: send_mr asks for a code and send_lr logs in with the last code; any other line is ignored.
  pub cmd_read_data-IsLine :
      IsLine (c ∷ s)
      → (cmd_read_data codec msg icode (some (c ∷ s)) ≡ (
          if string_eq (c ∷ s) (codes "send_mr")
          then writes (send_mr codec msg)
          else if string_eq (c ∷ s) (codes "send_lr")
          then writes (send_lr codec msg icode)
          else ignores))
        × (cmd_read_data codec msg icode (some (c ∷ s ++ 10 ∷ []))
            ≡ cmd_read_data codec msg icode (some (c ∷ s)))
  unfolding cmd_read_data
  cmd_read_data-IsLine h =
      let plain : c_str (without_newline (c ∷ s)) ≡ c ∷ s =
        ap c_str (without_newline-IsLine (c ∷ s) h) ∙ c_str-IsLine (c ∷ s) h in
      let ended : c_str (without_newline (c ∷ s ++ 10 ∷ [])) ≡ c ∷ s =
        ap c_str (without_newline-append (c ∷ s) h) ∙ c_str-IsLine (c ∷ s) h in
      (
        ap (run_command codec msg icode) plain,
        ap (run_command codec msg icode) ended ∙ sym (ap (run_command codec msg icode) plain),
      )
