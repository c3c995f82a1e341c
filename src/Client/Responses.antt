-- ===== src/Client/Responses.antt =====
-- What the client sees of a response of the server.
use shared_bike_server.Base.{ℕ, ◌≡◌, refl, List, length, load16}
use shared_bike_server.Events.Codec.{Codec}
use shared_bike_server.Client.{socket_read_data, nothing}
use shared_bike_server.Dispatch.Answer.{response_frame}
use shared_bike_server.Dispatch.Answer.Frame.{response_frame_bytes}

-- The server puts the event id of a response one byte too far: at the place where the client reads
-- it there is 512, whatever the response of the announced length, and the client ignores the
-- message.
pub socket_read_data-response_frame :
    (codec : Codec) (len : ℕ) (body : List ℕ)
    → length body ≡ len
    → (load16 (response_frame len body) 4 ≡ 512)
      × (socket_read_data codec (response_frame len body) ≡ nothing)
unfolding socket_read_data
socket_read_data-response_frame codec len body e = rw (response_frame_bytes len body e) (refl, refl)
