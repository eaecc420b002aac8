-- ===== src/Session/Login.antt =====
-- What a session does when the camera has answered its login (cam_reverse/session.py, cam_reverse/handlers.py).
use cam_reverse_py.Base.{
  ◌*◌, ◌/◌, ◌%◌, ℕ, ◌+◌, ◌^◌, ◌<◌, ◌≡◌, refl, ap, ◌∙◌, [], ◌∷◌, ◌++◌, some, none, arith, length,
  Result, ok,
}
use cam_reverse_py.DataView.{Bytes, view}
use cam_reverse_py.Datatypes
use cam_reverse_py.Datatypes.{ControlCommand, control_value}
use cam_reverse_py.State.{
  State, Action, Done, open_transport, continue_with, for_each, pure, modify, ◌>>=◌, ◌>>◌,
}
use cam_reverse_py.Link.{Callbacks, login, send, send_to}
use cam_reverse_py.DataView.Words.{IsBytes}
use cam_reverse_py.Control.{create_response_for_control_command}
use cam_reverse_py.Control.Decode.{control_packet, create_response_login}
use cam_reverse_py.Parsers.{make_drw_ack}
use cam_reverse_py.Handlers.{handle_drw, send_drw_ack}
use cam_reverse_py.Handlers.Acks.{ack_packet}
use cam_reverse_py.Link.Sending.{with_wire, noted, send-command}
use cam_reverse_py.Crypto.Cipher.{enc_region}
use cam_reverse_py.Impl.{build_packet, encode_payload}
use cam_reverse_py.Impl.Layout.{header}
use cam_reverse_py.Impl.RoundTrip.{counted}
use cam_reverse_py.Impl.Requests.{
  make_data_read_write, send_command, send_video_resolution, send_start_video,
}
use cam_reverse_py.Session.{start_video_stream, handle_incoming, account, touch}

-- The state once a command is built, noted and sent.
abbrev pub commanded : {App : Type 0} → Bytes → State App → State App
commanded packet s =
    with_wire packet
      (noted s.session.outgoing_command_id packet (record s { session = counted s.session }))

-- The two commands of `start_video_stream`.
abbrev pub resolution_bytes : Bytes
resolution_bytes = 1 ∷ 0 ∷ 0 ∷ 0 ∷ 2 ∷ 0 ∷ 0 ∷ 0 ∷ []

abbrev pub video_packet : ℕ → Bytes → Bytes
video_packet id ticket =
    header id (control_value Datatypes.video_param_set) 8
    ++ (ticket ++ enc_region 4 resolution_bytes)

abbrev pub start_packet : ℕ → Bytes → Bytes
start_packet id ticket = header id (control_value Datatypes.start_video) 0 ++ ticket

module _ {App : Type 0} (s : State App) (a b c d : ℕ)
    (logged_in : s.session.ticket ≡ a ∷ b ∷ c ∷ d ∷ [])
    (up : s.session.transport ≡ open_transport) where
  start_lem :
      s.session.outgoing_command_id < 2 ^ 16
      → (send_start_video >>= send) s
        ≡ (ok tt, commanded (start_packet s.session.outgoing_command_id (a ∷ b ∷ c ∷ d ∷ [])) s)
  unfolding send_command make_data_read_write build_packet encode_payload send
  start_lem fit =
      let id = s.session.outgoing_command_id in
      let u : State App = record s { session = counted s.session } in
      ap
        (λ t.
          continue_with
            (continue_with (build_packet id t (control_value Datatypes.start_video) none, s)
              (λ packet. modify counted >> pure packet))
            send)
        logged_in
      ∙ send-command u up 0 16 0 id (17 ∷ 10 ∷ 16 ∷ 48 ∷ 4 ∷ 0 ∷ 0 ∷ 0 ∷ a ∷ b ∷ c ∷ d ∷ []) fit

  video_lem :
      s.session.outgoing_command_id < 2 ^ 16
      → (send_video_resolution 2 >>= λ pkts. for_each pkts send) s
        ≡ (ok tt, commanded (video_packet s.session.outgoing_command_id (a ∷ b ∷ c ∷ d ∷ [])) s)
  unfolding send_video_resolution make_data_read_write encode_payload build_packet
  video_lem fit =
      let id = s.session.outgoing_command_id in
      let u : State App = record s { session = counted s.session } in
      ap
        (λ t.
          continue_with
            (continue_with
              (continue_with
                (
                  build_packet id t (control_value Datatypes.video_param_set)
                      (some (enc_region 4 resolution_bytes)),
                  s,
                )
                (λ packet. modify counted >> pure packet))
              (λ packet. pure (packet ∷ [])))
            (λ pkts. for_each pkts send))
        logged_in
      ∙ ap (λ p. continue_with p (λ _. for_each [] send))
          (send-command u up 0 24 0 id
            (17 ∷ 10 ∷ 24 ∷ 48 ∷ 12 ∷ 0 ∷ 0 ∷ 0 ∷ a ∷ b ∷ c ∷ d ∷ enc_region 4 resolution_bytes)
            fit)

-- `start_video_stream` on a session with a token over an open socket: two commands.
start_video_stream_lem :
    {App : Type 0} (s : State App) (a b c d : ℕ)
    → s.session.ticket ≡ a ∷ b ∷ c ∷ d ∷ []
    → s.session.transport ≡ open_transport
    → s.session.outgoing_command_id + 1 < 2 ^ 16
    → let id = s.session.outgoing_command_id in
      let ticket : Bytes = a ∷ b ∷ c ∷ d ∷ [] in
      start_video_stream s
      ≡ (ok tt, commanded (start_packet (id + 1) ticket) (commanded (video_packet id ticket) s))
unfolding start_video_stream send_video_resolution make_data_read_write encode_payload build_packet
start_video_stream_lem s a b c d logged_in up fit =
    let ticket : Bytes = a ∷ b ∷ c ∷ d ∷ [] in
    let u = commanded (video_packet s.session.outgoing_command_id ticket) s in
    ap (λ p. continue_with p (λ _. send_start_video >>= send))
      (video_lem s a b c d logged_in up (omega arith))
    ∙ start_lem u a b c d logged_in up fit

-- The acknowledgement of a control packet.
abbrev pub control_ack : ℕ → Bytes
control_ack id = ack_packet 0 (id % 2 ^ 16 % 256 + 256 * (id % 2 ^ 16 / 256 % 256 + 256 * 0))

-- The session with its new token.
abbrev pub with_ticket : {App : Type 0} → Bytes → State App → State App
with_ticket ticket s = record s { session = record s.session { ticket = ticket } }

-- A camera's answer to the login, with at least eight bytes of payload encoded with a rotation of 4 and a
-- length that fits 16 bits, comes in for a session over an open socket that starts the video stream at its
-- login, has no other listeners of `login`, and has two ids left below 2 ^ 16: it is acknowledged, bytes 4 to
-- 7 of the payload become the token, and with it two commands go out under the next two ids and are kept for
-- retransmission: the resolution 640x480, then the start of the stream. The time of the packet is noted last.
pub handle_incoming-start_video_stream :
    {App : Type 0} (callbacks : Callbacks App) (s : State App) (id a b c d p q r t e f g h : ℕ)
    (rest : Bytes)
    → callbacks.on_login ≡ start_video_stream
    → ((u : State App) → callbacks.listener login u ≡ (ok tt, u))
    → s.session.transport ≡ open_transport
    → s.session.outgoing_command_id + 1 < 2 ^ 16
    → let payload : Bytes = p ∷ q ∷ r ∷ t ∷ e ∷ f ∷ g ∷ h ∷ rest in
      let ticket : Bytes = e ∷ f ∷ g ∷ h ∷ [] in
      let o = s.session.outgoing_command_id in
      length payload + 16 < 2 ^ 16
      → IsBytes payload
      → handle_incoming callbacks
          (control_packet id
            (control_value Datatypes.connect_user_ack)
            (length payload)
            (a ∷ b ∷ c ∷ d ∷ [])
            (enc_region 4 payload))
          s
        ≡ touch callbacks (
            commanded (start_packet (o + 1) ticket) (
              commanded
                (video_packet o ticket)
                (with_ticket ticket (with_wire (control_ack id) s))))
unfolding handle_incoming handle_drw send_drw_ack make_drw_ack send
handle_incoming-start_video_stream {App} callbacks s id a b c d p q r t e f g h rest video quiet up
      fit short bytes =
    let payload : Bytes = p ∷ q ∷ r ∷ t ∷ e ∷ f ∷ g ∷ h ∷ rest in
    let ticket : Bytes = e ∷ f ∷ g ∷ h ∷ [] in
    let packet =
      control_packet id (control_value Datatypes.connect_user_ack) (length payload)
        (a ∷ b ∷ c ∷ d ∷ []) (enc_region 4 payload) in
    let answer : Action App Done =
      create_response_for_control_command callbacks (view packet 0) >>= λ pkts.
      for_each pkts send in
    let s' = with_wire (control_ack id) s in
    let u = with_ticket ticket s' in
    let done =
      commanded (start_packet (s.session.outgoing_command_id + 1) ticket)
        (commanded (video_packet s.session.outgoing_command_id ticket) u) in
    let rest_of_call : Result Done × State App → State App = λ x. account callbacks (
      continue_with (continue_with (continue_with x (λ _. pure [])) (λ pkts. for_each pkts send))
        (λ _. pure 0xF1D0)) in
    ap
      (λ o. account callbacks (
        continue_with (continue_with (send_to o (control_ack id) s) (λ _. answer))
          (λ _. pure 0xF1D0)))
      up
    ∙ ap
        (λ x.
          account callbacks
            (continue_with (continue_with x (λ pkts. for_each pkts send)) (λ _. pure 0xF1D0)))
        (create_response_login callbacks s' id a b c d p q r t e f g h rest short bytes)
    ∙ ap (λ m. rest_of_call ((m >> callbacks.listener login) u)) video
    ∙ ap (λ x. rest_of_call (continue_with x (λ _. callbacks.listener login)))
        (start_video_stream_lem u e f g h refl up fit)
    ∙ ap rest_of_call (quiet done)
