-- ===== src/Mock.antt =====
-- cam_reverse/mock_server.py: the fake camera of the tests. `on_message` is a parameter, which the tests give.
use cam_reverse_py.Base.{List, [], ◌∷◌, ◌++◌, Text, Result, ok, err}
use cam_reverse_py.DataView.{Bytes, Dv, view}

-- What the protocol has handed to its transport: the replies, each with its address.
pub record MockProtocol : Type 0 where
  pub sent : List (Bytes × Text)

-- The loop of `datagram_received`.
abbrev pub send_replies : Text → List Bytes → MockProtocol → MockProtocol
send_replies addr [] m = m
send_replies addr (out ∷ outs) m =
    send_replies addr outs (record { sent = m.sent ++ (out, addr) ∷ [] })

abbrev pub reply_with : Text → Result (List Bytes) → MockProtocol → Result (Unit {0}) × MockProtocol
reply_with addr (err e) m = (err e, m)
reply_with addr (ok outs) m = (ok tt, send_replies addr outs m)

-- `datagram_received`, after `connection_made`.
unfoldable pub datagram_received :
    (Dv → Result (List Bytes)) → Bytes → Text → MockProtocol → Result (Unit {0}) × MockProtocol
datagram_received on_message msg addr m = reply_with addr (on_message (view msg 0)) m
