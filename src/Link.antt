-- ===== src/Link.antt =====
-- The part of `Session` (cam_reverse/session.py) that its handlers call: sending, acknowledging,
-- the events, and the end of a session. What happens on an event besides is the caller's: a
-- listener is an action of the program around the session, and so is the `on_login` callback.
pub mod Ending
pub mod Queued
pub mod Sending
use cam_reverse_py.Base.{
  ℕ, Bool, true, false, Text, List, [], ◌∷◌, ◌++◌, Option, none, some, Result, ok, err, ◌==◌,
  if◌then◌else◌,
}
use cam_reverse_py.Base.Int.{ℤ}
use cam_reverse_py.DataView.{Bytes, view, read_u8, read_u16, to_bytes}
use cam_reverse_py.Settings.{codes}
use cam_reverse_py.State.{
  Session, State, Action, Done, Unacked, Transport, no_transport, open_transport, closed_transport,
  put_pending, pop_pending, pure, lift, gets, modify, now_ms, ◌>>=◌, ◌>>◌,
}

-- `WifiListItem` of cam_reverse/handlers.py.
pub record WifiListItem : Type 0 where
  pub ssid : Text
  pub mac : Text
  pub security : ℕ
  pub dbm0 : ℕ
  pub dbm1 : ℕ
  pub mode : ℕ
  pub channel : ℕ

pub data Event : Type 0 where
  disconnect login frame : Event
  audio : Bytes → Event
  wifi_list : List WifiListItem → Event

-- What the creator of a session registers: `on_login`, and what its own listeners of an event do,
-- in the order of registration.
pub record Callbacks (App : Type 0) : Type 0 where
  pub on_login : Action App Done
  pub listener : Event → Action App Done

-- `self.transport.close()`, if there is a transport.
abbrev pub close_transport : Transport → Transport
close_transport no_transport = no_transport
close_transport open_transport = closed_transport
close_transport closed_transport = closed_transport

-- `_on_disconnect` on the session.
abbrev pub disconnected : Session → Session
disconnected s =
    if s.connected
    then record s {
      dst_ip = codes "0.0.0.0";
      connected = false;
      timers = false;
      transport = close_transport s.transport;
    }
    else s

module _ {App : Type 0} where
  -- `self.transport.sendto(...)`, if there is a transport.
  abbrev pub send_to : Transport → Bytes → Action App Done
  send_to no_transport msg s = (ok tt, s)
  send_to open_transport msg s = (ok tt, record s { wire = s.wire ++ (msg ∷ []) })
  send_to closed_transport msg s = (ok tt, record s { wire = s.wire ++ (msg ∷ []) })

  unfoldable pub transmit : Bytes → Action App Done
  transmit msg s = send_to s.session.transport msg s

  -- The entry for retransmission of a Drw packet that is not an acknowledgement.
  unfoldable pub store_unacked : Bytes → Action App Done
  unfolding read_u16
  store_unacked msg = do
    packet_id ← lift (read_u16 (view msg 6))
    now ← now_ms
    modify (λ s. record s {
      unacked_drw = put_pending packet_id (record { sent_ts = now; packet = msg }) s.unacked_drw;
    })

  unfoldable pub remember : Bytes → Action App Done
  unfolding read_u8 store_unacked
  remember msg = do
    kind ← lift (read_u8 (view msg 4))
    (if kind == 0xD1 then store_unacked msg else pure tt)

  unfoldable pub send : Bytes → Action App Done
  unfolding remember transmit read_u16 to_bytes
  send msg = do
    raw ← lift (read_u16 (view msg 0))
    (if raw == 0xF1D0 then remember msg else pure tt)
    transmit (to_bytes (view msg 0))

  unfoldable pub ack_drw : ℕ → Action App Done
  ack_drw id = modify (λ s. record s { unacked_drw = pop_pending id s.unacked_drw })

module _ {App : Type 0} (callbacks : Callbacks App) where
  -- `event_emitter.emit`: the session's own listeners come first.
  unfoldable pub emit : Event → Action App Done
  emit disconnect = modify disconnected >> callbacks.listener disconnect
  emit login = callbacks.on_login >> callbacks.listener login
  emit frame = callbacks.listener frame
  emit (audio payload) = callbacks.listener (audio payload)
  emit (wifi_list items) = callbacks.listener (wifi_list items)

  unfoldable pub close : Action App Done
  unfolding emit
  close = emit disconnect
