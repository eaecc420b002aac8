-- ===== src/Examples/Capture.antt =====
-- The capture of a frame into a file, at a concrete input.
use cam_reverse_py.Base.{◌≡◌, refl, true, false, [], ◌∷◌, ◌++◌, none, arith, ok}
use cam_reverse_py.DataView.{Bytes}
use cam_reverse_py.Settings.{default_config}
use cam_reverse_py.State.{State, for_each}
use cam_reverse_py.Link.{disconnected}
use cam_reverse_py.CaptureSingle.{Capture, callbacks}
use cam_reverse_py.CaptureSingle.First.{captured, for_each-captured}
use cam_reverse_py.Frames.{new_frame}
use cam_reverse_py.Frames.Assembly.{data_packet}
use cam_reverse_py.Frames.Delivery.{numbered, receive}
use cam_reverse_py.WebServer.Frame.{join}
use cam_reverse_py.Examples.Camera.{connected_state}

abbrev first_slice : Bytes
first_slice = 0xFF ∷ 0xD8 ∷ 0xFF ∷ 0xDB ∷ 1 ∷ 2 ∷ 3 ∷ 4 ∷ []

abbrev second_slice : Bytes
second_slice = 10 ∷ 20 ∷ 30 ∷ 40 ∷ 50 ∷ 60 ∷ 70 ∷ 80 ∷ []

-- The first slice of a frame is at hand, and the disk has room.
abbrev capture_state : State Capture
capture_state = record {
  session = record connected_state.session { rcv_seq_id = 7; cur_image = first_slice ∷ [] };
  wire = [];
  clock = connected_state.clock;
  config = default_config;
  app = record {
    file = none;
    opens = true;
    cut = λ data_. none;
    discovery_closed = false;
    done = false;
  };
}

for_each-captured_example :
    for_each
      (numbered 8 (second_slice ∷ []) ++ data_packet 9 first_slice ∷ [])
      (receive callbacks)
      capture_state
    ≡ (
      ok tt,
      record capture_state {
        session = new_frame 9 first_slice (
            disconnected (record capture_state.session {
              rcv_seq_id = 8;
              cur_image = first_slice ∷ second_slice ∷ [];
            }));
        app = captured (join (first_slice ∷ second_slice ∷ [])) capture_state.app;
      },
    )
for_each-captured_example =
    for_each-captured capture_state first_slice first_slice (second_slice ∷ []) 9 refl refl
      (((omega arith, omega arith), refl, refl), tt) ((omega arith, omega arith), refl, refl)
      (omega arith) (omega arith) refl refl
