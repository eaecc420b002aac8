-- ===== src/CaptureSingle/First.antt =====
-- The program ends with the first whole frame.
use cam_reverse_py.Base.{
  ℕ, suc, ◌+◌, ◌^◌, ◌<◌, ◌≡◌, refl, ◌∙◌, true, false, List, [], ◌∷◌, ◌++◌, none, some, length, ok,
}
use cam_reverse_py.DataView.{Bytes}
use cam_reverse_py.State.{State, for_each}
use cam_reverse_py.Link.{disconnected, emit, close}
use cam_reverse_py.Frames.{new_frame}
use cam_reverse_py.Frames.Assembly.{data_packet, IsStart}
use cam_reverse_py.Frames.Delivery.{numbered, AllSlices, receive, frame_delivered}
use cam_reverse_py.WebServer.Frame.{join}
use cam_reverse_py.CaptureSingle.{Capture, callbacks, listener, on_frame}

-- The program has captured these bytes.
abbrev pub captured : Bytes → Capture → Capture
captured data_ c = record c { file = some data_; discovery_closed = true; done = true }

-- After the first slice of a good frame, the others come in under the numbers that follow and before 2 ^ 16, and
-- then the start of the next frame. Where the file can be opened and takes all the data, it then holds the bytes of
-- the first slice and of all others in order, discovery and the session are closed, and the program is told to end.
pub for_each-captured :
    (s : State Capture) (first start : Bytes) (bodies : List Bytes) (next : ℕ)
    → s.session.cur_image ≡ first ∷ []
    → s.session.frame_is_bad ≡ false
    → AllSlices bodies
    → IsStart start
    → s.session.rcv_seq_id + length bodies < 2 ^ 16
    → next < 2 ^ 16
    → s.app.opens ≡ true
    → s.app.cut (join (first ∷ bodies)) ≡ none
    → let whole = record s.session {
      rcv_seq_id = s.session.rcv_seq_id + length bodies;
      cur_image = first ∷ bodies;
    } in
      for_each
        (numbered (suc s.session.rcv_seq_id) bodies ++ data_packet next start ∷ [])
        (receive callbacks)
        s
      ≡ (
        ok tt,
        record s {
          session = new_frame next start (disconnected whole);
          app = captured (join (first ∷ bodies)) s.app;
        },
      )
unfolding emit listener on_frame close
for_each-captured s first start bodies next image good all starts fit fit' opens whole =
    frame_delivered callbacks s first start bodies next image good all starts fit fit'
    ∙ rw (opens, whole) refl
