-- ===== src/WebServer/Watching.antt =====
-- A frame on its whole way: from the datagrams of a camera (cam_reverse/session.py, cam_reverse/handlers.py) to the
-- clients of its stream (cam_reverse/http_server.py).
use cam_reverse_py.Base.{
  ℕ, suc, ◌+◌, ◌^◌, ◌<◌, ◌≡◌, refl, sym, ap, ◌∙◌, subst, subst₂, true, false, List, [], ◌∷◌, ◌++◌,
  append_assoc, append-nil, arith, Text, some, length, ok, ◌>>=◌,
}
use cam_reverse_py.Base.Tables.{find, find-insert}
use cam_reverse_py.DataView.{Bytes}
use cam_reverse_py.Settings.{Fields}
use cam_reverse_py.Settings.Files.{Store}
use cam_reverse_py.Exif.{create_exif_orientation}
use cam_reverse_py.State.{Session, open_transport}
use cam_reverse_py.Frames.{is_empty, appended, new_frame}
use cam_reverse_py.Frames.Assembly.{data_packet, IsStart}
use cam_reverse_py.Frames.Delivery.{numbered, AllSlices}
use cam_reverse_py.WebServer.{Camera, Server, put_all, video_size}
use cam_reverse_py.WebServer.Frame.{assemble_frame, orientation_of, with_segment, frame_chunk}
use cam_reverse_py.WebServer.Calls.{on_camera, datagram}
use cam_reverse_py.WebServer.Queues.{is_listed}
use cam_reverse_py.WebServer.Delivery.{delivered, put_all-delivered}
use cam_reverse_py.WebServer.Steps.{Reached}
use cam_reverse_py.WebServer.Invariant.{Reached-HasOwners}
use cam_reverse_py.WebServer.Datagrams.{with_heard, on_slice, on_start}

-- The datagrams come in for the session of a camera, one after another; each call has a clock.
abbrev pub received : Text → (ℕ → ℕ → ℕ) → List Bytes → Server → Server
received dev_id clock [] w = w
received dev_id clock (p ∷ ps) w =
    received dev_id (λ k. clock (suc k)) ps (on_camera dev_id (clock 0) (datagram p) w).1

received-append :
    (dev_id : Text) (clock : ℕ → ℕ → ℕ) (ps : List Bytes) (p : Bytes) (w : Server)
    → received dev_id clock (ps ++ p ∷ []) w
      ≡ (on_camera dev_id (clock (length ps)) (datagram p) (received dev_id clock ps w)).1
received-append dev_id clock [] p w = refl
received-append dev_id clock (x ∷ ps) p w =
    received-append dev_id (λ k. clock (suc k)) ps p (on_camera dev_id (clock 0) (datagram x) w).1

-- A camera in the table, over an open socket, with the slices of a good frame up to a number.
abbrev pub HasFrame : Text → List Bytes → ℕ → Server → Type 0
HasFrame dev_id image id w =
    (c : Camera) × (find dev_id w.sessions ≡ some c)
    × (c.hears_frames ≡ true)
    × (c.session.transport ≡ open_transport)
    × (c.session.cur_image ≡ image)
    × (c.session.frame_is_bad ≡ false)
    × (c.session.rcv_seq_id ≡ id)

-- The server after datagrams that only change the session.
abbrev HasHeard : Text → List Bytes → ℕ → Server → Server → Type 0
HasHeard dev_id image id w v = HasFrame dev_id image id v × (v ≡ record w { sessions = v.sessions })

slices-HasHeard :
    (dev_id : Text) (clock : ℕ → ℕ → ℕ) (bodies image : List Bytes) (id : ℕ) (w : Server)
    → HasFrame dev_id image id w
    → AllSlices bodies
    → id + length bodies < 2 ^ 16
    → HasHeard dev_id
        (image ++ bodies)
        (id + length bodies)
        w
        (received dev_id clock (numbered (suc id) bodies) w)
slices-HasHeard dev_id clock [] image id w f all fit =
    (subst₂ (λ i n. HasFrame dev_id i n w) (sym (append-nil image)) (omega arith) f, refl)
slices-HasHeard dev_id clock (b ∷ bs) image id w (c, found, hears, up, held, good, at) all fit =
    let w' = with_heard dev_id c (appended (suc id) b c.session) (clock 0 0) w in
    let e =
      on_slice dev_id (clock 0) w c found up (suc id) b (omega arith) all.0 (omega (arith, at)) in
    let f : HasFrame dev_id (image ++ b ∷ []) (suc id) w' = (
      record c {
        session = record (appended (suc id) b c.session) { last_received_packet = clock 0 0 };
      },
      find-insert dev_id _ w.sessions,
      hears,
      up,
      ap (λ i. i ++ b ∷ []) held,
      good,
      refl,
    ) in
    let (g, same) =
      slices-HasHeard dev_id (λ k. clock (suc k)) bs (image ++ b ∷ []) (suc id) w' f all.1
        (omega arith) in
    subst
      (λ u.
        HasHeard dev_id (image ++ b ∷ bs) (id + suc (length bs)) w
          (received dev_id (λ k. clock (suc k)) (numbered (suc (suc id)) bs) u))
      (sym e)
      (
        subst₂
            (λ i n.
              HasFrame dev_id i n
                (received dev_id (λ k. clock (suc k)) (numbered (suc (suc id)) bs) w'))
            (append_assoc image (b ∷ []) bs) (omega arith) g,
        same,
      )

-- The picture depends on the slices alone.
assemble_frame_same :
    (config : Fields) (dev_id : Text) (s t : Session)
    → s.cur_image ≡ t.cur_image
    → assemble_frame config dev_id s ≡ assemble_frame config dev_id t
unfolding assemble_frame
assemble_frame_same config dev_id s t e =
    ap
      (λ image.
        orientation_of config dev_id >>= λ o. with_segment (create_exif_orientation o) image)
      e

-- Whatever has happened to a server since its start: for a camera whose frames are listened to, over an open
-- socket, with the first slice of a good frame at hand, the other slices come in under the numbers that
-- follow, below 2 ^ 16, and then the start of the next frame. Where the picture can be assembled from the
-- slices, with the rotation and the mirroring of the settings, every client of the camera whose queue has
-- room gets what waited for it and the chunk of that picture next.
pub received-delivered :
    (ips : List Text) (store : Store) (dev_id : Text) (clock : ℕ → ℕ → ℕ) (w : Server) (c : Camera)
    (first start picture : Bytes) (bodies : List Bytes) (next q : ℕ) (qs : List ℕ)
    → Reached ips store w
    → find dev_id w.sessions ≡ some c
    → c.hears_frames ≡ true
    → c.session.transport ≡ open_transport
    → c.session.cur_image ≡ first ∷ []
    → c.session.frame_is_bad ≡ false
    → AllSlices bodies
    → IsStart start
    → c.session.rcv_seq_id + length bodies < 2 ^ 16
    → next < 2 ^ 16
    → assemble_frame w.store.config dev_id (record c.session { cur_image = first ∷ bodies })
      ≡ ok picture
    → find dev_id w.video_queues ≡ some qs
    → is_listed q qs ≡ true
    → length (w.queue q) < video_size
    → delivered (suc (length (w.queue q))) q (
        received dev_id clock
          (numbered (suc c.session.rcv_seq_id) bodies ++ data_packet next start ∷ [])
          w)
      ≡ w.queue q ++ frame_chunk picture ∷ []
received-delivered ips store dev_id clock w c first start picture bodies next q qs reach found hears
      up image good all begins fit fit' made listed l room =
    let packets = numbered (suc c.session.rcv_seq_id) bodies in
    let v = received dev_id clock packets w in
    let ((c', found', hears', up', image', good', at), same) =
      slices-HasHeard dev_id clock bodies (first ∷ []) c.session.rcv_seq_id w
        (c, found, hears, up, image, good, refl) all fit in
    let (owner, sound) = Reached-HasOwners ips store w reach in
    ap (delivered (suc (length (w.queue q))) q) (
      received-append dev_id clock packets (data_packet next start) w
      ∙ on_start dev_id (clock (length packets)) v c' found' up' next start picture qs fit' begins
          (ap is_empty image') good' hears'
          (ap (λ u. assemble_frame u.store.config dev_id c'.session) same
            ∙ assemble_frame_same w.store.config dev_id c'.session
                (record c.session { cur_image = first ∷ bodies }) image'
            ∙ made)
          (ap (λ u. find dev_id u.video_queues) same ∙ listed))
    ∙ ap
        (λ u. delivered (suc (length (w.queue q))) q (
          with_heard dev_id c' (new_frame next start c'.session) (clock (length packets) 0)
            (record u { queue = put_all video_size (frame_chunk picture) qs u.queue })))
        same
    ∙ put_all-delivered video_size (frame_chunk picture) qs q
        (with_heard dev_id c' (new_frame next start c'.session) (clock (length packets) 0)
          (record w { sessions = v.sessions }))
        (sound.2 dev_id qs listed).0 l room
