-- ===== src/WebServer/Listening.antt =====
-- Sound on its whole way: from a datagram of a camera (cam_reverse/session.py, cam_reverse/handlers.py) to the clients
-- of its audio stream (cam_reverse/http_server.py).
use cam_reverse_py.Base.{
  ℕ, suc, ◌+◌, ◌^◌, ◌<◌, ◌≡◌, refl, ap, ◌∙◌, true, List, [], ◌∷◌, ◌++◌, Text, some, length,
}
use cam_reverse_py.Base.Tables.{find}
use cam_reverse_py.DataView.{Bytes}
use cam_reverse_py.DataView.Words.{IsBytes}
use cam_reverse_py.Settings.{codes}
use cam_reverse_py.Settings.Files.{Store}
use cam_reverse_py.State.{open_transport}
use cam_reverse_py.Frames.Assembly.{data_packet}
use cam_reverse_py.Frames.Sound.{Padding, sound_body}
use cam_reverse_py.WebServer.{Camera, Server, audio_size}
use cam_reverse_py.WebServer.Frame.{audio_chunk, b64encode}
use cam_reverse_py.WebServer.Base64.{decode64, decode64-b64encode}
use cam_reverse_py.WebServer.Calls.{on_camera, datagram}
use cam_reverse_py.WebServer.Queues.{is_listed}
use cam_reverse_py.WebServer.Delivery.{delivered, put_all-delivered}
use cam_reverse_py.WebServer.Datagrams.{with_heard, on_sound}
use cam_reverse_py.WebServer.Steps.{Reached}
use cam_reverse_py.WebServer.Invariant.{Reached-HasOwners}

-- An event of the stream whose text the given bytes were encoded to.
abbrev pub Carries : Bytes → Bytes → Type 0
Carries payload chunk =
    (b64 : Bytes) × (chunk ≡ codes "data: " ++ (b64 ++ 10 ∷ 10 ∷ [])) × (decode64 b64 ≡ payload)

-- Whatever has happened to a server since its start: a packet of sound, whose length fits 16 bits, comes in
-- for a camera whose sound is listened to, over an open socket. Every client of its audio stream whose queue
-- has room gets what waited for it and next an event whose Base64 text, decoded, is the payload of the
-- packet.
pub on_camera-delivered :
    (ips : List Text) (store : Store) (dev_id : Text) (clock : ℕ → ℕ) (w : Server) (c : Camera)
    (id q : ℕ) (h : Padding) (payload : Bytes) (qs : List ℕ)
    → Reached ips store w
    → find dev_id w.sessions ≡ some c
    → c.hears_audio ≡ true
    → c.session.transport ≡ open_transport
    → IsBytes payload
    → length payload + 36 < 2 ^ 16
    → find dev_id w.audio_queues ≡ some qs
    → is_listed q qs ≡ true
    → length (w.queue q) < audio_size
    → (chunk : Bytes) × (delivered
          (suc (length (w.queue q)))
          q
          (on_camera dev_id clock (datagram (data_packet id (sound_body h payload))) w).1
        ≡ w.queue q ++ chunk ∷ [])
      × Carries payload chunk
unfolding audio_chunk
on_camera-delivered ips store dev_id clock w c id q h payload qs reach found hears up bytes fit
      listed l room =
    let (owner, sound) = Reached-HasOwners ips store w reach in
    (
      audio_chunk payload,
      ap (delivered (suc (length (w.queue q))) q)
            (on_sound dev_id clock w c found up id h payload qs fit hears listed)
          ∙ put_all-delivered audio_size (audio_chunk payload) qs q
              (with_heard dev_id c c.session (clock 0) w) (sound.3 dev_id qs listed).0 l room,
      (b64encode payload, refl, decode64-b64encode payload bytes),
    )
