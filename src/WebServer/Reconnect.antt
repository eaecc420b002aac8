-- ===== src/WebServer/Reconnect.antt =====
-- What the button that reconnects a camera does.
use cam_reverse_py.Base.{ℕ, ◌≡◌, ap, ap₂, ◌∙◌, true, [], ◌∷◌, Text, none, some, ok, if◌then◌else◌}
use cam_reverse_py.Base.Tables.{find, remove}
use cam_reverse_py.Settings.{str, obj, field, end, codes}
use cam_reverse_py.Link
use cam_reverse_py.Link.{disconnected}
use cam_reverse_py.Discovery.{Search, add_target}
use cam_reverse_py.State.{State, pure}
use cam_reverse_py.WebServer.{Camera, Server}
use cam_reverse_py.WebServer.Streams.{listeners, on_disconnect}
use cam_reverse_py.WebServer.Cameras.{on_session, keep_session, put_back}
use cam_reverse_py.WebServer.Api.{json, handle_reconnect, reconnect_with, after_close, target}

closed :
    (dev_id : Text) (c : Camera) (clock : ℕ → ℕ) (w : Server)
    → c.hears_frames ≡ true
    → find dev_id (remove dev_id w.sessions) ≡ none
    → on_session dev_id c clock Link.close w
      ≡ (ok tt, [], record w { sessions = remove dev_id w.sessions })
unfolding Link.close Link.emit listeners on_disconnect
closed dev_id c clock w h once =
    let s : State Server = record {
      session = disconnected c.session;
      wire = [];
      clock = clock;
      config = w.store.config;
      app = w;
    } in
    ap (λ b. put_back dev_id ((if b then on_disconnect dev_id else pure tt) s)) h
    ∙ ap
        (λ o. (
          ok tt,
          [],
          keep_session dev_id s.session o (record w { sessions = remove dev_id w.sessions }),
        ))
        once

-- For a camera that has a session, under one key of the table, with the listeners of the server, and whose address is
-- known, while discovery runs: `_handle_camera_reconnect` answers with both, takes the session out of
-- the table, has the address searched, and changes nothing else of the server.
pub handle_reconnect_lem :
    (dev_id ip_rest : Text) (first : ℕ) (clock : ℕ → ℕ) (w : Server) (c : Camera) (d : Search)
    → find dev_id w.sessions ≡ some c
    → find dev_id (remove dev_id w.sessions) ≡ none
    → c.hears_frames ≡ true
    → find dev_id w.camera_ips ≡ some (first ∷ ip_rest)
    → w.search ≡ some d
    → handle_reconnect dev_id clock w ≡ (
      ok (
          json (
            obj (
              field
                (codes "reconnecting")
                (str dev_id)
                (field (codes "ip") (str (first ∷ ip_rest)) end)))),
      record w {
        sessions = remove dev_id w.sessions;
        search = some (add_target (first ∷ ip_rest) d);
      },
    )
unfolding handle_reconnect add_target
handle_reconnect_lem dev_id ip_rest first clock w c d s once h i e =
    let ip = first ∷ ip_rest in
    ap₂ (λ a b. reconnect_with dev_id a b clock w) s i
    ∙ ap (after_close dev_id (some ip)) (closed dev_id c clock w h once)
    ∙ ap
        (λ o. (
          ok (
              json (
                obj (field (codes "reconnecting") (str dev_id) (field (codes "ip") (str ip) end)))),
          record w { sessions = remove dev_id w.sessions; search = target ip o },
        ))
        e
