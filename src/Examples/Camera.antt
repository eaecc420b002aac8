-- ===== src/Examples/Camera.antt =====
-- A connected camera that the examples share.
use cam_reverse_py.Base.{ℕ, ◌+◌, true, [], ok}
use cam_reverse_py.Settings.{codes, default_config}
use cam_reverse_py.State.{State, Session, DevSerial, new_session, open_transport}
use cam_reverse_py.Link.{Callbacks}

-- A connected session, with a listener that counts what it is told.
abbrev pub counting : Callbacks ℕ
counting = record {
  on_login = λ s. (ok tt, s);
  listener = λ e s. (ok tt, record s { app = s.app + 1 });
}

abbrev pub camera : DevSerial
camera = record {
  prefix = codes "BATD";
  serial = codes "609531";
  suffix = codes "EXLVS";
  serial_u64 = 609531;
  dev_id = codes "BATD609531EXLVS";
}

abbrev pub connected_session : Session
connected_session = record (new_session camera (codes "192.168.1.3") 32108 10000) {
  transport = open_transport;
  started = true;
  timers = true;
}

abbrev pub connected_state : State ℕ
connected_state = record {
  session = connected_session;
  wire = [];
  clock = λ k. 50000 + k;
  config = default_config;
  app = 0;
}
