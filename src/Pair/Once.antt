-- ===== src/Pair/Once.antt =====
-- A camera is configured once for every connection.
use cam_reverse_py.State.{State}
