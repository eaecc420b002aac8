-- ===== src/Discovery.antt =====
-- cam_reverse/discovery.py: which datagrams make a camera known, and the addresses that are searched.
pub mod Targets
use cam_reverse_py.Base.{
  ℕ, Bool, true, false, List, [], ◌∷◌, ◌++◌, Text, text_eq, Option, none, some, ◌||◌, ◌==◌,
  if◌then◌else◌, not, Result, ok, err, key_error, type_error, or_raise, ◌>>=◌,
}
use cam_reverse_py.DataView.{Bytes, view, read_u16, contains}
use cam_reverse_py.Datatypes
use cam_reverse_py.Datatypes.{command_value}
use cam_reverse_py.Settings.{
  Value, null, bool, int, str, other, arr, obj, Items, nil, cons, Fields, codes, get,
}
use cam_reverse_py.State.{DevSerial}
use cam_reverse_py.Impl.{parse_punch_pkt, create_empty}

-- `ip in value`: an element of a list, a key of a dictionary, a part of a string.
abbrev pub is_item : Text → Items → Bool
is_item ip nil = false
is_item ip (cons (str s) xs) = text_eq s ip || is_item ip xs
is_item ip (cons _ xs) = is_item ip xs

abbrev pub has_key : Option Value → Bool
has_key none = false
has_key (some v) = true

abbrev pub member : Text → Value → Result Bool
member ip (arr xs) = ok (is_item ip xs)
member ip (obj fs) = ok (has_key (get ip fs))
member ip (str s) = ok (contains s ip)
member ip _ = err type_error

-- `settings.config["blacklisted_ips"]`, and the test on it.
unfoldable pub is_blacklisted : Fields → Text → Result Bool
is_blacklisted config ip = do
  ips ← or_raise (get (codes "blacklisted_ips") config) key_error
  member ip ips

-- `_handle_incoming_punch`: the camera with which `discover` is emitted, if it is.
unfoldable pub handle_incoming_punch : Fields → Bytes → Text → Result (Option DevSerial)
unfolding read_u16 is_blacklisted parse_punch_pkt
handle_incoming_punch config msg ip = do
  cmd_id ← read_u16 (view msg 0)
  (if not (cmd_id == command_value Datatypes.punch_pkt)
      then ok none
      else (is_blacklisted config ip >>= λ dropped.
          (if dropped then ok none else (parse_punch_pkt (view msg 0) >>= λ dev. ok (some dev)))))

-- `ls_buf`, the datagram of every probe.
unfoldable pub search_packet : Result Bytes
unfolding create_empty
search_packet = create_empty Datatypes.Command.lan_search

-- What `_run_discovery` keeps: the addresses in `active`, those with a running `_blast` task, and
-- the destinations of the probes that were handed to the socket.
pub record Search : Type 0 where
  pub active : List Text
  pub tasks : List Text
  pub probes : List Text

abbrev pub is_active : Text → List Text → Bool
is_active ip [] = false
is_active ip (x ∷ xs) = text_eq x ip || is_active ip xs

-- `_probe`; what `sendto` raises is only logged. One round of `_blast` is a probe.
unfoldable pub probe : Text → Search → Search
probe ip d = record d { probes = d.probes ++ ip ∷ [] }

-- `_add_target`: the order in the set `active` carries no meaning.
unfoldable pub add_target : Text → Search → Search
unfolding probe
add_target ip d =
    if is_active ip d.active
    then probe ip d
    else record d { active = d.active ++ ip ∷ []; tasks = d.tasks ++ ip ∷ [] }

-- The loop over the addresses of the configuration.
unfoldable pub add_targets : List Text → Search → Search
unfolding add_target
add_targets [] d = d
add_targets (ip ∷ ips) d = add_targets ips (add_target ip d)

-- The state before the first address.
abbrev pub no_search : Search
no_search = record { active = []; tasks = []; probes = [] }

-- `_on_close`: the tasks are cancelled.
unfoldable pub on_close : Search → Search
on_close d = record d { tasks = [] }
