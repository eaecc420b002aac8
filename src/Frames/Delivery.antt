-- ===== src/Frames/Delivery.antt =====
-- Which frames the listener of `frame` gets to see.
use cam_reverse_py.Base.{
  ℕ, suc, ◌+◌, ◌^◌, ◌≤◌, ◌<◌, ◌≡◌, refl, sym, ap, ap₂, ◌∙◌, true, false, List, [], ◌∷◌, ◌++◌,
  Option, arith, length, append_assoc, append-nil, ok, le→leb, leb-false, lt→ltb,
}
use cam_reverse_py.DataView.{Bytes, view}
use cam_reverse_py.Settings.{Value, codes, camera_option}
use cam_reverse_py.State.{State, Session, Action, Done, for_each, modify, continue_with, ◌>>◌}
use cam_reverse_py.State.Runs.{for_each_step, for_each-append, for_each_one}
use cam_reverse_py.Link.{Callbacks, frame, emit}
use cam_reverse_py.Frames.{
  is_truthy, is_empty, appended, new_frame, marked_bad, continue_frame, after_gap, start_new_frame,
  deal_with_data, fix_packet_loss,
}
use cam_reverse_py.Frames.Assembly.{data_packet, IsSlice, IsStart, deal_with_slice, deal_with_start}

-- The slices of a frame, numbered from `id`, and packets with numbers of their own.
abbrev pub numbered : ℕ → List Bytes → List Bytes
numbered id [] = []
numbered id (b ∷ bs) = data_packet id b ∷ numbered (suc id) bs

abbrev pub AllSlices : List Bytes → Type 0
AllSlices [] = Unit {0}
AllSlices (b ∷ bs) = IsSlice b × AllSlices bs

-- The session once the slices are in.
abbrev pub assembled : List Bytes → Session → Session
assembled bs s = record s { rcv_seq_id = s.rcv_seq_id + length bs; cur_image = s.cur_image ++ bs }

abbrev pub with_session : {App : Type 0} → State App → Session → State App
with_session s t = record s { session = t }

module _ {App : Type 0} where
  pub continue_next :
      (id : ℕ) (b : Bytes) (s : State App)
      → s.session.rcv_seq_id + 1 ≡ id
      → continue_frame id b s ≡ (ok tt, record s { session = appended id b s.session })
  unfolding continue_frame
  continue_next id b s e = ground arith

  continue_old :
      (id : ℕ) (b : Bytes) (s : State App)
      → id ≤ s.session.rcv_seq_id
      → continue_frame id b s ≡ (ok tt, s)
  unfolding continue_frame
  continue_old id b s h = rw (le→leb id s.session.rcv_seq_id h)

  continue_gap :
      (id : ℕ) (b : Bytes) (s : State App) {option : Option Value}
      → s.session.rcv_seq_id + 1 < id
      → camera_option s.config s.session.dev_name (codes "fix_packet_loss") ≡ ok option
      → is_truthy option ≡ false
      → continue_frame id b s ≡ (ok tt, record s { session = marked_bad s.session })
  unfolding continue_frame after_gap fix_packet_loss
  continue_gap id b s h e off = rw (
    leb-false id s.session.rcv_seq_id (omega arith),
    lt→ltb (s.session.rcv_seq_id + 1) id h,
    e,
    off,
  )

-- A packet of the data stream, as `handle_drw` hands it on.
abbrev pub receive : {App : Type 0} → Callbacks App → Bytes → Action App Done
receive callbacks p = deal_with_data callbacks (view p 0)

-- Slices that follow one another without a gap are appended in order.
slices_assembled :
    {App : Type 0} (callbacks : Callbacks App) (id : ℕ) (bodies : List Bytes) (s : State App)
    → s.session.rcv_seq_id + 1 ≡ id
    → id + length bodies < 2 ^ 16 + 1
    → AllSlices bodies
    → for_each (numbered id bodies) (receive callbacks) s
      ≡ (ok tt, with_session s (assembled bodies s.session))
slices_assembled callbacks id [] s e fit all =
    ap₂
      (λ n image.
        (ok tt, record s { session = record s.session { rcv_seq_id = n; cur_image = image } }))
      {x = s.session.rcv_seq_id} (omega arith) (sym (append-nil s.session.cur_image))
slices_assembled callbacks id (b ∷ bs) s e fit all =
    let t = with_session s (appended id b s.session) in
    for_each_step (data_packet id b) (numbered (suc id) bs) (receive callbacks) s
      (deal_with_slice callbacks id b (omega arith) all.0.0 s all.0 ∙ continue_next id b s e)
    ∙ slices_assembled callbacks (suc id) bs t (omega arith) (omega arith) all.1
    ∙ ap₂
        (λ n image.
          (ok tt, record s { session = record s.session { rcv_seq_id = n; cur_image = image } }))
        {y = s.session.rcv_seq_id + suc (length bs)} (omega arith)
        (append_assoc s.session.cur_image (b ∷ []) bs)

-- A start while a good frame is at hand hands that frame on first.
pub start_after_good :
    {App : Type 0} (callbacks : Callbacks App) (id : ℕ) (body : Bytes) (s : State App)
    → is_empty s.session.cur_image ≡ false
    → s.session.frame_is_bad ≡ false
    → start_new_frame callbacks id body s
      ≡ (callbacks.listener frame >> modify (new_frame id body)) s
unfolding start_new_frame emit
start_after_good callbacks id body s full good = rw (full, good)

-- A start after a bad frame hands nothing on.
start_after_bad :
    {App : Type 0} (callbacks : Callbacks App) (id : ℕ) (body : Bytes) (s : State App)
    → s.session.frame_is_bad ≡ true
    → start_new_frame callbacks id body s
      ≡ (ok tt, record s { session = new_frame id body s.session })
unfolding start_new_frame
start_after_bad callbacks id body s bad = ground arith

-- The packets of a frame are assembled into it: after its first slice, bodies that continue it come
-- in under the numbers that follow and before 2 ^ 16; then the packet that starts the next frame runs
-- the listener of `frame` on a session whose image is the first slice and all bodies in order.
pub frame_delivered :
    {App : Type 0} (callbacks : Callbacks App) (s : State App) (first start : Bytes)
    (bodies : List Bytes) (next : ℕ)
    → s.session.cur_image ≡ first ∷ []
    → s.session.frame_is_bad ≡ false
    → AllSlices bodies
    → IsStart start
    → s.session.rcv_seq_id + length bodies < 2 ^ 16
    → next < 2 ^ 16
    → let whole = record s {
      session = record s.session {
        rcv_seq_id = s.session.rcv_seq_id + length bodies;
        cur_image = first ∷ bodies;
      };
    } in
      for_each
        (numbered (suc s.session.rcv_seq_id) bodies ++ data_packet next start ∷ [])
        (receive callbacks)
        s
      ≡ (callbacks.listener frame >> modify (new_frame next start)) whole
frame_delivered callbacks s first start bodies next image good all starts fit fit' =
    let run =
      slices_assembled callbacks (suc s.session.rcv_seq_id) bodies s (omega arith) (omega arith)
        all in
    let whole = with_session s (assembled bodies s.session) in
    for_each-append (numbered (suc s.session.rcv_seq_id) bodies) (data_packet next start ∷ [])
      (receive callbacks) s
    ∙ ap (λ p. continue_with p (λ _. for_each (data_packet next start ∷ []) (receive callbacks)))
        run
    ∙ for_each_one (data_packet next start) (receive callbacks) whole
    ∙ deal_with_start callbacks next start fit' starts.0 whole starts
    ∙ start_after_good callbacks next start whole (rw image) good
    ∙ ap
        (λ l. (callbacks.listener frame >> modify (new_frame next start)) (record s {
          session = record s.session {
            rcv_seq_id = s.session.rcv_seq_id + length bodies;
            cur_image = l ++ bodies;
          };
        }))
        image

-- A missing packet drops the frame: with packet-loss fixing off, a slice whose number leaves a gap
-- changes nothing but the mark of a bad frame, neither the image nor the number that is expected next, and when the
-- next frame starts no listener is called; that frame begins afresh.
pub gap_drops_frame :
    {App : Type 0} (callbacks : Callbacks App) (s : State App) (body start : Bytes) (id next : ℕ)
    {option : Option Value}
    → s.session.rcv_seq_id + 1 < id
    → camera_option s.config s.session.dev_name (codes "fix_packet_loss") ≡ ok option
    → is_truthy option ≡ false
    → IsSlice body
    → IsStart start
    → id < 2 ^ 16
    → next < 2 ^ 16
    → (receive callbacks (data_packet id body) s
        ≡ (ok tt, record s { session = record s.session { frame_is_bad = true } }))
      × (for_each (data_packet id body ∷ data_packet next start ∷ []) (receive callbacks) s
          ≡ (ok tt, record s { session = new_frame next start s.session }))
gap_drops_frame callbacks s body start id next gap e off slice starts fit fit' =
    let t = record s { session = marked_bad s.session } in
    let marked =
      deal_with_slice callbacks id body fit slice.0 s slice ∙ continue_gap id body s gap e off in
    (
      marked,
      for_each_step (data_packet id body) (data_packet next start ∷ []) (receive callbacks) s marked
          ∙ for_each_one (data_packet next start) (receive callbacks) t
          ∙ deal_with_start callbacks next start fit' starts.0 t starts
          ∙ start_after_bad callbacks next start t refl,
    )

-- Packets with numbers of their own.
abbrev pub labelled : List (ℕ × Bytes) → List Bytes
labelled [] = []
labelled ((id, b) ∷ ps) = data_packet id b ∷ labelled ps

-- Slices under 16-bit numbers.
abbrev pub AllLabelled : List (ℕ × Bytes) → Type 0
AllLabelled [] = Unit {0}
AllLabelled ((id, b) ∷ ps) = (id < 2 ^ 16) × IsSlice b × AllLabelled ps

-- Once the last packet taken in has the number 65535, the slices that follow are all ignored, what
-- number they wrap around to, and the frame is not marked as bad: when the next frame starts, the
-- listener of `frame` runs on the frame without them.
pub wrapped_slices_lost :
    {App : Type 0} (callbacks : Callbacks App) (s : State App) (start : Bytes)
    (slices : List (ℕ × Bytes)) (next : ℕ)
    → s.session.rcv_seq_id ≡ 65535
    → is_empty s.session.cur_image ≡ false
    → s.session.frame_is_bad ≡ false
    → AllLabelled slices
    → IsStart start
    → next < 2 ^ 16
    → for_each (labelled slices ++ data_packet next start ∷ []) (receive callbacks) s
      ≡ (callbacks.listener frame >> modify (new_frame next start)) s
wrapped_slices_lost callbacks s start [] next top full good all starts fit =
    for_each_one (data_packet next start) (receive callbacks) s
    ∙ deal_with_start callbacks next start fit starts.0 s starts
    ∙ start_after_good callbacks next start s full good
wrapped_slices_lost callbacks s start ((id, b) ∷ ps) next top full good all starts fit =
    for_each_step (data_packet id b) (labelled ps ++ data_packet next start ∷ [])
      (receive callbacks) s
      (deal_with_slice callbacks id b all.0 all.1.0 s all.1 ∙ continue_old id b s (omega arith))
    ∙ wrapped_slices_lost callbacks s start ps next top full good all.2 starts fit
