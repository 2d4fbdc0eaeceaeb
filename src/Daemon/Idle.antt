-- ===== src/Daemon/Idle.antt =====
-- src/daemon/abrtd.c: the timeout after which an idle daemon quits. A timer is its id in GLib, which
-- gives new ids in rising order.
use abrt.Base.{
  ℕ, ◌≡◌, ◌≢◌, refl, ◌∙◌, ap, false, not, List, [], ◌∷◌, ◌==◌, if◌then◌else◌, length, ◌+◌, arith,
}
use abrt.Session.{list_remove}

-- `s_timeout`, `s_timeout_src`, the timers that run, and the next id
pub record Idle : Type 0 where
  pub timeout : ℕ
  pub timeout_src : ℕ
  pub timers : List ℕ
  pub next_id : ℕ

-- `child_count` is never changed from 0.
unfoldable pub start_idle_timeout : Idle → Idle
start_idle_timeout idle = if idle.timeout == 0 then idle else record idle {
  timeout_src = idle.next_id;
  timers = idle.next_id ∷ idle.timers;
  next_id = (idle.next_id + 1);
}

unfoldable pub kill_idle_timeout : Idle → Idle
kill_idle_timeout idle = if idle.timeout == 0 then idle else record idle {
  timers =
      if not (idle.timeout_src == 0) then list_remove idle.timers idle.timeout_src else idle.timers;
  timeout_src = 0;
}

-- The callbacks: of the socket, of the watch on the dump location, and of a signal
pub data Callback : Type 0 where
  on_socket : Callback
  on_inotify : Callback
  on_signal : Callback

unfoldable pub touch : Callback → Idle → Idle
touch on_socket idle = start_idle_timeout (kill_idle_timeout idle)
touch on_inotify idle = start_idle_timeout (kill_idle_timeout idle)
touch on_signal idle = start_idle_timeout idle

unfoldable pub touches : List Callback → Idle → Idle
touches [] idle = idle
touches (callback ∷ callbacks) idle = touches callbacks (touch callback idle)

abbrev pub signals_in : List Callback → ℕ
signals_in [] = 0
signals_in (on_signal ∷ callbacks) = signals_in callbacks + 1
signals_in (_ ∷ callbacks) = signals_in callbacks

-- The last timer that was started is the first of those that run.
record IsRunning (idle : Idle) : Type 0 where
  enabled : idle.timeout ≢ 0
  numbered : idle.timeout_src ≢ 0
  later : idle.next_id ≢ 0
  rest : List ℕ
  running : idle.timers ≡ idle.timeout_src ∷ rest

begun : Idle → Idle
begun idle = record idle {
  timeout_src = idle.next_id;
  timers = idle.next_id ∷ idle.timers;
  next_id = (idle.next_id + 1);
}

start_begun : (idle : Idle) → idle.timeout ≢ 0 → start_idle_timeout idle ≡ begun idle
unfolding start_idle_timeout begun
start_begun idle h = let on : (idle.timeout == 0) ≡ false = ground arith in rw on refl

kill_rest :
    (idle : Idle) (v : IsRunning idle)
    → kill_idle_timeout idle ≡ record idle { timers = v.rest; timeout_src = 0 }
unfolding kill_idle_timeout list_remove
kill_rest idle v =
    let on : (idle.timeout == 0) ≡ false = ground (arith, v.enabled) in
    let known : (idle.timeout_src == 0) ≡ false = ground (arith, v.numbered) in
    let same : list_remove idle.timers idle.timeout_src ≡ v.rest =
      ap (λ q. list_remove q idle.timeout_src) v.running ∙ ground arith in
    rw (on, known) (ap (λ q. record idle { timers = q; timeout_src = 0 }) same)

begun-IsRunning : (idle : Idle) → idle.timeout ≢ 0 → idle.next_id ≢ 0 → IsRunning (begun idle)
unfolding begun
begun-IsRunning idle h k = record {
  enabled = h;
  numbered = k;
  later = ground (arith, k);
  rest = idle.timers;
  running = refl;
}

-- What a callback leaves: one timer more exactly after a signal
abbrev Keeps : ℕ → Idle → Idle → Type 0
Keeps more idle after = IsRunning after × (length after.timers ≡ length idle.timers + more)

one_left : (idle : Idle) (v : IsRunning idle) → length v.rest + 1 ≡ length idle.timers
one_left idle v =
    let same : length idle.timers ≡ length (idle.timeout_src ∷ v.rest) = ap length v.running in
    omega (arith, same)

restarted :
    (idle : Idle) → IsRunning idle → Keeps 0 idle (start_idle_timeout (kill_idle_timeout idle))
unfolding begun
restarted idle v =
    rw (kill_rest idle v, start_begun (record idle { timers = v.rest; timeout_src = 0 }) v.enabled)
      (
        begun-IsRunning (record idle { timers = v.rest; timeout_src = 0 }) v.enabled v.later,
        omega (arith, one_left idle v),
      )

touch-Keeps :
    (callback : Callback) (idle : Idle)
    → IsRunning idle
    → Keeps (signals_in (callback ∷ [])) idle (touch callback idle)
unfolding touch begun
touch-Keeps on_socket idle v = restarted idle v
touch-Keeps on_inotify idle v = restarted idle v
touch-Keeps on_signal idle v =
    rw (start_begun idle v.enabled) (begun-IsRunning idle v.enabled v.later, omega arith)

signals-cons :
    (callback : Callback) (callbacks : List Callback)
    → signals_in (callback ∷ callbacks) ≡ signals_in (callback ∷ []) + signals_in callbacks
signals-cons on_socket callbacks = omega arith
signals-cons on_inotify callbacks = omega arith
signals-cons on_signal callbacks = omega arith

-- Each signal leaves one more timer behind that nothing removes: after any callbacks there run as many
-- timers as before and one for each signal.
touches-timers :
    (callbacks : List Callback) (idle : Idle)
    → IsRunning idle
    → length (touches callbacks idle).timers ≡ length idle.timers + signals_in callbacks
unfolding touches
touches-timers [] idle v = omega arith
touches-timers (callback ∷ callbacks) idle v =
    let k = touch-Keeps callback idle v in
    omega (
      arith,
      touches-timers callbacks (touch callback idle) k.0,
      k.1,
      signals-cons callback callbacks,
    )
