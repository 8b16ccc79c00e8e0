-- ===== src/Platform/Threads.antt =====
-- Thread of native/platform/Platform.cpp on POSIX and on Windows. What the system answers is an
-- argument. `live` holds the handles of the threads that were created and not yet joined, and
-- `attributes` counts the thread attributes that were initialised and not yet destroyed.
pub mod Owned
use ffl_p2p.Prelude.{
  ℕ, ◌+◌, ◌-◌, Bool, true, false, not, Option, none, some, List, [], ◌∷◌, String, ltb, ◌==◌,
  if◌then◌else◌, Result, ok, err,
}

pub record System : Type 0 where
  pub live : List ℕ
  pub attributes : ℕ

pub record Thread : Type 0 where
  pub handle : ℕ
  pub joinable : Bool
  pub stack_size : ℕ

abbrev pub new_thread : Thread
new_thread = record { handle = 0; joinable = false; stack_size = 0 }

-- A text, or a text that ends with the system's code.
pub data ThreadError : Type 0 where
  invalid_argument : String → ThreadError
  runtime_error : String → ThreadError
  failed : String → ℕ → ThreadError

abbrev pub Outcome : Type 0
Outcome = System × Thread × Result ThreadError (Unit {0})

-- The results of pthread_attr_init, pthread_attr_setstacksize and pthread_create, where 0 is success,
-- and the thread that is created.
pub record PosixReply : Type 0 where
  pub attr_init : ℕ
  pub set_stack : ℕ
  pub create : ℕ
  pub created : ℕ

abbrev pub init_attributes : System → System
init_attributes s = record s { attributes = s.attributes + 1 }

abbrev pub destroy_attributes : System → System
destroy_attributes s = record s { attributes = s.attributes - 1 }

abbrev pub add_live : ℕ → System → System
add_live handle s = record s { live = handle ∷ s.live }

abbrev pub removed : ℕ → List ℕ → List ℕ
removed handle [] = []
removed handle (h ∷ hs) = if h == handle then hs else h ∷ removed handle hs

abbrev pub remove_live : ℕ → System → System
remove_live handle s = record s { live = removed handle s.live }

abbrev pub create_posix : ℕ → PosixReply → Thread → System → Outcome
create_posix stack_size r t s =
    if not (r.create == 0)
    then (destroy_attributes s, t, err (failed "pthread_create failed: " r.create))
    else (
      destroy_attributes (add_live r.created s),
      record { handle = r.created; joinable = true; stack_size = stack_size },
      ok tt,
    )

abbrev pub sized_posix : ℕ → PosixReply → Thread → System → Outcome
sized_posix stack_size r t s =
    if stack_size == 0
    then create_posix stack_size r t s
    else if not (r.set_stack == 0)
    then (destroy_attributes s, t, err (failed "pthread_attr_setstacksize failed: " r.set_stack))
    else create_posix stack_size r t s

abbrev pub begin_posix : ℕ → PosixReply → Thread → System → Outcome
begin_posix stack_size r t s =
    if not (r.attr_init == 0)
    then (s, t, err (failed "pthread_attr_init failed: " r.attr_init))
    else sized_posix stack_size r t (init_attributes s)

-- `start`: the checks that both systems share, and what follows them.
abbrev pub checked : Bool → Thread → System → Outcome → Outcome
checked callable t s begun =
    if not callable
    then (s, t, err (invalid_argument "thread function must be callable"))
    else if t.joinable
    then (s, t, err (runtime_error "thread is already running"))
    else begun

unfoldable pub start_posix : Bool → ℕ → PosixReply → Thread → System → Outcome
start_posix callable stack_size r t s = checked callable t s (begin_posix stack_size r t s)

-- `limit` is the largest `unsigned`; _beginthreadex gives a handle, or the code in `errno`.
abbrev pub begin_windows : ℕ → Result ℕ ℕ → Thread → System → Outcome
begin_windows stack_size (ok handle) t s =
    (add_live handle s, record { handle = handle; joinable = true; stack_size = stack_size }, ok tt)
begin_windows stack_size (err code) t s =
    (s, t, err (failed "unable to create thread: errno=" code))

unfoldable pub start_windows : ℕ → Bool → ℕ → Result ℕ ℕ → Thread → System → Outcome
start_windows limit callable stack_size r t s = checked callable t s (
    if ltb limit stack_size
    then (s, t, err (invalid_argument "thread stack size exceeds Windows limit"))
    else begin_windows stack_size r t s)

-- `join` on POSIX, with the result of pthread_join.
unfoldable pub join_posix : ℕ → Thread → System → Outcome
join_posix result t s =
    if not t.joinable
    then (s, t, ok tt)
    else if not (result == 0)
    then (s, t, err (failed "pthread_join failed: " result))
    else (remove_live t.handle s, record t { joinable = false }, ok tt)

-- `join` on Windows: WaitForSingleObject and CloseHandle with the code of their failure. A handle is
-- live until it is closed.
abbrev pub close_windows : Option ℕ → Thread → System → Outcome
close_windows none t s = (remove_live t.handle s, record t { joinable = false }, ok tt)
close_windows (some code) t s = (s, t, err (failed "unable to close thread handle: " code))

abbrev pub wait_windows : Option ℕ → Option ℕ → Thread → System → Outcome
wait_windows none closed t s = close_windows closed t s
wait_windows (some code) closed t s = (s, t, err (failed "unable to join thread: " code))

unfoldable pub join_windows : Option ℕ × Option ℕ → Thread → System → Outcome
join_windows (waited, closed) t s =
    if not t.joinable then (s, t, ok tt) else wait_windows waited closed t s

-- `~Thread`: `none` is std::terminate.
abbrev pub survives : Outcome → Option System
survives (s, t, ok u) = some s
survives (s, t, err e) = none

unfoldable pub destroy_thread : (Thread → System → Outcome) → Thread → System → Option System
destroy_thread join t s = if not t.joinable then some s else survives (join t s)
