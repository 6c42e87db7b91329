-- ===== src/Profiling/Wait.antt =====
-- profile_wall.go: why a goroutine was not running when it was sampled.
use go_collector.Base.{
  Bool, true, false, not, ◌||◌, List, [], ◌∷◌, Option, none, some, if◌then◌else◌,
}
use go_collector.Base.Bytes.{Bytes, codes, has_prefix}
use go_collector.Profiling.Symbols.{ProfileFrame}

pub data WaitKind : Type 0 where
  running io lock chan accept sleep gc parked : WaitKind

abbrev pub label : WaitKind → Bytes
label io = codes "io"
label lock = codes "lock"
label chan = codes "chan"
label accept = codes "accept"
label sleep = codes "sleep"
label gc = codes "gc"
label parked = codes "parked"
label running = codes "running"

abbrev pub blocked : WaitKind → Bool
blocked running = false
blocked gc = false
blocked _ = true

abbrev pub idle : WaitKind → Bool
idle chan = true
idle accept = true
idle _ = false

abbrev pub any_prefix : List Bytes → Bytes → Bool
any_prefix [] function = false
any_prefix (p ∷ ps) function = has_prefix function p || any_prefix ps function

abbrev pub park_prefixes : List Bytes
park_prefixes =
    codes "runtime.gopark"
    ∷ codes "runtime.goparkunlock"
    ∷ codes "runtime.selectgo"
    ∷ codes "runtime.notetsleep"
    ∷ codes "runtime.semacquire"
    ∷ codes "runtime.chanrecv"
    ∷ codes "runtime.chansend"
    ∷ codes "runtime.block"
    ∷ []

abbrev pub accept_prefixes : List Bytes
accept_prefixes =
    codes "internal/poll.(*FD).Accept"
    ∷ codes "net.(*netFD).accept"
    ∷ codes "net.(*TCPListener).Accept"
    ∷ codes "net.(*TCPListener).accept"
    ∷ codes "net.(*UnixListener).accept"
    ∷ codes "net/http.(*Server).Serve"
    ∷ []

abbrev pub io_prefixes : List Bytes
io_prefixes =
    codes "internal/poll.runtime_pollWait"
    ∷ codes "internal/poll.(*FD)"
    ∷ codes "internal/poll.(*pollDesc)"
    ∷ codes "net.(*netFD)"
    ∷ codes "net.(*conn)"
    ∷ codes "os.(*File)"
    ∷ []

abbrev pub lock_prefixes : List Bytes
lock_prefixes =
    codes "sync.runtime_Semacquire"
    ∷ codes "sync.runtime_SemacquireMutex"
    ∷ codes "sync.runtime_SemacquireWaitGroup"
    ∷ codes "sync.runtime_notifyListWait"
    ∷ codes "sync.(*Mutex)"
    ∷ codes "sync.(*RWMutex)"
    ∷ codes "sync.(*WaitGroup)"
    ∷ codes "sync.(*Cond)"
    ∷ []

abbrev pub chan_prefixes : List Bytes
chan_prefixes = codes "runtime.chanrecv" ∷ codes "runtime.chansend" ∷ codes "runtime.selectgo" ∷ []

abbrev pub sleep_prefixes : List Bytes
sleep_prefixes = codes "time.Sleep" ∷ codes "runtime.timeSleep" ∷ []

abbrev pub gc_prefixes : List Bytes
gc_prefixes =
    codes "runtime.gcBgMarkWorker"
    ∷ codes "runtime.bgsweep"
    ∷ codes "runtime.bgscavenge"
    ∷ codes "runtime.forcegchelper"
    ∷ codes "runtime.runfinq"
    ∷ []

-- One round of the scan from the leaf.
unfoldable pub reason : Bytes → Option WaitKind
reason fn =
    if any_prefix io_prefixes fn
    then some io
    else if any_prefix lock_prefixes fn
    then some lock
    else if any_prefix chan_prefixes fn
    then some chan
    else if any_prefix sleep_prefixes fn
    then some sleep
    else if any_prefix gc_prefixes fn
    then some gc
    else none

unfoldable pub is_park_primitive : Bytes → Bool
is_park_primitive = any_prefix park_prefixes

unfoldable pub is_accept_stack : List ProfileFrame → Bool
is_accept_stack [] = false
is_accept_stack (f ∷ fs) = any_prefix accept_prefixes f.function || is_accept_stack fs

-- The frames are root-first, and the scan goes from the last one: the reason of a frame counts only
-- where no frame nearer to the leaf has one.
unfoldable pub scan : List ProfileFrame → Option WaitKind
scan [] = none
scan (f ∷ fs) = elim (scan fs) [ some kind ↦ some kind | none ↦ reason f.function ]

abbrev pub leaf_of : ProfileFrame → List ProfileFrame → ProfileFrame
leaf_of f [] = f
leaf_of f (g ∷ fs) = leaf_of g fs

abbrev pub or_parked : Option WaitKind → WaitKind
or_parked none = parked
or_parked (some kind) = kind

unfoldable pub classify_wait : List ProfileFrame → WaitKind
classify_wait [] = running
classify_wait (f ∷ fs) =
    if not (is_park_primitive (leaf_of f fs).function)
    then running
    else if is_accept_stack (f ∷ fs)
    then accept
    else or_parked (scan (f ∷ fs))
