-- ===== src/Programs/Runtime/Defs.antt =====
-- apps/runtime_main.cpp: `main` and the constructor of runtime.cpp. The sockets are made by the
-- system's calls; `Runtime::run` runs as its threads interleave, so that what `main` comes to is a
-- relation.
use driveflow_runtime.Prelude.{
  ℕ, ◌≡◌, Bool, true, false, Option, none, some, List, [], ◌∷◌, ◌++◌, drop, map, if◌then◌else◌,
}
use driveflow_runtime.Prelude.Parsed
use driveflow_runtime.Prelude.Result.{Result, ok, throws, Exception}
use driveflow_runtime.Net.{Text, Ipv4Endpoint, ReceivedDatagram, text_eq}
use driveflow_runtime.Net.Socket.{System, Call, after}
use driveflow_runtime.Runtime.Samples.{SensorSample}
use driveflow_runtime.Runtime.Pipeline.Create.{Threads}
use driveflow_runtime.Runtime.Pipeline.Drain.{AllReturned}
use driveflow_runtime.Runtime.Receiver.{EpollReceiver}
use driveflow_runtime.Runtime.Receiver.Create.{Created, Listener, create_receiver}
use driveflow_runtime.Runtime.Config.{RuntimeConfig, ParseRuntimeConfigResult, parse_runtime_config}
use driveflow_runtime.Runtime.Loop.{validate_config}
use driveflow_runtime.Runtime.Loop.State.{
  RuntimeState, RuntimeSummary, start_state, joining, unwinding,
}
use driveflow_runtime.Runtime.Loop.Steps.{Run, summarize}
use driveflow_runtime.Runtime.Loop.Started.{StartsFrom}
use driveflow_runtime.Programs.Output.{Piece, literal, characters, what, print_endpoint}
use driveflow_runtime.Programs.Runtime.Report.{
  Printed, pieces, runtime_usage, print_summary, print_sources,
}

pub record RuntimeExit : Type 0 where
  pub status : ℕ
  pub out : List Printed
  pub err : List Piece

-- The head of `main`: it returns, or goes on with a configuration.
pub data Head : Type 0 where
  exits : RuntimeExit → Head
  runs : RuntimeConfig → Head

-- `argc == 2 && argv[1] == "--help"`
unfoldable pub is_help : List Text → Bool
is_help [] = false
is_help (program ∷ []) = false
is_help (program ∷ argument ∷ []) = text_eq argument (Parsed.text "--help")
is_help (program ∷ argument ∷ more ∷ rest) = false

abbrev shown_help : RuntimeExit
shown_help = record { status = 0; out = pieces (literal runtime_usage ∷ []); err = [] }

abbrev refused : Text → RuntimeExit
refused error = record {
  status = 1;
  out = [];
  err =
      literal "configuration error: "
      ∷ characters error
      ∷ literal "\n"
      ∷ literal runtime_usage
      ∷ [];
}

abbrev unsignalled : RuntimeExit
unsignalled = record {
  status = 2;
  out = [];
  err = literal "failed to install signal handlers\n" ∷ [];
}

-- `installed` is whether std::signal took both handlers.
unfoldable pub after_parse : Bool → ParseRuntimeConfigResult → Head
after_parse installed parsed = elim parsed.config [
  | none ↦ exits (refused parsed.error)
  | some config ↦ if installed then runs config else exits unsignalled
]

unfoldable pub main_head : (Text → Bool) → Bool → List Text → Head
unfolding is_help after_parse
main_head is_ipv4_address installed argv =
    if is_help argv
    then exits shown_help
    else after_parse installed (parse_runtime_config is_ipv4_address (drop 1 argv))

-- The receiver that the constructor made, before any poll.
abbrev pub new_receiver : RuntimeConfig → Created → EpollReceiver
new_receiver config created = record {
  max_datagrams_per_listener_per_poll = config.receiver.max_datagrams_per_listener_per_poll;
  listeners = map (λ (l : Listener). l.local_endpoint) created.listeners;
  metrics = record {
    epoll_wakeups = 0;
    datagrams_received = 0;
    packets_accepted = 0;
    packets_rejected = 0;
  };
}

-- The constructor of `Runtime`.
unfoldable pub make_runtime : (system : System) → RuntimeConfig → Call system EpollReceiver
make_runtime system config s =
    after system (validate_config config, s)
      λ checked s1.
        after system (create_receiver system checked.receiver s1)
          λ created s2. (ok (new_receiver checked created), s2)

unfoldable pub print_listeners : List Ipv4Endpoint → List Piece
print_listeners [] = literal "runtime started; press Ctrl+C to stop\n" ∷ []
print_listeners (endpoint ∷ rest) =
    literal "listening on " ∷ print_endpoint endpoint (literal "\n" ∷ print_listeners rest)

-- The `catch` of `main`, where `printed` is what was printed before.
abbrev pub runtime_failed : List Piece → Exception → RuntimeExit
runtime_failed printed e = record {
  status = 3;
  out = pieces printed;
  err = literal "runtime failed: " ∷ literal (what e) ∷ literal "\n" ∷ [];
}

-- What follows `runtime.run`.
unfoldable pub main_end : List Ipv4Endpoint → Result RuntimeSummary → RuntimeExit
unfolding print_listeners
main_end listeners (throws e) = runtime_failed (print_listeners listeners) e
main_end listeners (ok summary) = record {
  status = 0;
  out =
      pieces (print_listeners listeners)
      ++ (print_summary summary ++ print_sources summary.source_health);
  err = [];
}

-- The handler of samples that `main` gives.
abbrev pub no_handler : SensorSample → Option Exception
no_handler sample = none

module _ (Kernel : Type 0) (receive : Kernel → ℕ → Kernel × Result (Option (ReceivedDatagram × ℕ)))
    (kernel : Kernel) where
  -- What `Runtime::run` may come to, with the handler of `main`, where `receiver` was made.
  pub data RunEnds (config : RuntimeConfig) (receiver : EpollReceiver)
      : Result RuntimeSummary → Type 0 where
    refused_start :
        (threads : Threads) (e : Exception)
        → start_state Kernel receive no_handler true true threads config receiver kernel ≡ throws e
        → RunEnds config receiver (throws e)
    unwound :
        (e : Exception) (st : RuntimeState Kernel receive no_handler)
        → (run : Run Kernel receive no_handler config st)
        → StartsFrom Kernel receive no_handler receiver kernel run
        → st.main ≡ unwinding e
        → AllReturned st.pipeline
        → RunEnds config receiver (throws e)
    returned :
        (st : RuntimeState Kernel receive no_handler) (now : ℕ)
        → (run : Run Kernel receive no_handler config st)
        → StartsFrom Kernel receive no_handler receiver kernel run
        → st.main ≡ joining
        → AllReturned st.pipeline
        → RunEnds config receiver (ok (summarize Kernel receive no_handler st now))

  -- What `main` may return, started with these arguments in the state `s` of the system.
  pub data MainEnds (system : System) (is_ipv4_address : Text → Bool) (installed : Bool)
      (argv : List Text) (s : system.State) : RuntimeExit → Type 0 where
    early :
        (exit : RuntimeExit)
        → main_head is_ipv4_address installed argv ≡ exits exit
        → MainEnds system is_ipv4_address installed argv s exit
    unmade :
        (config : RuntimeConfig) (e : Exception)
        → main_head is_ipv4_address installed argv ≡ runs config
        → (make_runtime system config s).0 ≡ throws e
        → MainEnds system is_ipv4_address installed argv s (runtime_failed [] e)
    ran :
        (config : RuntimeConfig) (receiver : EpollReceiver) (result : Result RuntimeSummary)
        → main_head is_ipv4_address installed argv ≡ runs config
        → (make_runtime system config s).0 ≡ ok receiver
        → RunEnds config receiver result
        → MainEnds system is_ipv4_address installed argv s (main_end receiver.listeners result)
