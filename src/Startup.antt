-- ===== src/Startup.antt =====
-- cmd/main.go, and what it calls of the operator's own code: `SetupWithManager` of the reconciler
-- (internal/controller/automq_controller.go) and of the webhook (api/v1beta1/automq_webhook.go).
-- The manager, its builders, the schemes and the health checks are the libraries'.
pub mod Start
use automq_operator.Base.{
  ℕ, String, Bool, true, false, Option, none, some, List, [], ◌∷◌, ◌==◌, if◌then◌else◌,
}
use automq_operator.Base.Int.{ℤ}
use automq_operator.Kube.Objects.{Dict, put, lookup, Err}
use automq_operator.Controller.State.{Reconciler}

-- What `flag.Parse` sets.
pub record Flags : Type 0 where
  pub metrics_addr : String
  pub mount_tz : Bool
  pub probe_addr : String
  pub enable_leader_election : Bool

abbrev pub default_flags : Flags
default_flags = record {
  metrics_addr = ":8080";
  mount_tz = false;
  probe_addr = ":8081";
  enable_leader_election = false;
}

-- `ctrl.Options`, without the scheme, which is the program's only one.
pub record ManagerOptions : Type 0 where
  pub metrics_bind_address : String
  pub health_probe_bind_address : String
  pub leader_election : Bool
  pub leader_election_id : String
  pub leader_election_namespace : String

-- A `Ref` is a reference to an object of the libraries.
pub record Manager (Ref : Type 0) : Type 0 where
  pub client : Ref
  pub scheme : Ref
  pub event_recorder_for : String → Ref

-- `AutoMQReconciler`, with the fields that the start of the program fills in; `none` is nil.
pub record Setup (Ref : Type 0) : Type 0 where
  pub client : Option Ref
  pub scheme : Option Ref
  pub recorder : Option Ref
  pub reconciler : Reconciler

-- `controllerlib.Options`
pub record ControllerOptions (Ref : Type 0) : Type 0 where
  pub max_concurrent_reconciles : ℤ
  pub rate_limiter : Ref

-- The calls of the libraries. A controller is completed for the kind AutoMQ, with the predicate that
-- the generation has changed. `serve_apis` is the goroutine that waits for the manager's cache and
-- then calls `APIRegistry`.
pub data Call (Ref : Type 0) : Type 0 where
  add_to_scheme : (scheme : String) → Call Ref
  get_config : Call Ref
  new_manager : ManagerOptions → Call Ref
  complete_controller : Setup Ref → ControllerOptions Ref → Call Ref
  complete_webhook : Call Ref
  serve_apis : Call Ref
  add_healthz_check add_readyz_check : (name : String) → Call Ref
  start : Call Ref

-- How the calls come out, by the calls before; what `NewManager` returns; and what
-- `controller.GetConcurrent` and `GetRateLimiter` make of the flags.
pub record Libraries (Ref : Type 0) : Type 0 where
  pub answer : List (Call Ref) → Call Ref → Option Err
  pub manager : Manager Ref
  pub concurrent : ℤ
  pub rate_limiter : Ref

-- The environment of the process, and the calls that were made, the last one first.
pub record Program (Ref : Type 0) : Type 0 where
  pub env : Dict
  pub calls : List (Call Ref)

pub data Exit : Type 0 where
  exited : (status : ℕ) → Exit
  panicked : Exit

-- `os.Getenv`
abbrev pub getenv : String → Dict → String
getenv name env = elim (lookup name env) [ none ↦ "" | some value ↦ value ]

abbrev pub manager_options : Flags → Dict → ManagerOptions
manager_options flags env = record {
  metrics_bind_address = flags.metrics_addr;
  health_probe_bind_address = flags.probe_addr;
  leader_election = flags.enable_leader_election;
  leader_election_id = "97e298dd.cuisongliu.github.com";
  leader_election_namespace = getenv "NAMESPACE_NAME" env;
}

abbrev pub new_setup : {Ref : Type 0} → Flags → Setup Ref
new_setup flags = record {
  client = none;
  scheme = none;
  recorder = none;
  reconciler = record {
    finalizer = "apps.cuisongliu.com/automq.finalizer";
    mount_tz = flags.mount_tz;
  };
}

abbrev or_ref : {Ref : Type 0} → Option Ref → Ref → Option Ref
or_ref none ref = some ref
or_ref (some own) ref = some own

-- `if err != nil { fail }`, then the rest.
unfoldable pub settle :
    {Ref : Type 0}
    → Exit
    → Option Err
    → Program Ref
    → (Program Ref → Exit × Program Ref)
    → Exit × Program Ref
settle failure (some e) p next = (failure, p)
settle failure none p next = next p

module _ {Ref : Type 0} (libs : Libraries Ref) where
  -- The reconciler after the first part of `SetupWithManager`.
  abbrev pub filled : Setup Ref → Setup Ref
  filled r = record r {
    client = or_ref r.client libs.manager.client;
    scheme = some libs.manager.scheme;
    recorder = or_ref r.recorder (libs.manager.event_recorder_for "automq-controller");
  }

  abbrev pub controller_options : ControllerOptions Ref
  controller_options = record {
    max_concurrent_reconciles = libs.concurrent;
    rate_limiter = libs.rate_limiter;
  }

  abbrev called : Call Ref → Program Ref → Program Ref
  called c p = record p { calls = c ∷ p.calls }

  -- An error ends the program with status 1.
  abbrev or_exit : Call Ref → (Program Ref → Exit × Program Ref) → Program Ref → Exit × Program Ref
  or_exit c next p = settle (exited 1) (libs.answer p.calls c) (called c p) next

  -- `utilruntime.Must`
  abbrev must : Call Ref → (Program Ref → Exit × Program Ref) → Program Ref → Exit × Program Ref
  must c next p = settle panicked (libs.answer p.calls c) (called c p) next

  start_manager : Program Ref → Exit × Program Ref
  start_manager =
      or_exit (add_healthz_check "healthz")
        (or_exit (add_readyz_check "readyz") (or_exit start (λ p. (exited 0, p))))

  abbrev pub default_namespace : Dict → Dict
  default_namespace env =
      if getenv "NAMESPACE_NAME" env == "" then put "NAMESPACE_NAME" "default" env else env

  -- The checks of the environment, and the goroutine.
  check_env : Program Ref → Exit × Program Ref
  unfolding start_manager
  check_env p =
      if getenv "OPERATOR_APIS_IP" p.env == ""
      then (exited 1, p)
      else start_manager (called serve_apis (record p { env = default_namespace p.env }))

  register_webhook : Program Ref → Exit × Program Ref
  unfolding check_env
  register_webhook p =
      if getenv "ENABLE_WEBHOOKS" p.env == "false"
      then check_env p
      else or_exit complete_webhook check_env p

  -- `SetupWithManager` of the reconciler, and what follows.
  setup_with_manager : Setup Ref → Program Ref → Exit × Program Ref
  unfolding register_webhook
  setup_with_manager r =
      or_exit (complete_controller (filled r) controller_options) register_webhook

  run_manager : Flags → Program Ref → Exit × Program Ref
  unfolding setup_with_manager
  run_manager flags = or_exit get_config (λ p.
      or_exit (new_manager (manager_options flags p.env)) (setup_with_manager (new_setup flags)) p)

  -- `init`, then `main`.
  unfoldable pub program : Flags → Program Ref → Exit × Program Ref
  unfolding run_manager
  program flags =
      must (add_to_scheme "clientgoscheme")
        (must (add_to_scheme "infrav1beta1") (must (add_to_scheme "promv1") (run_manager flags)))
