-- ===== src/Examples/Startup.antt =====
-- The start of the operator, with libraries whose calls all succeed.
use automq_operator.Base.{ℕ, true, none, [], ◌∷◌, ◌≡◌, ◌≢◌, refl, In}
use automq_operator.Base.Int.{pos}
use automq_operator.Kube.Objects.{Dict, lookup, put}
use automq_operator.Startup.{
  Libraries, ManagerOptions, default_flags, getenv, settle, program, new_manager, exited,
}
use automq_operator.Startup.Start.{run, started, start_calls, started_after, default_namespace_late}

abbrev libraries : Libraries ℕ
libraries = record {
  answer = λ before c. none;
  manager = record { client = 1; scheme = 2; event_recorder_for = λ name. 3 };
  concurrent = pos 1;
  rate_limiter = 4;
}

abbrev env : Dict
env = ("OPERATOR_APIS_IP", "10.0.0.1") ∷ ("ENABLE_WEBHOOKS", "false") ∷ []

starts : started (run libraries default_flags env).1.calls ≡ true
unfolding program settle lookup put
starts = refl

no_address : (run libraries default_flags []).0 ≡ exited 1
unfolding program settle lookup put
no_address = refl

started_after_example :
    (getenv "OPERATOR_APIS_IP" env ≢ "")
    × ((run libraries default_flags env).1.calls ≡ start_calls libraries default_flags env)
started_after_example = started_after libraries default_flags env starts

unset : getenv "NAMESPACE_NAME" env ≡ ""
unfolding lookup
unset = refl

default_namespace_late_example :
    (getenv "NAMESPACE_NAME" (run libraries default_flags env).1.env ≡ "default")
    × ((o : ManagerOptions) × In (new_manager o) (run libraries default_flags env).1.calls
        × (o.leader_election_namespace ≡ ""))
default_namespace_late_example = default_namespace_late libraries default_flags env unset starts
