-- ===== src/Startup/Start.antt =====
-- When the operator's manager is started.
use automq_operator.Base.{
  String, Bool, true, false, Option, none, some, List, [], ◌∷◌, ◌++◌, ◌||◌, ◌==◌, ◌≡◌, ◌≢◌, refl,
  ap, sym, ◌∙◌, subst, if◌then◌else◌, arith, Bool-cases, inl, inr, eq_iff, In, In-append_right,
}
use mathlib.Core.Bool.{false≢true}
use automq_operator.Kube.Objects.{Dict, Err, lookup, put}
use automq_operator.Startup.{
  Flags, ManagerOptions, Call, add_to_scheme, get_config, new_manager, complete_controller,
  complete_webhook, serve_apis, add_healthz_check, add_readyz_check, start, Libraries, Program,
  Exit, getenv, manager_options, new_setup, filled, controller_options, settle, start_manager,
  default_namespace, check_env, register_webhook, setup_with_manager, run_manager, program,
}

abbrev pub is_start : {Ref : Type 0} → Call Ref → Bool
is_start start = true
is_start _ = false

-- Whether the manager was started.
abbrev pub started : {Ref : Type 0} → List (Call Ref) → Bool
started [] = false
started (c ∷ cs) = is_start c || started cs

-- The webhook's registration, if it is not switched off.
abbrev pub webhook_calls : {Ref : Type 0} → Dict → List (Call Ref)
webhook_calls env = if getenv "ENABLE_WEBHOOKS" env == "false" then [] else complete_webhook ∷ []

lookup-put : (name value : String) (env : Dict) → lookup name (put name value env) ≡ some value
unfolding lookup put
lookup-put name value [] = ground (arith, eq_iff name name)
lookup-put name value ((j, v) ∷ env) =
    ground (arith, eq_iff name name, eq_iff j name, lookup-put name value env)

getenv-put : (name value : String) (env : Dict) → getenv name (put name value env) ≡ value
getenv-put name value env = rw (lookup-put name value env, getenv) refl

module _ {Ref : Type 0} (libs : Libraries Ref) where
  abbrev before_controller : Flags → Dict → List (Call Ref)
  before_controller flags env =
      new_manager (manager_options flags env)
      ∷ get_config
      ∷ add_to_scheme "promv1"
      ∷ add_to_scheme "infrav1beta1"
      ∷ add_to_scheme "clientgoscheme"
      ∷ []

  -- All calls of a program that starts the manager, the last one first.
  abbrev pub start_calls : Flags → Dict → List (Call Ref)
  start_calls flags env =
      start
      ∷ add_readyz_check "readyz"
      ∷ add_healthz_check "healthz"
      ∷ serve_apis
      ∷ (webhook_calls env
          ++ complete_controller (filled libs (new_setup flags)) (controller_options libs)
            ∷ before_controller flags env)

  -- If the manager was started, then `P` holds of how the program was left.
  data Ensures (P : Program Ref → Type 0) (r : Exit × Program Ref) : Type 0 where
    ensures : (started r.1.calls ≡ true → P r.1) → Ensures P r

  ensured :
      {P : Program Ref → Type 0} {r : Exit × Program Ref}
      → Ensures P r
      → started r.1.calls ≡ true
      → P r.1
  ensured (ensures f) = f

  not_started :
      {P : Program Ref → Type 0} {r : Exit × Program Ref} → started r.1.calls ≡ false → Ensures P r
  not_started quiet = ensures (λ h. absurd (false≢true (sym quiet ∙ h)))

  settle-Ensures :
      {P : Program Ref → Type 0} (failure : Exit) (o : Option Err) (p : Program Ref)
      (next : Program Ref → Exit × Program Ref)
      → started p.calls ≡ false
      → Ensures P (next p)
      → Ensures P (settle failure o p next)
  unfolding settle
  settle-Ensures failure (some e) p next quiet h = not_started quiet
  settle-Ensures failure none p next quiet h = h

  settle_last :
      {P : Program Ref → Type 0} (failure end : Exit) (o : Option Err) (p : Program Ref)
      → P p
      → Ensures P (settle failure o p (λ p. (end, p)))
  unfolding settle
  settle_last failure end (some e) p h = ensures (λ _. h)
  settle_last failure end none p h = ensures (λ _. h)

  -- The program as it is left after the checks of the environment.
  abbrev pub checked : Dict → List (Call Ref) → Program Ref
  checked env cs = record {
    env = default_namespace libs env;
    calls = start ∷ add_readyz_check "readyz" ∷ add_healthz_check "healthz" ∷ serve_apis ∷ cs;
  }

  -- What holds after a start in the environment `env`, with the calls `cs` before its checks.
  abbrev Ends : Dict → List (Call Ref) → Program Ref → Type 0
  Ends env cs q = (getenv "OPERATOR_APIS_IP" env ≢ "") × (q ≡ checked env cs)

  check_env-Ensures :
      (env : Dict) (cs : List (Call Ref))
      → started cs ≡ false
      → Ensures (Ends env cs) (check_env libs (record { env = env; calls = cs }))
  unfolding check_env start_manager
  check_env-Ensures env cs quiet = elim (Bool-cases (getenv "OPERATOR_APIS_IP" env == "")) [
    | inl e ↦ rw e (not_started quiet)
    | inr e ↦ rw e (
        settle-Ensures _ _ _ _ quiet (
          settle-Ensures _ _ _ _ quiet
            (settle_last _ _ _ _ (λ same. false≢true (sym e ∙ (eq_iff _ "").1 same), refl))))
  ]

  register_webhook-Ensures :
      (env : Dict) (cs : List (Call Ref))
      → started cs ≡ false
      → Ensures
          (Ends env (webhook_calls env ++ cs))
          (register_webhook libs (record { env = env; calls = cs }))
  unfolding register_webhook
  register_webhook-Ensures env cs quiet =
      elim (Bool-cases (getenv "ENABLE_WEBHOOKS" env == "false")) [
        | inl e ↦ rw e (check_env-Ensures env cs quiet)
        | inr e ↦
            rw e
              (settle-Ensures _ _ _ _ quiet (check_env-Ensures env (complete_webhook ∷ cs) quiet))
      ]

  abbrev pub run : Flags → Dict → Exit × Program Ref
  run flags env = program libs flags (record { env = env; calls = [] })

  started_Ends :
      (flags : Flags) (env : Dict)
      → started (run flags env).1.calls ≡ true
      → (getenv "OPERATOR_APIS_IP" env ≢ "")
        × ((run flags env).1
            ≡ record { env = default_namespace libs env; calls = start_calls flags env })
  unfolding program run_manager setup_with_manager
  started_Ends flags env = ensured (
      settle-Ensures _ _ _ _ refl (
        settle-Ensures _ _ _ _ refl (
          settle-Ensures _ _ _ _ refl (
            settle-Ensures _ _ _ _ refl (
              settle-Ensures _ _ _ _ refl
                (settle-Ensures _ _ _ _ refl (register_webhook-Ensures env _ refl)))))))

  -- If the program, run with the environment `env`, starts the manager, then the variable
  -- OPERATOR_APIS_IP is set, and the calls before are those to add the schemes, load the configuration,
  -- make the manager, complete the controller with the client, scheme and recorder of the manager,
  -- complete the webhook unless ENABLE_WEBHOOKS is "false", serve the node API and add the health
  -- checks, in this order and each once.
  pub started_after :
      (flags : Flags) (env : Dict)
      → started (run flags env).1.calls ≡ true
      → (getenv "OPERATOR_APIS_IP" env ≢ "") × ((run flags env).1.calls ≡ start_calls flags env)
  started_after flags env h =
      let (apis, same) = started_Ends flags env h in (apis, ap (λ (q : Program Ref). q.calls) same)

  In-manager :
      (flags : Flags) (env : Dict)
      → In (new_manager (manager_options flags env)) (start_calls flags env)
  In-manager flags env =
      inr (inr (inr (inr (In-append_right _ (webhook_calls env) _ (inr (inl refl))))))

  -- If NAMESPACE_NAME is not set or empty when the program starts the manager, then it is "default" in
  -- the end, but the manager was made before, with an empty namespace for the leader election.
  pub default_namespace_late :
      (flags : Flags) (env : Dict)
      → getenv "NAMESPACE_NAME" env ≡ ""
      → started (run flags env).1.calls ≡ true
      → (getenv "NAMESPACE_NAME" (run flags env).1.env ≡ "default")
        × ((o : ManagerOptions) × In (new_manager o) (run flags env).1.calls
            × (o.leader_election_namespace ≡ ""))
  default_namespace_late flags env unset h =
      let (apis, same) = started_Ends flags env h in
      (
        ap (λ (q : Program Ref). getenv "NAMESPACE_NAME" q.env) same
            ∙ rw unset (getenv-put "NAMESPACE_NAME" "default" env),
        (
          manager_options flags env,
          subst (λ (q : Program Ref). In (new_manager (manager_options flags env)) q.calls)
              (sym same) (In-manager flags env),
          unset,
        ),
      )
