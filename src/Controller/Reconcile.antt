-- ===== src/Controller/Reconcile.antt =====
-- internal/controller/automq_controller.go: `cleanup` and `Reconcile`.
pub mod Cleanup
pub mod Tickers
pub mod Requests
pub mod Deletion
use automq_operator.Base.{
  ℕ, String, Bool, true, false, not, Option, none, some, List, ◌∷◌, nat_eq, ◌&&◌, ◌||◌,
  if◌then◌else◌,
}
use automq_operator.Kube.Objects.{
  Key, key_of, config_map, Err, is_not_found, new_err, ignore_not_found, Result, ok, err,
}
use automq_operator.Kube.Env.{Env}
use automq_operator.Api.Types.{AutoMq}
use automq_operator.Controller.State.{Reconciler, Context, Outcome, done, panicked}
use automq_operator.Controller.Brokers.{clean_broker}
use automq_operator.Controller.Controllers.{clean_controller}
use automq_operator.Controller.Pipeline.{reconcile}

-- The world, and the goroutines that were started to update the status, by their objects' keys. The
-- rounds of their loop are in Controller/Runs.
pub record Process (W : Type 0) : Type 0 where
  pub world : W
  pub tickers : List Key

-- `IsZero` of a time that may be nil.
abbrev pub is_zero : Option ℕ → Bool
is_zero none = true
is_zero (some t) = nat_eq t 0

abbrev is_nil : Option ℕ → Bool
is_nil none = true
is_nil (some t) = false

-- `if err != nil { if !apierrors.IsNotFound(err) { return err } }`, then the rest.
abbrev unless_failed : {W : Type 0} → Option Err × W → (W → Option Err × W) → Option Err × W
unless_failed (none, w) rest = rest w
unless_failed (some e, w) rest = if is_not_found e then rest w else (some e, w)

module _ {W : Type 0} (env : Env W) where
  unfoldable pub cleanup : AutoMq → W → Option Err × W
  cleanup automq w = unless_failed (clean_broker env automq w) (λ w.
      unless_failed (clean_controller env automq w)
        (λ w. unless_failed (env.delete config_map (key_of automq.metadata) w) (λ w. (none, w))))

  abbrev with_finalizers : List String → AutoMq → AutoMq
  with_finalizers l obj = record obj { metadata = record obj.metadata { finalizers = l } }

  -- `RetryOnConflict` around `r.Update(ctx, autoMQ)`: the object in memory becomes the server's.
  pub update : AutoMq → W → Option Err × (AutoMq × W)
  update automq w = env.retry_on_conflict (AutoMq × W) env.update_auto_mq (automq, w)

  remove_finalizer : Reconciler → AutoMq → Process W → Option Err × W → Option Err × Process W
  unfolding update
  remove_finalizer r automq p (some e, w) = (some e, record p { world = w })
  remove_finalizer r automq p (none, w) =
      let l = automq.metadata.finalizers in
      let l' =
        if env.contains_finalizer l r.finalizer then env.remove_finalizer l r.finalizer else l in
      let (e, (_, w')) = update (with_finalizers l' automq) w in (e, record p { world = w' })

  finished : Process W → Outcome (Option Err × W) → Outcome (Option Err × Process W)
  finished p panicked = panicked
  finished p (done (e, w)) = done (e, record p { world = w })

  after_update :
      Reconciler
      → Context
      → Process W
      → Option Err × (AutoMq × W)
      → Outcome (Option Err × Process W)
  unfolding finished
  after_update r ctx p (some e, (automq, w)) = done (some e, record p { world = w })
  after_update r ctx p (none, (automq, w)) = finished p (reconcile env r ctx automq w)

  add_finalizer : Reconciler → Context → AutoMq → Process W → Outcome (Option Err × Process W)
  unfolding after_update update
  add_finalizer r ctx automq p =
      let l = env.add_finalizer automq.metadata.finalizers r.finalizer in
      after_update r ctx p (update (with_finalizers l automq) p.world)

  fetched :
      Reconciler → Context → Key → Process W → Result AutoMq → Outcome (Option Err × Process W)
  unfolding remove_finalizer add_finalizer
  fetched r ctx key p (err e) = done (ignore_not_found e, p)
  fetched r ctx key p (ok automq) =
      let time = automq.metadata.deletion_timestamp in
      let p' = record p { tickers = key_of automq.metadata ∷ p.tickers } in
      if not (is_nil time) && not (is_zero time)
      then done (remove_finalizer r automq p (cleanup automq p.world))
      else if is_zero time || is_nil time
      then add_finalizer r ctx automq p'
      else done (some (new_err "reconcile error from Finalizer"), p')

  unfoldable pub reconcile_request :
      Reconciler → Context → Key → Process W → Outcome (Option Err × Process W)
  unfolding fetched
  reconcile_request r ctx key p =
      let (got, w') = env.get_auto_mq key p.world in fetched r ctx key (record p { world = w' }) got
