-- ===== src/Controller/Reconcile/Tickers.antt =====
-- The tickers that the requests start.
use automq_operator.Base.{Option, none, some, ◌∷◌, ◌≡◌, refl, ap, sym, arith, ◌∙◌}
use automq_operator.Kube.Objects.{Key, key_of, Err, ok}
use automq_operator.Kube.Env.{Env}
use automq_operator.Api.Types.{AutoMq}
use automq_operator.Controller.State.{Reconciler, Context, Outcome, done, panicked}
use automq_operator.Controller.Reconcile.{
  Process, finished, after_update, add_finalizer, fetched, reconcile_request,
}

module _ {W : Type 0} (env : Env W) where
  finished-tickers :
      (p q : Process W) (o : Outcome (Option Err × W)) (e : Option Err)
      → finished env p o ≡ done (e, q)
      → q.tickers ≡ p.tickers
  unfolding finished
  finished-tickers p q panicked e h = ground arith
  finished-tickers p q (done (x, w)) e h = ground arith

  after_update-tickers :
      (r : Reconciler) (ctx : Context) (p q : Process W) (a : Option Err × (AutoMq × W))
      (e : Option Err)
      → after_update env r ctx p a ≡ done (e, q)
      → q.tickers ≡ p.tickers
  unfolding after_update
  after_update-tickers r ctx p q (some x, (mq, w)) e h = ground arith
  after_update-tickers r ctx p q (none, (mq, w)) e h = finished-tickers p q _ e h

  fetched-alive :
      (r : Reconciler) (ctx : Context) (key : Key) (p : Process W) (obj : AutoMq)
      → obj.metadata.deletion_timestamp ≡ none
      → fetched env r ctx key p (ok obj)
        ≡ add_finalizer env r ctx obj (record p { tickers = key_of obj.metadata ∷ p.tickers })
  unfolding fetched
  fetched-alive r ctx key p obj alive = rw alive refl

  -- A request for an object that is not being deleted starts one more ticker for it and stops none,
  -- unless it panics, however its update, its pipeline and its status update end.
  pub reconcile_request-tickers :
      (r : Reconciler) (ctx : Context) (key : Key) (p q : Process W) (obj : AutoMq) (w : W)
      (e : Option Err)
      → env.get_auto_mq key p.world ≡ (ok obj, w)
      → obj.metadata.deletion_timestamp ≡ none
      → reconcile_request env r ctx key p ≡ done (e, q)
      → q.tickers ≡ key_of obj.metadata ∷ p.tickers
  unfolding reconcile_request add_finalizer
  reconcile_request-tickers r ctx key p q obj w e got alive h =
      let p' = record p { world = w } in
      after_update-tickers r ctx (record p' { tickers = key_of obj.metadata ∷ p.tickers }) q _ e
        (sym (fetched-alive r ctx key p' obj alive)
          ∙ (sym (ap (λ x. fetched env r ctx key (record p { world = x.1 }) x.0) got) ∙ h))
