-- ===== src/Controller/Runs.antt =====
-- The life of the operator's process: requests, and ticks of the tickers that they started, one after
-- the other in any order. The goroutine that a request starts is the list entry of its object's key and
-- the rounds of its loop.
use automq_operator.Base.{Option, List, [], ◌∷◌, ◌≡◌, refl, sym, ◌∙◌, All, In, subst}
use automq_operator.Kube.Objects.{Kind, Key, Err, ok}
use automq_operator.Kube.Env.{Env}
use automq_operator.Kube.Laws.{Laws}
use automq_operator.Api.Types.{AutoMq}
use automq_operator.Controller.State.{Reconciler, Context, done, Ends-at}
use automq_operator.Controller.Reconcile.{Process, reconcile_request}
use automq_operator.Controller.Reconcile.Cleanup.{IsNamed}
use automq_operator.Controller.Reconcile.Requests.{reconcile_request-Mild}
use automq_operator.Controller.Status.{status_reconcile}
use automq_operator.Controller.Status.Frame.{status_reconcile-frame}

-- A round of the goroutine's loop: `case <-ticker.C`, the only case of the `select`, updates the status
-- and logs the error. Nothing leaves the loop.
unfoldable pub tick_round : {W : Type 0} → Env W → Key → W → W
tick_round env key w = (status_reconcile env key w).1

-- `Run env r ctx objs p q`: steps lead from `p` to `q`, and the requests were for `objs`, as the server
-- had them.
pub data Run {W : Type 0} (env : Env W) (r : Reconciler) (ctx : Context)
    : List AutoMq → Process W → Process W → Type 0 where
  rest : {p : Process W} → Run env r ctx [] p p
  request :
      {objs : List AutoMq} {p q s : Process W} (key : Key) (obj : AutoMq) (w : W) (e : Option Err)
      → env.get_auto_mq key p.world ≡ (ok obj, w)
      → reconcile_request env r ctx key p ≡ done (e, q)
      → Run env r ctx objs q s
      → Run env r ctx (obj ∷ objs) p s
  tick :
      {objs : List AutoMq} {p q s : Process W} (key : Key)
      → In key p.tickers
      → q ≡ record p { world = tick_round env key p.world }
      → Run env r ctx objs q s
      → Run env r ctx objs p s

module _ {W : Type 0} (env : Env W) (laws : Laws env) (r : Reconciler) (ctx : Context) where
  -- Whatever requests and ticks a process runs, an object under none of the names of the custom
  -- resources that were requested stays as it is.
  pub Run-frame :
      {objs : List AutoMq} {p q : Process W} (k : Kind) (key : Key)
      → Run env r ctx objs p q
      → All (λ obj. ¬ IsNamed obj key) objs
      → laws.at k key q.world ≡ laws.at k key p.world
  unfolding tick_round
  Run-frame k key rest apart = refl
  Run-frame k key (request {p} name obj w e got returned run) (apart, others) =
      Run-frame k key run others
      ∙ (Ends-at Unit (reconcile_request env r ctx name p) _ (e, _)
            (reconcile_request-Mild env laws r ctx name p obj w got) returned).0
          k key apart
  Run-frame k key (tick {p} name m e run) apart =
      Run-frame k key run apart
      ∙ subst (λ (x : Process W). laws.at k key x.world ≡ laws.at k key p.world) (sym e)
          (status_reconcile-frame env laws k key name p.world)
