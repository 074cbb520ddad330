-- ===== src/Controller/Reconcile/Requests.antt =====
-- What a request to `Reconcile` keeps.
use automq_operator.Base.{
  not, Option, none, some, ◌∷◌, ◌≡◌, refl, sym, ap, ◌∙◌, subst, inr, In, ◌&&◌, ◌||◌,
}
use automq_operator.Kube.Objects.{Kind, Key, key_of, Err, Result, ok}
use automq_operator.Kube.Env.{Env}
use automq_operator.Kube.Laws.{Laws}
use automq_operator.Kube.Retry.{retry-keeps}
use automq_operator.Api.Types.{AutoMq}
use automq_operator.Controller.State.{
  Reconciler, Context, Outcome, done, panicked, Ends, Ends-if, Ends-map,
}
use automq_operator.Controller.Pipeline.{reconcile}
use automq_operator.Controller.Pipeline.Total.{IsNamed-same, Spared, reconcile-Ends}
use automq_operator.Controller.Reconcile.{
  Process, is_nil, is_zero, cleanup, with_finalizers, update, remove_finalizer, finished,
  after_update, add_finalizer, fetched, reconcile_request,
}
use automq_operator.Controller.Reconcile.Cleanup.{cleanup-frame}

module _ {W : Type 0} (env : Env W) (laws : Laws env) where
  -- Only objects under the custom resource's names change, and no ticker ends.
  abbrev pub Mild : AutoMq → Process W → Process W → Type 0
  Mild obj p q =
      Spared env laws obj p.world q.world × ((key : Key) → In key p.tickers → In key q.tickers)

  pub update-frame :
      (obj : AutoMq) (w : W)
      → (key_of (update env obj w).1.0.metadata ≡ key_of obj.metadata)
        × ((k : Kind) (key : Key) → laws.at k key (update env obj w).1.1 ≡ laws.at k key w)
  unfolding update
  update-frame obj w =
      retry-keeps env laws
        (λ (s : AutoMq × W).
          (key_of s.0.metadata ≡ key_of obj.metadata)
          × ((k : Kind) (key : Key) → laws.at k key s.1 ≡ laws.at k key w))
        env.update_auto_mq (obj, w)
        (λ s h. (
          laws.update_auto_mq_key s.0 s.1 ∙ h.0,
          λ k key. laws.update_auto_mq_frame s.0 k key s.1 ∙ h.1 k key,
        ))
        (refl, λ k key. refl)

  remove_finalizer-Mild :
      (r : Reconciler) (obj : AutoMq) (p : Process W) (cleaned : Option Err × W)
      → Spared env laws obj p.world cleaned.1
      → Mild obj p (remove_finalizer env r obj p cleaned).1
  unfolding remove_finalizer
  remove_finalizer-Mild r obj p (some e, w) h = (h, λ key m. m)
  remove_finalizer-Mild r obj p (none, w) h =
      (λ k key apart. (update-frame _ w).1 k key ∙ h k key apart, λ key m. m)

  finished-Mild :
      (obj : AutoMq) (p : Process W) (w : W) (o : Outcome (Option Err × W))
      → Spared env laws obj p.world w
      → Ends Unit o (λ x. Spared env laws obj w x.1)
      → Ends Unit (finished env p o) (λ x. Mild obj p x.1)
  unfolding finished
  finished-Mild obj p w panicked before h = h
  finished-Mild obj p w (done (e, w')) before h =
      (λ k key apart. h k key apart ∙ before k key apart, λ key m. m)

  after_update-Mild :
      (r : Reconciler) (ctx : Context) (obj : AutoMq) (p : Process W)
      (x : Option Err × (AutoMq × W))
      → key_of x.1.0.metadata ≡ key_of obj.metadata
      → ((k : Kind) (key : Key) → laws.at k key x.1.1 ≡ laws.at k key p.world)
      → Ends Unit (after_update env r ctx p x) (λ y. Mild obj p y.1)
  unfolding after_update
  after_update-Mild r ctx obj p (some e, (mq, w)) named same =
      (λ k key apart. same k key, λ key m. m)
  after_update-Mild r ctx obj p (none, (mq, w)) named same =
      finished-Mild obj p w (reconcile env r ctx mq w) (λ k key apart. same k key)
        (Ends-map Unit (reconcile env r ctx mq w) (λ x. Spared env laws mq w x.1)
          (λ x. Spared env laws obj w x.1)
          (λ x spared k key apart. spared k key (λ own. apart (IsNamed-same mq obj key named own)))
          (reconcile-Ends env laws Unit r ctx mq w (inr tt)))

  add_finalizer-Mild :
      (r : Reconciler) (ctx : Context) (obj : AutoMq) (p : Process W)
      → Ends Unit (add_finalizer env r ctx obj p) (λ x. Mild obj p x.1)
  unfolding add_finalizer
  add_finalizer-Mild r ctx obj p =
      let l = env.add_finalizer obj.metadata.finalizers r.finalizer in
      let (named, same) = update-frame (with_finalizers env l obj) p.world in
      after_update-Mild r ctx obj p _ named same

  fetched-Mild :
      (r : Reconciler) (ctx : Context) (key : Key) (p : Process W) (obj : AutoMq)
      → Ends Unit (fetched env r ctx key p (ok obj)) (λ x. Mild obj p x.1)
  unfolding fetched
  fetched-Mild r ctx key p obj =
      let p' = record p { tickers = key_of obj.metadata ∷ p.tickers } in
      let time = obj.metadata.deletion_timestamp in
      Ends-if Unit (not (is_nil time) && not (is_zero time)) _ _ (λ x. Mild obj p x.1)
        (remove_finalizer-Mild r obj p (cleanup env obj p.world)
          (λ k name apart. cleanup-frame env laws obj p.world k name apart))
        (Ends-if Unit (is_zero time || is_nil time) _ _ (λ x. Mild obj p x.1)
          (Ends-map Unit (add_finalizer env r ctx obj p') (λ x. Mild obj p' x.1)
            (λ x. Mild obj p x.1) (λ x h. (h.0, λ k m. h.1 k (inr m)))
            (add_finalizer-Mild r ctx obj p'))
          (λ k name apart. refl, λ k m. inr m))

  -- A request for an object that the server has.
  pub reconcile_request-Mild :
      (r : Reconciler) (ctx : Context) (key : Key) (p : Process W) (obj : AutoMq) (w : W)
      → env.get_auto_mq key p.world ≡ (ok obj, w)
      → Ends Unit (reconcile_request env r ctx key p) (λ x. Mild obj p x.1)
  unfolding reconcile_request
  reconcile_request-Mild r ctx key p obj w got =
      Ends-map Unit (reconcile_request env r ctx key p) (λ x. Mild obj (record p { world = w }) x.1)
        (λ x. Mild obj p x.1)
        (λ x h. (
          λ k name apart.
              h.0 k name apart
              ∙ sym (ap (λ (y : Result AutoMq × W). laws.at k name y.1) got)
              ∙ laws.get_auto_mq_frame key k name p.world,
          h.1,
        ))
        (subst
          (λ (y : Result AutoMq × W).
            Ends Unit (fetched env r ctx key (record p { world = y.1 }) y.0)
              (λ x. Mild obj (record p { world = w }) x.1))
          (sym got) (fetched-Mild r ctx key (record p { world = w }) obj))
