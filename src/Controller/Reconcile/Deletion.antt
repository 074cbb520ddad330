-- ===== src/Controller/Reconcile/Deletion.antt =====
-- What a request for a deleted object does.
use automq_operator.Base.{
  ℕ, suc, String, true, not, Option, none, some, List, ◌≡◌, refl, ap, ◌∙◌, In, if◌then◌else◌, ◌&&◌,
  Bool-cases, inl, inr, arith,
}
use automq_operator.Kube.Objects.{Key, Err, ok}
use automq_operator.Kube.Env.{Env}
use automq_operator.Kube.Laws.{Laws, IsReliable}
use automq_operator.Api.Types.{AutoMq}
use automq_operator.Controller.State.{Reconciler, Context, done}
use automq_operator.Controller.Reconcile.{
  Process, is_nil, is_zero, cleanup, with_finalizers, update, remove_finalizer, fetched,
  reconcile_request,
}
use automq_operator.Controller.Reconcile.Cleanup.{AllCleared, AllCleared-kept, cleanup_complete}
use automq_operator.Controller.Reconcile.Requests.{update-frame}

is_deleted :
    (time : Option ℕ) (t : ℕ)
    → time ≡ some (suc t)
    → (not (is_nil time) && not (is_zero time)) ≡ true
is_deleted time t e = rw e (ground arith)

module _ {W : Type 0} (env : Env W) where
  -- The finalizers of the object that is sent.
  abbrev pub kept_finalizers : Reconciler → AutoMq → List String
  kept_finalizers r obj =
      let l = obj.metadata.finalizers in
      if env.contains_finalizer l r.finalizer then env.remove_finalizer l r.finalizer else l

  -- The update that the request ends with, after the clean-up of `obj` in the world `w`.
  abbrev pub sent : Reconciler → AutoMq → W → Option Err × (AutoMq × W)
  sent r obj w = update env (with_finalizers env (kept_finalizers r obj) obj) (cleanup env obj w).1

  remove_finalizer-none :
      (r : Reconciler) (obj : AutoMq) (p : Process W) (cleaned : Option Err × W)
      → cleaned.0 ≡ none
      → remove_finalizer env r obj p cleaned ≡ (
        (update env (with_finalizers env (kept_finalizers r obj) obj) cleaned.1).0,
        record p {
          world = (update env (with_finalizers env (kept_finalizers r obj) obj) cleaned.1).1.1;
        },
      )
  unfolding remove_finalizer
  remove_finalizer-none r obj p (none, w) e = refl
  remove_finalizer-none r obj p (some x, w) e = cc

  fetched-deleted :
      (r : Reconciler) (ctx : Context) (key : Key) (p : Process W) (obj : AutoMq) (t : ℕ)
      → obj.metadata.deletion_timestamp ≡ some (suc t)
      → fetched env r ctx key p (ok obj)
        ≡ done (remove_finalizer env r obj p (cleanup env obj p.world))
  unfolding fetched
  fetched-deleted r ctx key p obj t e = rw (is_deleted obj.metadata.deletion_timestamp t e) refl

module _ {W : Type 0} (env : Env W) (laws : Laws env) where
  kept_finalizers-lack :
      (r : Reconciler) (obj : AutoMq) → ¬ In r.finalizer (kept_finalizers env r obj)
  kept_finalizers-lack r obj =
      elim (Bool-cases (env.contains_finalizer obj.metadata.finalizers r.finalizer)) [
        | inl e ↦ rw e (laws.finalizer_removed obj.metadata.finalizers r.finalizer)
        | inr e ↦ rw e (laws.finalizer_missing obj.metadata.finalizers r.finalizer e)
      ]

  -- With reliable deletions, a request for an object that is being deleted answers what its update
  -- answers, of the object without the operator's finalizer; it starts no ticker; and it leaves no
  -- service, deployment or claim of any broker or controller that the status counts, no bootstrap service
  -- and no script map.
  pub deletion_completes :
      (r : Reconciler) (ctx : Context) (key : Key) (p : Process W) (obj : AutoMq) (w : W) (t : ℕ)
      → IsReliable env
      → env.get_auto_mq key p.world ≡ (ok obj, w)
      → obj.metadata.deletion_timestamp ≡ some (suc t)
      → let v = (sent env r obj w).1.1 in
        (reconcile_request env r ctx key p
          ≡ done ((sent env r obj w).0, record { world = v; tickers = p.tickers }))
        × (¬ In r.finalizer (kept_finalizers env r obj))
        × AllCleared env laws obj v
  unfolding reconcile_request
  deletion_completes r ctx key p obj w t sure got time =
      let (fine, cleared) = cleanup_complete env laws obj w sure in
      (
        rw got (
            fetched-deleted env r ctx key (record p { world = w }) obj t time
            ∙ ap done (
                remove_finalizer-none env r obj (record p { world = w }) (cleanup env obj w) fine)),
        kept_finalizers-lack r obj,
        AllCleared-kept env laws obj (cleanup env obj w).1 (sent env r obj w).1.1
            (update-frame env laws (with_finalizers env (kept_finalizers env r obj) obj)
              (cleanup env obj w).1).1
            cleared,
      )
