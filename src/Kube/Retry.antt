-- ===== src/Kube/Retry.antt =====
-- What a call under `RetryOnConflict` does, for any number of attempts.
use automq_operator.Base.{Option, none, some, ◌≡◌, refl, sym, ap, ◌≢◌, ◌∙◌, subst}
use automq_operator.Kube.Objects.{Key, key_of, Kind, Object, meta_of, Err}
use automq_operator.Kube.Env.{Env}
use automq_operator.Kube.Laws.{Attempts, last, again, Laws, Same}

Attempts-last :
    {S : Type 0} (P : S → Type 0) (f : S → Option Err × S) (e : Option Err) (s' : S)
    → ((s : S) → P s → P (f s).1)
    → (s : S) → P s
    → Attempts f e s' s
    → (t : S) × P t × (f t ≡ (e, s'))
Attempts-last P f e s' keep s p (last h) = (s, p, h)
Attempts-last P f e s' keep s p (again c t h rest) =
    Attempts-last P f e s' keep t (subst P (ap (λ x. x.1) h) (keep s p)) rest

module _ {W : Type 0} (env : Env W) (laws : Laws env) where
  -- If every attempt keeps `P`, the answer is that of an attempt in a state where `P` holds.
  pub retry-last :
      {S : Type 0} (P : S → Type 0) (f : S → Option Err × S) (s : S)
      → ((t : S) → P t → P (f t).1)
      → P s
      → (t : S) × P t × (f t ≡ env.retry_on_conflict S f s)
  retry-last {S} P f s keep p = Attempts-last P f _ _ keep s p (laws.retry_attempts S f s)

  pub retry-keeps :
      {S : Type 0} (P : S → Type 0) (f : S → Option Err × S) (s : S)
      → ((t : S) → P t → P (f t).1)
      → P s
      → P (env.retry_on_conflict S f s).1
  retry-keeps P f s keep p =
      let (t, q, e) = retry-last P f s keep p in subst P (ap (λ x. x.1) e) (keep t q)

  -- The server holds, under `key`, what `mutate` made of some object of this name.
  abbrev pub Stores : (k : Kind) → Key → (Object k → Object k) → W → Type 0
  Stores k key mutate w =
      (b held : Object k) × (key_of (meta_of k b) ≡ key)
      × (laws.at k key w ≡ some held)
      × laws.holds k (mutate b) held

  -- From `w` on, only the object of kind `k` under `key` may have changed.
  abbrev pub Touches : Kind → Key → W → W → Type 0
  Touches k key w w' =
      (k' : Kind) (key' : Key) → ¬ Same k key k' key' → laws.at k' key' w' ≡ laws.at k' key' w

  -- The server takes this request, which starts from the object `o`.
  abbrev pub Takes : (k : Kind) → Object k → (Object k → Object k) → Type 0
  Takes k o mutate =
      (w : W)
      → (env.retry_on_conflict (Object k × W) (env.create_or_update k mutate) (o, w)).0 ≡ none

  -- A request for one object, with its answer and the world after it. It succeeds if `Fine` holds.
  abbrev pub Writes :
      Type 0 → (k : Kind) → Key → (Object k → Object k) → W → Option Err × W → Type 0
  Writes Fine k key mutate w x =
      Touches k key w x.1 × (Fine → x.0 ≡ none) × (x.0 ≡ none → Stores k key mutate x.1)

  abbrev pub KeepsKey : (k : Kind) → (Object k → Object k) → Type 0
  KeepsKey k mutate = (b : Object k) → key_of (meta_of k (mutate b)) ≡ key_of (meta_of k b)

  Touches-once :
      (k : Kind) (mutate : Object k → Object k) (key : Key) (o : Object k) (w v : W)
      → key_of (meta_of k o) ≡ key
      → Touches k key v w
      → Touches k key v (env.create_or_update k mutate (o, w)).1.1
  Touches-once k mutate key o w v e h k' key' other =
      laws.create_or_update_frame k mutate o k' key' w (rw e other) ∙ h k' key' other

  -- An attempt on an object that has the name `key` writes it.
  write_once :
      (k : Kind) (mutate : Object k → Object k) (key : Key) (v : W) (t : Object k × W)
      → KeepsKey k mutate
      → (key_of (meta_of k t.0) ≡ key) × Touches k key v t.1
      → let x = env.create_or_update k mutate t in
        (key_of (meta_of k x.1.0) ≡ key)
        × Touches k key v x.1.1
        × (x.0 ≡ none → Stores k key mutate x.1.1)
  write_once k mutate key v t keeps (named, h) = (
    laws.create_or_update_key k mutate t.0 t.1 keeps ∙ named,
    Touches-once k mutate key t.0 t.1 v named h,
    λ fine.
        let (b, held, same, at, stored) = laws.create_or_update_done k mutate t.0 t.1 fine in
        (
          b,
          held,
          same ∙ named,
          subst (λ (x : Key). laws.at k x (env.create_or_update k mutate t).1.1 ≡ some held) named
              at,
          stored,
        ),
  )

  -- CreateOrUpdate under retries writes one object.
  pub retry-Writes :
      (Fine : Type 0) (k : Kind) (mutate : Object k → Object k) (o : Object k) (w : W)
      → KeepsKey k mutate
      → (Fine → Takes k o mutate)
      → let x = env.retry_on_conflict (Object k × W) (env.create_or_update k mutate) (o, w) in
        Writes Fine k (key_of (meta_of k o)) mutate w (x.0, x.1.1)
  retry-Writes Fine k mutate o w keeps takes =
      let key = key_of (meta_of k o) in
      let (t, p, e) =
        retry-last (λ s. (key_of (meta_of k s.0) ≡ key) × Touches k key w s.1)
          (env.create_or_update k mutate) (o, w)
          (λ t h. let x = write_once k mutate key w t keeps h in (x.0, x.1))
          (refl, λ k' key' h. refl) in
      let done = write_once k mutate key w t keeps p in
      (
        subst (λ x. Touches k key w x.1.1) e done.1,
        λ fine. takes fine w,
        subst (λ x. x.0 ≡ none → Stores k key mutate x.1.1) e done.2,
      )

  -- From `w` on, only objects under `key` may have changed.
  abbrev pub Spares : Key → W → W → Type 0
  Spares key w w' = (k : Kind) (key' : Key) → key' ≢ key → laws.at k key' w' ≡ laws.at k key' w

  pub Touches-Spares : (k : Kind) (key : Key) (w w' : W) → Touches k key w w' → Spares key w w'
  Touches-Spares k key w w' h k' key' apart = h k' key' (λ same. apart (sym same.1))

  pub Spares-trans :
      (key : Key) (w w' w'' : W) → Spares key w w' → Spares key w' w'' → Spares key w w''
  Spares-trans key w w' w'' h h' k key' apart = h' k key' apart ∙ h k key' apart

  -- What is stored stays stored while its object is not touched.
  pub Stores-kept :
      (k : Kind) (key : Key) (mutate : Object k → Object k) (w w' : W)
      → laws.at k key w' ≡ laws.at k key w
      → Stores k key mutate w
      → Stores k key mutate w'
  Stores-kept k key mutate w w' same (b, held, named, at, stored) =
      (b, held, named, same ∙ at, stored)

  -- A few requests for the objects under a key: they touch nothing else, they succeed if `Fine` holds,
  -- if they succeed `Good` holds, and if they fail `Bad` holds of what they report.
  abbrev pub Round :
      Type 0 → {A : Type 0} → (A → Type 0) → Key → W → (W → Type 0) → Option A × W → Type 0
  Round Fine {A} Bad key w Good x =
      Spares key w x.1
      × (Fine → x.0 ≡ none)
      × (x.0 ≡ none → Good x.1)
      × ((a : A) → x.0 ≡ some a → Bad a)
