-- ===== src/Controller/State.antt =====
-- What the methods of the reconciler work on, and how their steps are chained.
use automq_operator.Base.{
  String, Bool, true, false, if◌then◌else◌, Option, none, some, ◌≡◌, refl, subst,
}
use automq_operator.Kube.Objects.{Condition, find_condition, Err}
use automq_operator.Kube.Env.{Env}
use automq_operator.Api.Types.{AutoMq}

-- `AutoMQReconciler`; its client, scheme and recorder are in `Env`.
pub record Reconciler : Type 0 where
  pub finalizer : String
  pub mount_tz : Bool

-- The value of a `context.Context` under the key "hash-configmap".
pub record Context : Type 0 where
  pub hash_configmap : Option String

-- The object in memory, which the methods change through its pointer, and the world.
pub record State (W : Type 0) : Type 0 where
  pub mq : AutoMq
  pub world : W

-- How Go code ends: it returns, or it panics.
pub data Outcome (A : Type 0) : Type 0 where
  done : A → Outcome A
  panicked : Outcome A

-- A method `func (r *AutoMQReconciler) f(ctx, obj) bool`.
abbrev pub Method : Type 0 → Type 0
Method W = State W → Outcome (Bool × State W)

-- The call of `meta.SetStatusCondition` on `obj.Status.Conditions`. All its calls pass the object's
-- generation.
abbrev pub new_condition : AutoMq → String → String → String → String → Condition
new_condition mq type status reason message = record {
  type = type;
  status = status;
  observed_generation = mq.metadata.generation;
  reason = reason;
  message = message;
}

abbrev pub set_condition : {W : Type 0} → Env W → Condition → AutoMq → AutoMq
set_condition env c mq = record mq {
  status = record mq.status { conditions = env.set_status_condition mq.status.conditions c };
}

-- `if err := act(); err != nil { return report(err) }`, then the rest.
abbrev pub on_error :
    {W A : Type 0} → Outcome (Option Err × W) → (Err → W → Outcome A) → (W → Outcome A) → Outcome A
on_error panicked report next = panicked
on_error (done (some e, w)) report next = report e w
on_error (done (none, w)) report next = next w

-- A method that answers true, if it does not panic.
abbrev pub AnswersTrue : {W : Type 0} → Method W → Type 0
AnswersTrue {W} f = (s t : State W) (b : Bool) → f s ≡ done (b, t) → b ≡ true

-- It does not panic, and what it returns satisfies `P`.
abbrev pub Returns : {A : Type 0} → Outcome A → (A → Type 0) → Type 0
Returns panicked P = ⊥
Returns (done a) P = P a

-- If it panics, `X` holds, and what it returns satisfies `P`.
abbrev pub Ends : Type 0 → {A : Type 0} → Outcome A → (A → Type 0) → Type 0
Ends X panicked P = X
Ends X (done a) P = P a

pub Ends_of_Returns :
    (X : Type 0) {A : Type 0} (o : Outcome A) (P : A → Type 0) → Returns o P → Ends X o P
Ends_of_Returns X panicked P h = absurd h
Ends_of_Returns X (done a) P h = h

pub Returns_of_Ends : {A : Type 0} (o : Outcome A) (P : A → Type 0) → Ends ⊥ o P → Returns o P
Returns_of_Ends panicked P h = h
Returns_of_Ends (done a) P h = h

pub Ends-map :
    (X : Type 0) {A : Type 0} (o : Outcome A) (P Q : A → Type 0)
    → ((a : A) → P a → Q a)
    → Ends X o P
    → Ends X o Q
Ends-map X panicked P Q f h = h
Ends-map X (done a) P Q f h = f a h

pub Ends-if :
    (X : Type 0) {A : Type 0} (c : Bool) (o o' : Outcome A) (P : A → Type 0)
    → Ends X o P
    → Ends X o' P
    → Ends X (if c then o else o') P
Ends-if X true o o' P h h' = h
Ends-if X false o o' P h h' = h'

pub Ends-guard :
    (X : Type 0) {A : Type 0} (c : Bool) (o : Outcome A) (P : A → Type 0)
    → (c ≡ true → X)
    → Ends X o P
    → Ends X (if c then panicked else o) P
Ends-guard X true o P f h = f refl
Ends-guard X false o P f h = h

pub Ends-at :
    (X : Type 0) {A : Type 0} (o : Outcome A) (P : A → Type 0) (a : A)
    → Ends X o P
    → o ≡ done a
    → P a
Ends-at X panicked P a h e = cc e
Ends-at X (done b) P a h e = subst P (cc) h

pub on_error-Returns :
    {W A : Type 0} (o : Outcome (Option Err × W)) (report : Err → W → Outcome A)
    (next : W → Outcome A) (P : A → Type 0) (Q : Option Err × W → Type 0)
    → Returns o Q
    → ((e : Err) (w : W) → Q (some e, w) → Returns (report e w) P)
    → ((w : W) → Q (none, w) → Returns (next w) P)
    → Returns (on_error o report next) P
on_error-Returns panicked report next P Q h f g = h
on_error-Returns (done (some e, w)) report next P Q h f g = f e w h
on_error-Returns (done (none, w)) report next P Q h f g = g w h

pub Returns-map :
    {A : Type 0} (o : Outcome A) (P Q : A → Type 0)
    → ((a : A) → P a → Q a)
    → Returns o P
    → Returns o Q
Returns-map panicked P Q f h = h
Returns-map (done a) P Q f h = f a h

-- What holds of all that is returned holds of what is.
pub Returns-at :
    {A : Type 0} (o : Outcome A) (P : A → Type 0) (a : A) → Returns o P → o ≡ done a → P a
Returns-at panicked P a h e = absurd h
Returns-at (done b) P a h e = subst P (cc) h

pub Returns-done :
    {A : Type 0} (o : Outcome A) (P : A → Type 0) → Returns o P → (a : A) × (o ≡ done a) × P a
Returns-done panicked P h = absurd h
Returns-done (done a) P h = (a, refl, h)

-- What is returned with an answer that is always true.
pub Returns-true :
    {A : Type 0} (o : Outcome (Bool × A)) (P : Bool × A → Type 0)
    → ((t : A) (b : Bool) → o ≡ done (b, t) → b ≡ true)
    → Returns o P
    → Returns o (λ x. (x.0 ≡ true) × P x)
Returns-true panicked P answers h = h
Returns-true (done (b, t)) P answers h = (answers t b refl, h)

-- The object has a condition of this type, and it is true.
abbrev pub IsTrue : String → AutoMq → Type 0
IsTrue type mq =
    (c : Condition) × (find_condition mq.status.conditions type ≡ some c) × (c.status ≡ "True")
