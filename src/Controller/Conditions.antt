-- ===== src/Controller/Conditions.antt =====
-- The conditions in the status: which are set, and when all of them are true.
use automq_operator.Base.{
  String, some, List, [], ◌∷◌, ◌≡◌, ◌≢◌, refl, sym, ap, ◌∙◌, subst, In, All, All-of_In, All-at,
  eq_refl, inl, inr, ◌==◌, Bool-cases, eq_iff,
}
use automq_operator.Kube.Objects.{Condition, find_condition}
use automq_operator.Kube.Env.{Env}
use automq_operator.Kube.Laws.{Laws, StatusLaws, IsDistinct}
use automq_operator.Api.Types.{AutoMq}
use automq_operator.Controller.State.{IsTrue}
use mathlib.Core.Bool.{false≢true}

-- The types of the conditions that the pipeline's methods set.
abbrev pub own_types : List String
own_types =
    "SyncS3ServiceReady" ∷ "SyncConfigmapReady" ∷ "SyncControllerScale" ∷ "SyncControllerReady"
    ∷ "SyncBrokerScale" ∷ "SyncBrokerReady" ∷ "SyncBootstrapServiceReady" ∷ []

-- The object's conditions are the operator's own, one of a type at most.
abbrev pub IsManaged : AutoMq → Type 0
IsManaged mq =
    IsDistinct mq.status.conditions
    × ((d : Condition) → In d mq.status.conditions → In d.type own_types)

-- From `a` to `b`, a true condition of this type was set, and no other one.
abbrev pub Reports : {W : Type 0} → Env W → String → AutoMq → AutoMq → Type 0
Reports env type a b =
    (c : Condition) × (c.type ≡ type)
    × (c.status ≡ "True")
    × (b.status.conditions ≡ env.set_status_condition a.status.conditions c)

pub Reports-IsTrue :
    {W : Type 0} (env : Env W) (laws : Laws env) (type : String) (a b : AutoMq)
    → Reports env type a b
    → IsTrue type b
Reports-IsTrue env laws type a b (c, same, holds, e) =
    (c, rw (e, ← same) (laws.condition_set a.status.conditions c), holds)

find-IsDistinct :
    (cs : List Condition) (d : Condition)
    → IsDistinct cs
    → In d cs
    → find_condition cs d.type ≡ some d
find-IsDistinct [] d distinct m = elim m [ ]
find-IsDistinct (c ∷ cs) d (apart, distinct) (inl is) = rw is (rw (eq_refl c.type) refl)
find-IsDistinct (c ∷ cs) d (apart, distinct) (inr m) = elim (Bool-cases (c.type == d.type)) [
  | inl same ↦
      absurd
        (All-at (λ (x : Condition). c.type ≢ x.type) cs d apart m ((eq_iff c.type d.type).0 same))
  | inr e ↦ rw e (find-IsDistinct cs d distinct m)
]

module _ {W : Type 0} (env : Env W) (laws : Laws env) (status : StatusLaws env) where
  -- The object is managed, and the conditions of these types are true.
  abbrev pub Told : List String → AutoMq → Type 0
  Told types mq = IsManaged mq × All (λ type. IsTrue type mq) types

  IsTrue-kept :
      (type other : String) (a b : AutoMq) → Reports env type a b → IsTrue other a → IsTrue other b
  IsTrue-kept type other a b (c, same, holds, e) (d, found, fine) =
      elim (Bool-cases (c.type == other)) [
        | inl h ↦
            let is : c.type ≡ other = (eq_iff c.type other).0 h in
            (c, rw (e, ← is) (laws.condition_set a.status.conditions c), holds)
        | inr h ↦
            let apart : c.type ≢ other = λ is. false≢true (sym h ∙ (eq_iff c.type other).1 is) in
            (d, rw e (laws.condition_kept a.status.conditions c other apart) ∙ found, fine)
      ]

  All-IsTrue-kept :
      (type : String) (types : List String) (a b : AutoMq)
      → Reports env type a b
      → All (λ other. IsTrue other a) types
      → All (λ other. IsTrue other b) types
  All-IsTrue-kept type [] a b set h = tt
  All-IsTrue-kept type (other ∷ types) a b set (h, hs) =
      (IsTrue-kept type other a b set h, All-IsTrue-kept type types a b set hs)

  pub Reports-IsManaged :
      (type : String) (a b : AutoMq)
      → In type own_types
      → Reports env type a b
      → IsManaged a
      → IsManaged b
  Reports-IsManaged type a b own (c, same, holds, e) (distinct, known) = (
    rw e (status.condition_distinct a.status.conditions c distinct),
    λ d m. elim (status.condition_members a.status.conditions c d (subst (In d) e m)) [
      | inl is ↦ subst (λ t. In t own_types) (sym (ap (λ (x : Condition). x.type) is ∙ same)) own
      | inr old ↦ known d old
    ],
  )

  pub Told-then :
      (type : String) (types : List String) (a b : AutoMq)
      → In type own_types
      → Reports env type a b
      → Told types a
      → Told (type ∷ types) b
  Told-then type types a b own set (managed, fine) = (
    Reports-IsManaged type a b own set managed,
    (Reports-IsTrue env laws type a b set, All-IsTrue-kept type types a b set fine),
  )

  -- Once a true condition of each of the operator's types is found, all conditions are true.
  pub IsManaged-conditions :
      (mq : AutoMq)
      → IsManaged mq
      → ((type : String) → In type own_types → IsTrue type mq)
      → All (λ c. c.status ≡ "True") mq.status.conditions
  IsManaged-conditions mq (distinct, known) fine =
      All-of_In (λ c. c.status ≡ "True") mq.status.conditions
        (λ d m.
          let (c, found, holds) = fine d.type (known d m) in
          let is : c ≡ d = cc (found, find-IsDistinct mq.status.conditions d distinct m) in
          ap (λ (x : Condition). x.status) (sym is) ∙ holds)
