-- ===== src/Controller/Rounds.antt =====
-- Chains of requests for the objects of one replica: each stops the round when it fails.
use automq_operator.Base.{
  String, Option, none, some, List, ◌∷◌, ◌≡◌, ◌≢◌, refl, sym, subst, ◌∙◌, inl, inr, In, ap, arith,
  eq_iff,
}
use automq_operator.Base.Int.{ℤ, In-cases}
use automq_operator.Kube.Objects.{Kind, Key, Object, Condition, find_condition, Err}
use automq_operator.Kube.Env.{Env}
use automq_operator.Kube.Laws.{Laws}
use automq_operator.Kube.Retry.{
  Stores, Touches, Writes, Touches-Spares, Spares, Spares-trans, Round,
}
use automq_operator.Api.Types.{AutoMq}
use automq_operator.Controller.State.{
  State, Outcome, done, set_condition, IsTrue, Returns, Returns-map, on_error, on_error-Returns,
}

-- The condition of a step that failed.
abbrev pub IsFailure : String → Condition → Type 0
IsFailure type c = (c.type ≡ type) × (c.status ≡ "False")

-- A request whose error may be any.
abbrev pub AnyErr : Err → Type 0
AnyErr e = Unit {0}

pub failed-not-IsTrue :
    {W : Type 0} (env : Env W) (laws : Laws env) (type : String) (c : Condition) (mq : AutoMq)
    → IsFailure type c
    → ¬ IsTrue type (set_condition env c mq)
failed-not-IsTrue env laws type c mq (same, failed) (d, found, holds) =
    let set : find_condition (set_condition env c mq).status.conditions type ≡ some c =
      rw (← same) (laws.condition_set mq.status.conditions c) in
    let e : c ≡ d = cc (set, found) in
    ground (arith, eq_iff "False" "True", failed, holds, ap (λ (x : Condition). x.status) e)

module _ {W : Type 0} (env : Env W) (laws : Laws env) (Fine : Type 0) (key : Key) where
  pub Writes-Round :
      (k : Kind) (mutate : Object k → Object k) (w : W) (Good : W → Type 0) (x : Option Err × W)
      → ((w' : W) → Touches env laws k key w w' → Stores env laws k key mutate w' → Good w')
      → Writes env laws Fine k key mutate w x
      → Round env laws Fine AnyErr key w Good x
  Writes-Round k mutate w Good x good (touched, sure, stored) = (
    Touches-Spares env laws k key w x.1 touched,
    sure,
    λ fine. good x.1 touched (stored fine),
    λ e h. tt,
  )

  -- A round may start in an earlier world that differs only under its key.
  pub Round-from :
      {A : Type 0} (Bad : A → Type 0) (o : Outcome (Option A × W)) (w w' : W) (Good : W → Type 0)
      → Spares env laws key w w'
      → Returns o (Round env laws Fine Bad key w' Good)
      → Returns o (Round env laws Fine Bad key w Good)
  Round-from Bad o w w' Good spared =
      Returns-map o (Round env laws Fine Bad key w' Good) (Round env laws Fine Bad key w Good)
        (λ x round. (Spares-trans env laws key w w' x.1 spared round.0, round.1, round.2, round.3))

  pub on_error-Round :
      (type : String) (o : Outcome (Option Err × W)) (report : Err → Condition)
      (next : W → Outcome (Option Condition × W)) (w : W) (Good Good' : W → Type 0)
      → ((e : Err) → IsFailure type (report e))
      → Returns o (Round env laws Fine AnyErr key w Good)
      → ((w' : W) → Good w' → Returns (next w') (Round env laws Fine (IsFailure type) key w' Good'))
      → Returns
          (on_error o (λ e w'. done (some (report e), w')) next)
          (Round env laws Fine (IsFailure type) key w Good')
  on_error-Round type o report next w Good Good' fails first then_ =
      on_error-Returns o _ next (Round env laws Fine (IsFailure type) key w Good')
        (Round env laws Fine AnyErr key w Good) first
        (λ e w' q. (
          q.0,
          λ health. cc (q.1 health),
          λ fine. cc fine,
          λ c h. let same : report e ≡ c = cc h in subst (IsFailure type) same (fails e),
        ))
        (λ w' q. Round-from (IsFailure type) (next w') w w' Good' q.0 (then_ w' (q.2 refl)))

-- The loops over the replicas of a role: `key i` names the objects of the replica `i`, and `Stored`
-- is what its round is to leave.
module _ {W : Type 0} (env : Env W) (laws : Laws env) (Fine : Type 0) (type : String)
    (key : ℤ → Key) (Stored : ℤ → W → Type 0) where
  -- A loop touches only objects under the names of its indices.
  abbrev pub Rounds : List ℤ → W → Option Condition × W → Type 0
  Rounds is w x =
      ((k : Kind) (name : Key)
        → ((i : ℤ) → In i is → name ≢ key i)
        → laws.at k name x.1 ≡ laws.at k name w)
      × (Fine → x.0 ≡ none)
      × (x.0 ≡ none → (i : ℤ) → In i is → Stored i x.1)
      × ((c : Condition) → x.0 ≡ some c → IsFailure type c)

  pub Rounds-failed :
      (i : ℤ) (is : List ℤ) (w w' : W) (c : Condition)
      → Round env laws Fine (IsFailure type) (key i) w (Stored i) (some c, w')
      → Rounds (i ∷ is) w (some c, w')
  Rounds-failed i is w w' c h = (
    λ k name apart. h.0 k name (apart i (inl refl)),
    λ health. cc (h.1 health),
    λ fine. cc fine,
    h.3,
  )

  -- Different indices have different names, so that a later round leaves what an earlier one stored.
  pub Rounds-then :
      (i : ℤ) (is : List ℤ) (w w' : W) (x : Option Condition × W)
      → ((j l : ℤ) → key j ≡ key l → j ≡ l)
      → ((j : ℤ) (v v' : W)
          → ((k : Kind) → laws.at k (key j) v' ≡ laws.at k (key j) v)
          → Stored j v
          → Stored j v')
      → Spares env laws (key i) w w'
      → Stored i w'
      → Rounds is w' x
      → Rounds (i ∷ is) w x
  Rounds-then i is w w' x injective kept spared stored (frame, sure, good, bad) = (
    λ k name apart. frame k name (λ j m. apart j (inr m)) ∙ spared k name (apart i (inl refl)),
    sure,
    λ fine j m. elim (In-cases j is) [
      | inl n ↦ good fine j n
      | inr apart ↦
          let same : j ≡ i = elim m [ inl e ↦ e | inr n ↦ absurd (apart j n refl) ] in
          kept j w' x.1 (λ k. frame k (key j) (λ l n e. apart l n (injective j l e)))
            (subst (λ l. Stored l w') (sym same) stored)
    ],
    bad,
  )

-- What a method keeps: the object's metadata and specification, and the objects of the cluster whose
-- names are not its own.
abbrev pub Keeps :
    {W : Type 0} (env : Env W) → Laws env → (Key → Type 0) → State W → State W → Type 0
Keeps env laws Own s t =
    (t.mq.metadata ≡ s.mq.metadata)
    × (t.mq.spec ≡ s.mq.spec)
    × ((k : Kind) (key : Key) → ¬ Own key → laws.at k key t.world ≡ laws.at k key s.world)
