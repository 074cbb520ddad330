-- ===== src/Kube/Memory/Conditions.antt =====
-- How a list of conditions changes when one is set.
use automq_operator.Base.{
  String, some, List, [], ◌∷◌, ◌≡◌, refl, ap, ◌⊎◌, inl, inr, sym, arith, ◌==◌, eq_iff, Bool-cases,
  ◌∙◌, ◌≢◌, subst, In, All, All-at, All-of_In,
}
use automq_operator.Kube.Objects.{find_condition, Condition}
use mathlib.Core.Bool.{false≢true}
use automq_operator.Kube.Laws.{IsDistinct}
use automq_operator.Kube.Memory.{upsert}

pub upsert-find :
    (cs : List Condition) (c : Condition) → find_condition (upsert cs c) c.type ≡ some c
upsert-find [] c = ground (arith, eq_iff c.type c.type)
upsert-find (d ∷ ds) c =
    ground (arith, eq_iff d.type c.type, eq_iff c.type c.type, upsert-find ds c)

pub upsert-kept :
    (cs : List Condition) (c : Condition) (type : String)
    → c.type ≢ type
    → find_condition (upsert cs c) type ≡ find_condition cs type
upsert-kept [] c type h = ground (arith, eq_iff c.type type)
upsert-kept (d ∷ ds) c type h =
    ground
      (arith, eq_iff d.type c.type, eq_iff c.type type, eq_iff d.type type, upsert-kept ds c type)

pub upsert-members :
    (cs : List Condition) (c d : Condition) → In d (upsert cs c) → (d ≡ c) ⊎ In d cs
upsert-members [] c d (inl is) = inl is
upsert-members [] c d (inr m) = inr m
upsert-members (e ∷ es) c d m = elim (Bool-cases (e.type == c.type)) [
  | inl same ↦
      let put : upsert (e ∷ es) c ≡ c ∷ es = rw same refl in
      elim (subst (In d) put m) [ inl is ↦ inl is | inr old ↦ inr (inr old) ]
  | inr apart ↦
      let kept : upsert (e ∷ es) c ≡ e ∷ upsert es c = rw apart refl in
      elim (subst (In d) kept m) [
        | inl is ↦ inr (inl is)
        | inr later ↦ elim (upsert-members es c d later) [
          | inl is ↦ inl is
          | inr old ↦ inr (inr old)
        ]
      ]
]

pub upsert-IsDistinct :
    (cs : List Condition) (c : Condition) → IsDistinct cs → IsDistinct (upsert cs c)
upsert-IsDistinct [] c h = (tt, tt)
upsert-IsDistinct (e ∷ es) c (apart, distinct) = elim (Bool-cases (e.type == c.type)) [
  | inl same ↦
      let is : e.type ≡ c.type = (eq_iff e.type c.type).0 same in
      rw same (subst (λ t. All (λ (d : Condition). t ≢ d.type) es) is apart, distinct)
  | inr other ↦ rw other (
    All-of_In (λ (d : Condition). e.type ≢ d.type) (upsert es c)
        (λ d m. elim (upsert-members es c d m) [
          | inl is ↦ λ same.
              false≢true
                (sym other ∙ (eq_iff e.type c.type).1 (same ∙ ap (λ (x : Condition). x.type) is))
          | inr old ↦ All-at (λ (d : Condition). e.type ≢ d.type) es d apart old
        ]),
    upsert-IsDistinct es c distinct,
  )
]
