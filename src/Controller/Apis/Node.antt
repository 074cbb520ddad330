-- ===== src/Controller/Apis/Node.antt =====
-- What a pod learns of its node's address.
use automq_operator.Base.{
  String, List, [], ◌∷◌, ◌≡◌, ◌≢◌, ◌↔◌, refl, sym, subst, true, false, ◌∙◌, arith, eq_iff, inl, inr,
  Bool-cases, ◌==◌,
}
use mathlib.Core.Bool.{false≢true}
use automq_operator.Kube.Objects.{NodeAddress, ok}
use automq_operator.Kube.Env.{Env}
use automq_operator.Controller.Apis.{json_message, text, internal_ip, respond, get_node}

-- The address of the first entry of type InternalIP.
pub data FirstInternal : List NodeAddress → String → Type 0 where
  here :
      {a : NodeAddress} {l : List NodeAddress} {ip : String}
      → a.type ≡ "InternalIP"
      → a.address ≡ ip
      → FirstInternal (a ∷ l) ip
  later :
      {a : NodeAddress} {l : List NodeAddress} {ip : String}
      → a.type ≢ "InternalIP"
      → FirstInternal l ip
      → FirstInternal (a ∷ l) ip

internal_ip-of_FirstInternal :
    {l : List NodeAddress} {ip : String} → FirstInternal l ip → internal_ip l ≡ ip
unfolding internal_ip
internal_ip-of_FirstInternal (here {a} {l} {ip} e same) = ground (arith, eq_iff a.type "InternalIP")
internal_ip-of_FirstInternal (later {a} {l} {ip} n rest) =
    ground (arith, eq_iff a.type "InternalIP", internal_ip-of_FirstInternal rest)

FirstInternal-internal_ip :
    (l : List NodeAddress) → internal_ip l ≢ "" → FirstInternal l (internal_ip l)
unfolding internal_ip
FirstInternal-internal_ip [] h = absurd (h refl)
FirstInternal-internal_ip (a ∷ l) h = elim (Bool-cases (a.type == "InternalIP")) [
  | inl e ↦ here ((eq_iff a.type "InternalIP").0 e) (rw e refl)
  | inr e ↦
      later (λ same. false≢true (sym e ∙ (eq_iff a.type "InternalIP").1 same))
        (rw e (FirstInternal-internal_ip l (λ none. h (rw e none))))
]

module _ {W : Type 0} (env : Env W) where
  -- If the node is found, the handler answers an address that is not empty with status 200 exactly if
  -- it is that of the node's first entry of type InternalIP, and else it answers with status 500 that
  -- there is none.
  pub get_node_iff :
      (name ip : String) (w w' : W) (l : List NodeAddress)
      → env.get_node_addresses name w ≡ (ok l, w')
      → ((get_node env name w ≡ (text 200 ip, w')) ↔ (FirstInternal l ip × (ip ≢ "")))
        × ((get_node env name w ≡ (json_message 500 "node ip not found", w'))
            ↔ ((x : String) → FirstInternal l x → x ≡ ""))
  unfolding get_node respond
  get_node_iff name ip w w' l got =
      let none_given : (internal_ip l == "") ≡ true
          → get_node env name w ≡ (json_message 500 "node ip not found", w') =
        λ e. rw (got, e) refl in
      let given : (internal_ip l == "") ≡ false
          → get_node env name w ≡ (text 200 (internal_ip l), w') =
        λ e. rw (got, e) refl in
      elim (Bool-cases (internal_ip l == "")) [
        | inl e ↦
            let none : internal_ip l ≡ "" = (eq_iff (internal_ip l) "").0 e in
            (
              (
                λ h. ground (arith, none_given e, h),
                λ (first, full). absurd (full (sym (internal_ip-of_FirstInternal first) ∙ none)),
              ),
              (λ h x first. sym (internal_ip-of_FirstInternal first) ∙ none, λ h. rw (got, e) refl),
            )
        | inr e ↦
            let some : internal_ip l ≢ "" =
              λ h. false≢true (sym e ∙ (eq_iff (internal_ip l) "").1 h) in
            (
              (
                λ h.
                    let same : internal_ip l ≡ ip = ground (arith, given e, h) in
                    (
                      subst (FirstInternal l) same (FirstInternal-internal_ip l some),
                      λ z. some (same ∙ z),
                    ),
                λ (first, full). rw (got, e, internal_ip-of_FirstInternal first) refl,
              ),
              (
                λ h. ground (arith, given e, h),
                λ h. absurd (some (h (internal_ip l) (FirstInternal-internal_ip l some))),
              ),
            )
      ]
