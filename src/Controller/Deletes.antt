-- ===== src/Controller/Deletes.antt =====
-- Runs of deletions whose errors are dropped, as the clean-up and the scale-down make them.
use automq_operator.Base.{
  none, List, [], ◌∷◌, ◌++◌, ◌≡◌, ◌≢◌, refl, ap, ◌∙◌, ◌⊎◌, inl, inr, In, ◌==◌, Bool-cases, eq_iff,
  arith,
}
use automq_operator.Kube.Objects.{Key, Kind, service, deployment, persistent_volume_claim}
use automq_operator.Kube.Env.{Env}
use automq_operator.Kube.Laws.{Laws, Same, IsReliable}
use automq_operator.Controller.Requests.{discard}

abbrev pub Ref : Type 0
Ref = Kind × Key

module _ {W : Type 0} (env : Env W) where
  -- The deletions of a list of objects, one after the other.
  unfoldable pub discard_all : List Ref → W → W
  unfolding discard
  discard_all [] w = w
  discard_all (r ∷ rs) w = discard_all rs (discard env r.0 r.1 w)

  pub discard_all-append :
      (rs ss : List Ref) (w : W) → discard_all (rs ++ ss) w ≡ discard_all ss (discard_all rs w)
  unfolding discard_all
  discard_all-append [] ss w = refl
  discard_all-append (r ∷ rs) ss w = discard_all-append rs ss (discard env r.0 r.1 w)

-- The server holds no service, deployment or claim under the key.
abbrev pub Cleared : {W : Type 0} (env : Env W) → Laws env → Key → W → Type 0
Cleared env laws key w =
    (laws.at service key w ≡ none)
    × (laws.at deployment key w ≡ none)
    × (laws.at persistent_volume_claim key w ≡ none)

Kind-discrete : Discrete Kind
Kind-discrete = hlevel

Key-cases : (a b : Key) → (a ≡ b) ⊎ (a ≢ b)
Key-cases a b = elim (Bool-cases (a.namespace == b.namespace)) [
  | inl e ↦ elim (Bool-cases (a.name == b.name)) [
    | inl e' ↦ inl (ground (arith, eq_iff a.namespace b.namespace, eq_iff a.name b.name))
    | inr n ↦ inr (λ h. ground (arith, eq_iff a.name b.name, ap (λ (x : Key). x.name) h))
  ]
  | inr n ↦
      inr (λ h. ground (arith, eq_iff a.namespace b.namespace, ap (λ (x : Key). x.namespace) h))
]

-- Whether a request is listed can be decided.
pub Ref-cases : (k : Kind) (key : Key) (rs : List Ref) → In (k, key) rs ⊎ ¬ In (k, key) rs
Ref-cases k key [] = inr (λ m. m)
Ref-cases k key ((k', key') ∷ rs) = elim (Ref-cases k key rs) [
  | inl m ↦ inl (inr m)
  | inr n ↦ elim (Kind-discrete k k') [
    | no apart ↦ inr (λ m. elim m [ inl e ↦ apart (ap (λ (x : Ref). x.0) e) | inr l ↦ n l ])
    | yes same ↦ elim (Key-cases key key') [
      | inl e ↦ inl (inl (cc))
      | inr apart ↦ inr (λ m. elim m [ inl e ↦ apart (ap (λ (x : Ref). x.1) e) | inr l ↦ n l ])
    ]
  ]
]

module _ {W : Type 0} (env : Env W) (laws : Laws env) where
  discard-absent :
      (r : Ref) (k : Kind) (key : Key) (w : W)
      → laws.at k key w ≡ none
      → laws.at k key (discard env r.0 r.1 w) ≡ none
  unfolding discard
  discard-absent r k key w h = elim (laws.delete_cases r.0 r.1 k key w) [
    | inl same ↦ same ∙ h
    | inr gone ↦ gone.1
  ]

  -- What is absent stays absent.
  pub discard_all-absent :
      (rs : List Ref) (k : Kind) (key : Key) (w : W)
      → laws.at k key w ≡ none
      → laws.at k key (discard_all env rs w) ≡ none
  unfolding discard_all
  discard_all-absent [] k key w h = h
  discard_all-absent (r ∷ rs) k key w h =
      discard_all-absent rs k key (discard env r.0 r.1 w) (discard-absent r k key w h)

  discard-other :
      (r : Ref) (k : Kind) (key : Key) (w : W)
      → ¬ Same r.0 r.1 k key
      → laws.at k key (discard env r.0 r.1 w) ≡ laws.at k key w
  unfolding discard
  discard-other r k key w h = elim (laws.delete_cases r.0 r.1 k key w) [
    | inl same ↦ same
    | inr gone ↦ absurd (h gone.0)
  ]

  -- An object that is not listed stays as it is.
  pub discard_all-other :
      (rs : List Ref) (k : Kind) (key : Key) (w : W)
      → ((r : Ref) → In r rs → ¬ Same r.0 r.1 k key)
      → laws.at k key (discard_all env rs w) ≡ laws.at k key w
  unfolding discard_all
  discard_all-other [] k key w h = refl
  discard_all-other (r ∷ rs) k key w h =
      discard_all-other rs k key (discard env r.0 r.1 w) (λ r' m. h r' (inr m))
      ∙ discard-other r k key w (h r (inl refl))

  discard-gone : IsReliable env → (r : Ref) (w : W) → laws.at r.0 r.1 (discard env r.0 r.1 w) ≡ none
  unfolding discard
  discard-gone sure r w = elim (sure r.0 r.1 w) [
    | inl fine ↦ laws.delete_done r.0 r.1 w fine
    | inr (e, failed, missing) ↦ laws.delete_missing r.0 r.1 w e failed missing
  ]

  -- If deletions are reliable, every listed object is gone.
  pub discard_all-gone :
      IsReliable env
      → (rs : List Ref) (r : Ref) (w : W) → In r rs
      → laws.at r.0 r.1 (discard_all env rs w) ≡ none
  unfolding discard_all
  discard_all-gone sure [] r w m = elim m [ ]
  discard_all-gone sure (s ∷ rs) r w (inl e) =
      discard_all-absent rs r.0 r.1 (discard env s.0 s.1 w) (rw e (discard-gone sure s w))
  discard_all-gone sure (s ∷ rs) r w (inr m) = discard_all-gone sure rs r (discard env s.0 s.1 w) m
