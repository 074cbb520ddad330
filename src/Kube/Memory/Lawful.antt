-- ===== src/Kube/Memory/Lawful.antt =====
-- The laws hold of the cluster in memory.
use automq_operator.Base.{
  String, true, false, Option, none, some, List, [], ◌∷◌, ◌≡◌, refl, ap, ◌⊎◌, inl, inr, sym, arith,
  ◌==◌, eq_iff, if◌then◌else◌, Bool-cases, Option-cases, ◌∙◌, ◌≢◌, subst, In,
}
use automq_operator.Kube.Objects.{
  Key, key_of, Kind, config_map, service, deployment, stateful_set, persistent_volume_claim, Object,
  meta_of, kind_eq, Service, ok, err,
}
use automq_operator.Kube.Laws.{last, Laws, StatusLaws, IsReliable, Same}
use automq_operator.Api.Types.{AutoMq}
use automq_operator.Kube.Memory.{
  Memory, key_eq, missing, found, named, replace, put_object, drop_object, base, has, without,
  memory,
}
use automq_operator.Kube.Memory.Conditions.{
  upsert-find, upsert-kept, upsert-members, upsert-IsDistinct,
}

kind_eq-same : (k k' : Kind) → kind_eq k k' ≡ true → k ≡ k'
kind_eq-same config_map config_map h = refl
kind_eq-same service service h = refl
kind_eq-same deployment deployment h = refl
kind_eq-same stateful_set stateful_set h = refl
kind_eq-same persistent_volume_claim persistent_volume_claim h = refl
kind_eq-same _ _ h = ground arith

kind_eq_refl : (k : Kind) → kind_eq k k ≡ true
kind_eq_refl config_map = refl
kind_eq_refl service = refl
kind_eq_refl deployment = refl
kind_eq_refl stateful_set = refl
kind_eq_refl persistent_volume_claim = refl

key_eq-same : (a b : Key) → key_eq a b ≡ true → a ≡ b
key_eq-same a b h = ground (arith, eq_iff a.namespace b.namespace, eq_iff a.name b.name)

pub key_eq_refl : (a : Key) → key_eq a a ≡ true
key_eq_refl a = ground (arith, eq_iff a.namespace a.namespace, eq_iff a.name a.name)

pub base-key :
    (k : Kind) (o : Object k) (old : Option (Object k))
    → key_of (meta_of k (base k o old)) ≡ key_of (meta_of k o)
base-key k o none = refl
base-key k o (some old) =
    elim (Bool-cases (key_eq (key_of (meta_of k old)) (key_of (meta_of k o)))) [
      | inl e ↦ rw e (key_eq-same _ _ e)
      | inr e ↦ rw e
    ]

drop-cases :
    (k : Kind) (key : Key) (k' : Kind) (key' : Key) (m : Memory)
    → ((drop_object k key m).objects k' key' ≡ m.objects k' key')
      ⊎ (Same k key k' key' × ((drop_object k key m).objects k' key' ≡ none))
drop-cases k key k' key' m = elim (Bool-cases (kind_eq k k')) [
  | inr e ↦ rw e (inl refl)
  | inl e ↦ elim (Bool-cases (key_eq key key')) [
    | inr e' ↦ rw (e, e') (inl refl)
    | inl e' ↦ rw (e, e') (inr ((kind_eq-same k k' e, key_eq-same key key' e'), refl))
  ]
]

pub memory-delete_cases :
    (k : Kind) (key : Key) (k' : Kind) (key' : Key) (m : Memory)
    → ((memory.delete k key m).1.objects k' key' ≡ m.objects k' key')
      ⊎ (Same k key k' key' × ((memory.delete k key m).1.objects k' key' ≡ none))
memory-delete_cases k key k' key' m = elim (Option-cases (m.objects k key)) [
  | inl e ↦ rw e (inl refl)
  | inr (o, e) ↦ rw e (drop-cases k key k' key' m)
]

pub memory-delete_gone :
    (k : Kind) (key : Key) (m : Memory) → (memory.delete k key m).1.objects k key ≡ none
memory-delete_gone k key m = elim (Option-cases (m.objects k key)) [
  | inl e ↦ rw e e
  | inr (o, e) ↦ rw e (rw (kind_eq_refl k, key_eq_refl key))
]

replace-frame :
    (k k' : Kind) (o : Object k) (old : Option (Object k')) → ¬ (k ≡ k') → replace k k' o old ≡ old
replace-frame config_map config_map o old h = absurd (h refl)
replace-frame service service o old h = absurd (h refl)
replace-frame deployment deployment o old h = absurd (h refl)
replace-frame stateful_set stateful_set o old h = absurd (h refl)
replace-frame persistent_volume_claim persistent_volume_claim o old h = absurd (h refl)
replace-frame _ _ o old h = refl

pub replace_self : (k : Kind) (o : Object k) (old : Option (Object k)) → replace k k o old ≡ some o
replace_self config_map o old = refl
replace_self service o old = refl
replace_self deployment o old = refl
replace_self stateful_set o old = refl
replace_self persistent_volume_claim o old = refl

pub put_object-frame :
    (k : Kind) (key : Key) (o : Object k) (k' : Kind) (key' : Key) (m : Memory)
    → ¬ Same k key k' key'
    → (put_object k key o m).objects k' key' ≡ m.objects k' key'
put_object-frame k key o k' key' m h = elim (Bool-cases (key_eq key key')) [
  | inr e ↦ rw e
  | inl e ↦ rw e (replace-frame k k' o _ (λ same. h (same, key_eq-same key key' e)))
]

pub found-eq-ok : {A : Type 0} (o : Option A) (a : A) → found o ≡ ok a → o ≡ some a
found-eq-ok none a h = cc
found-eq-ok (some b) a h = cc

not_first : (t f : String) (l : List String) → (t == f) ≡ false → ¬ In f l → ¬ In f (t ∷ l)
not_first t f l e h (inl same) = ground (arith, eq_iff t f)
not_first t f l e h (inr m) = h m

pub without-gone : (l : List String) (f : String) → ¬ In f (without l f)
without-gone [] f m = m
without-gone (t ∷ ts) f m = elim (Bool-cases (t == f)) [
  | inl e ↦
      let fewer : without (t ∷ ts) f ≡ without ts f = rw e refl in
      without-gone ts f (subst (In f) fewer m)
  | inr e ↦
      let kept : without (t ∷ ts) f ≡ t ∷ without ts f = rw e refl in
      not_first t f (without ts f) e (without-gone ts f) (subst (In f) kept m)
]

pub has-missing : (l : List String) (f : String) → has l f ≡ false → ¬ In f l
has-missing [] f h m = m
has-missing (t ∷ ts) f h m = elim (Bool-cases (t == f)) [
  | inl e ↦ ground arith
  | inr e ↦ not_first t f ts e (has-missing ts f (ground arith)) m
]

-- The laws hold of the cluster in memory; it stores what it is sent.
abbrev pub memory_laws : Laws memory
memory_laws = record {
  at = λ k key m. m.objects k key;
  holds = λ k sent held. sent ≡ held;
  holds_ports = λ sent held e h. subst (λ (x : Service). x.ports ≢ []) e h;
  delete_cases = memory-delete_cases;
  delete_done = λ k key m h. memory-delete_gone k key m;
  delete_missing = λ k key m e h h'. memory-delete_gone k key m;
  create_or_update_key = λ k mutate o m h. h _ ∙ base-key k o _;
  create_or_update_frame = λ k mutate o k' key' m h. put_object-frame k _ _ k' key' m h;
  create_or_update_done = λ k mutate o m h. (
    base k o (m.objects k (key_of (meta_of k o))),
    mutate (base k o (m.objects k (key_of (meta_of k o)))),
    base-key k o _,
    rw key_eq_refl (replace_self k _ _),
    refl,
  );
  get_frame = λ k key k' key' m. refl;
  get_done = λ k key m o h. found-eq-ok _ o h;
  get_auto_mq_frame = λ key k' key' m. refl;
  update_auto_mq_frame = λ obj k' key' m. refl;
  update_auto_mq_key = λ obj m. refl;
  update_auto_mq_status_frame = λ obj k' key' m. refl;
  list_pods_frame = λ namespace labels k' key' m. refl;
  create_bucket_frame = λ cfg bucket k' key' m. refl;
  condition_set = upsert-find;
  condition_kept = upsert-kept;
  finalizer_removed = without-gone;
  finalizer_missing = has-missing;
  retry_attempts = λ S f s. last refl;
}

pub memory-IsReliable : IsReliable memory
memory-IsReliable k key m = elim (Option-cases (m.objects k key)) [
  | inl e ↦ rw e (inr (missing, refl, refl))
  | inr (o, e) ↦ rw e (inl refl)
]

pub read_named :
    (key : Key) (held : Option AutoMq) (obj : AutoMq)
    → found (named key held) ≡ ok obj
    → (held ≡ some obj) × (key_of obj.metadata ≡ key)
read_named key none obj h = cc
read_named key (some mq) obj h = elim (Bool-cases (key_eq (key_of mq.metadata) key)) [
  | inl e ↦
      let same : ok mq ≡ ok obj = subst (λ b. found (if b then some mq else none) ≡ ok obj) e h in
      let is : mq ≡ obj = cc same in
      (ap some is, ap (λ (x : AutoMq). key_of x.metadata) (sym is) ∙ key_eq-same _ _ e)
  | inr e ↦
      let gone : err missing ≡ ok obj =
        subst (λ b. found (if b then some mq else none) ≡ ok obj) e h in
      cc gone
]

abbrev pub memory_status_laws : StatusLaws memory
memory_status_laws = record {
  held = λ key m. m.mqs key;
  read_done = λ key m obj h. read_named key (m.mqs key) obj h;
  status_done = λ obj m h. (obj, rw key_eq_refl refl, refl);
  condition_members = upsert-members;
  condition_distinct = upsert-IsDistinct;
}
