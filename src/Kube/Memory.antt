-- ===== src/Kube/Memory.antt =====
-- A cluster in memory, on which the model runs: it shows that the laws can hold, and serves the tests
-- and the witnesses. Its calls do not fail but for objects that are missing.
pub mod Conditions
pub mod Lawful
use automq_operator.Base.{
  String, Bool, true, false, Option, none, some, List, [], ◌∷◌, ◌++◌, ◌≡◌, refl, ◌⊎◌, inl, inr,
  arith, ◌==◌, ◌&&◌, eq_iff, if◌then◌else◌, Bool-cases, Option-cases, ◌∙◌, ◌≢◌, subst, In,
}
use automq_operator.Kube.Objects.{
  Key, key_of, Kind, config_map, service, deployment, stateful_set, persistent_volume_claim, Object,
  meta_of, kind_eq, Pod, Service, find_condition, Condition, Err, not_found, Result, ok, err,
}
use automq_operator.Kube.Env.{Env}
use automq_operator.Api.Types.{AutoMq}

pub record Memory : Type 0 where
  pub objects : (k : Kind) → Key → Option (Object k)
  pub mqs : Key → Option AutoMq
  pub pods : List Pod
  pub buckets : List String

abbrev pub key_eq : Key → Key → Bool
key_eq a b = a.namespace == b.namespace && a.name == b.name

abbrev pub missing : Err
missing = record { reason = not_found; message = "not found" }

abbrev pub found : {A : Type 0} → Option A → Result A
found none = err missing
found (some a) = ok a

-- The custom resource, if it has the name that it is asked for under.
abbrev pub named : Key → Option AutoMq → Option AutoMq
named key none = none
named key (some mq) = if key_eq (key_of mq.metadata) key then some mq else none

-- The object of kind `k'` once `o` is in the place of the object of kind `k`.
abbrev pub replace : (k k' : Kind) → Object k → Option (Object k') → Option (Object k')
replace config_map config_map o old = some o
replace service service o old = some o
replace deployment deployment o old = some o
replace stateful_set stateful_set o old = some o
replace persistent_volume_claim persistent_volume_claim o old = some o
replace _ _ o old = old

abbrev pub put_object : (k : Kind) → Key → Object k → Memory → Memory
put_object k key o m = record m {
  objects =
      λ k' key'. if key_eq key key' then replace k k' o (m.objects k' key') else m.objects k' key';
}

abbrev pub drop_object : Kind → Key → Memory → Memory
drop_object k key m = record m {
  objects = λ k' key'. if kind_eq k k' && key_eq key key' then none else m.objects k' key';
}

abbrev pub delete_found {ℓ} : {A : Type ℓ} → Option A → Kind → Key → Memory → Option Err × Memory
delete_found none k key m = (some missing, m)
delete_found (some o) k key m = (none, drop_object k key m)

-- What the server has under the object's name, or the object itself.
abbrev pub base : (k : Kind) → Object k → Option (Object k) → Object k
base k o none = o
base k o (some old) = if key_eq (key_of (meta_of k old)) (key_of (meta_of k o)) then old else o

abbrev pub write :
    (k : Kind) → (Object k → Object k) → Object k × Memory → Option Err × (Object k × Memory)
write k mutate (o, m) =
    let key = key_of (meta_of k o) in
    let o' = mutate (base k o (m.objects k key)) in (none, (o', put_object k key o' m))

-- `meta.SetStatusCondition`: the condition of the type is replaced, or appended.
abbrev pub upsert : List Condition → Condition → List Condition
upsert [] c = c ∷ []
upsert (d ∷ ds) c = if d.type == c.type then c ∷ ds else d ∷ upsert ds c

abbrev pub has : List String → String → Bool
has [] s = false
has (t ∷ ts) s = if t == s then true else has ts s

abbrev pub without : List String → String → List String
without [] s = []
without (t ∷ ts) s = let rest = without ts s in if t == s then rest else t ∷ rest

abbrev pub put_mq : AutoMq → Memory → Memory
put_mq mq m = record m {
  mqs = λ key. if key_eq (key_of mq.metadata) key then some mq else m.mqs key;
}

abbrev pub memory : Env Memory
memory = record {
  get = λ k key m. (found (m.objects k key), m);
  delete = λ k key m. delete_found (m.objects k key) k key m;
  list_pods = λ namespace labels m. (ok m.pods, m);
  get_node_addresses = λ name m. (err missing, m);
  get_auto_mq = λ key m. (found (named key (m.mqs key)), m);
  update_auto_mq = λ s. (none, (s.0, put_mq s.0 s.1));
  update_auto_mq_status = λ mq m. (none, put_mq mq m);
  create_or_update = write;
  retry_on_conflict = λ S f s. f s;
  contains_finalizer = has;
  add_finalizer = λ l s. if has l s then l else l ++ s ∷ [];
  remove_finalizer = without;
  set_status_condition = upsert;
  load_default_config = λ cfg. none;
  create_bucket = λ cfg bucket m. (none, record m { buckets = bucket ∷ m.buckets });
  up_sh = "script";
  hash = λ text. text;
  operator_apis_ip = "10.0.0.1";
  odd_log_panics = false;
}
