-- ===== src/Kube/Laws.antt =====
-- The documented behaviour of the calls in `Env` that the theorems rely on, as hypotheses.
use automq_operator.Base.{
  String, Option, none, some, List, [], ◌≡◌, ◌≢◌, ◌⊎◌, true, false, In, ◌∷◌, All,
}
use automq_operator.Kube.Objects.{
  Key, key_of, Kind, service, deployment, persistent_volume_claim, Object, meta_of, Err, Service,
  is_not_found, ok, Dict, Condition, find_condition,
}
use automq_operator.Api.Types.{AutoMq}
use automq_operator.Storage.{AwsConfig}
use automq_operator.Kube.Env.{Env}

-- The attempts of `RetryOnConflict`: each but the last ended in a conflict error, and the last one's
-- answer is the answer. (When the attempts run out, the last error is returned.)
pub data Attempts {S : Type 0} (f : S → Option Err × S) (e : Option Err) (s' : S) : S → Type 0 where
  last : {s : S} → f s ≡ (e, s') → Attempts f e s' s
  again : {s : S} (c : Err) (t : S) → f s ≡ (some c, t) → Attempts f e s' t → Attempts f e s' s

-- Two requests name the same object.
abbrev pub Same : Kind → Key → Kind → Key → Type 0
Same k key k' key' = (k ≡ k') × (key ≡ key')

-- `at k key w` is the object that the server holds in the world `w`, unless it is being deleted.
pub record Laws {W : Type 0} (env : Env W) : Type 1 where
  pub at : (k : Kind) → Key → W → Option (Object k)
  -- `holds k sent held`: for the object `sent` the server may come to hold `held`, in which it has
  -- filled in defaults and its own fields. It does not take the ports of a service away.
  pub holds : (k : Kind) → Object k → Object k → Type 0
  pub holds_ports :
      (sent held : Service) → holds service sent held → sent.ports ≢ [] → held.ports ≢ []
  -- A deletion changes no other object, and leaves its own as it was or deletes it.
  pub delete_cases :
      (k : Kind) (key : Key) (k' : Kind) (key' : Key) (w : W)
      → (at k' key' (env.delete k key w).1 ≡ at k' key' w)
        ⊎ (Same k key k' key' × (at k' key' (env.delete k key w).1 ≡ none))
  -- A deletion that succeeds, or does not find its object, leaves no such object.
  pub delete_done :
      (k : Kind) (key : Key) (w : W)
      → (env.delete k key w).0 ≡ none
      → at k key (env.delete k key w).1 ≡ none
  pub delete_missing :
      (k : Kind) (key : Key) (w : W) (e : Err)
      → (env.delete k key w).0 ≡ some e
      → is_not_found e ≡ true
      → at k key (env.delete k key w).1 ≡ none
  -- CreateOrUpdate changes no other object. If it succeeds, the server holds what `mutate` made of the
  -- object as it was. The object in memory keeps its name if `mutate` does.
  pub create_or_update_key :
      (k : Kind) (mutate : Object k → Object k) (o : Object k) (w : W)
      → ((b : Object k) → key_of (meta_of k (mutate b)) ≡ key_of (meta_of k b))
      → key_of (meta_of k (env.create_or_update k mutate (o, w)).1.0) ≡ key_of (meta_of k o)
  pub create_or_update_frame :
      (k : Kind) (mutate : Object k → Object k) (o : Object k) (k' : Kind) (key' : Key) (w : W)
      → ¬ Same k (key_of (meta_of k o)) k' key'
      → at k' key' (env.create_or_update k mutate (o, w)).1.1 ≡ at k' key' w
  pub create_or_update_done :
      (k : Kind) (mutate : Object k → Object k) (o : Object k) (w : W)
      → (env.create_or_update k mutate (o, w)).0 ≡ none
      → (b held : Object k) × (key_of (meta_of k b) ≡ key_of (meta_of k o))
        × (at k (key_of (meta_of k o)) (env.create_or_update k mutate (o, w)).1.1 ≡ some held)
        × holds k (mutate b) held
  -- Reading changes nothing.
  pub get_frame :
      (k : Kind) (key : Key) (k' : Kind) (key' : Key) (w : W)
      → at k' key' (env.get k key w).1 ≡ at k' key' w
  -- A read that succeeds returns what the server holds.
  pub get_done :
      (k : Kind) (key : Key) (w : W) (o : Object k)
      → (env.get k key w).0 ≡ ok o
      → at k key w ≡ some o
  -- The calls for custom resources, pods and buckets touch none of these objects; an update keeps the
  -- custom resource's name.
  pub get_auto_mq_frame :
      (key : Key) (k' : Kind) (key' : Key) (w : W)
      → at k' key' (env.get_auto_mq key w).1 ≡ at k' key' w
  pub update_auto_mq_frame :
      (obj : AutoMq) (k' : Kind) (key' : Key) (w : W)
      → at k' key' (env.update_auto_mq (obj, w)).1.1 ≡ at k' key' w
  pub update_auto_mq_key :
      (obj : AutoMq) (w : W)
      → key_of (env.update_auto_mq (obj, w)).1.0.metadata ≡ key_of obj.metadata
  pub update_auto_mq_status_frame :
      (obj : AutoMq) (k' : Kind) (key' : Key) (w : W)
      → at k' key' (env.update_auto_mq_status obj w).1 ≡ at k' key' w
  pub list_pods_frame :
      (namespace : String) (labels : Dict) (k' : Kind) (key' : Key) (w : W)
      → at k' key' (env.list_pods namespace labels w).1 ≡ at k' key' w
  pub create_bucket_frame :
      (cfg : AwsConfig) (bucket : String) (k' : Kind) (key' : Key) (w : W)
      → at k' key' (env.create_bucket cfg bucket w).1 ≡ at k' key' w
  -- SetStatusCondition sets the condition of the type, and leaves those of the other types.
  pub condition_set :
      (cs : List Condition) (c : Condition)
      → find_condition (env.set_status_condition cs c) c.type ≡ some c
  pub condition_kept :
      (cs : List Condition) (c : Condition) (type : String)
      → c.type ≢ type
      → find_condition (env.set_status_condition cs c) type ≡ find_condition cs type
  -- RemoveFinalizer takes every copy of the finalizer away, and ContainsFinalizer finds one.
  pub finalizer_removed : (l : List String) (f : String) → ¬ In f (env.remove_finalizer l f)
  pub finalizer_missing :
      (l : List String) (f : String) → env.contains_finalizer l f ≡ false → ¬ In f l
  pub retry_attempts :
      (S : Type 0) (f : S → Option Err × S) (s : S)
      → Attempts f (env.retry_on_conflict S f s).0 (env.retry_on_conflict S f s).1 s

-- Every deletion succeeds or does not find its object.
abbrev pub IsReliable : {W : Type 0} → Env W → Type 0
IsReliable {W} env =
    (k : Kind) (key : Key) (w : W)
    → ((env.delete k key w).0 ≡ none)
      ⊎ ((e : Err) × ((env.delete k key w).0 ≡ some e) × (is_not_found e ≡ true))

-- The kinds of the objects that the operator keeps for a replica.
abbrev pub IsCleaned : Kind → Type 0
IsCleaned k = (k ≡ service) ⊎ ((k ≡ deployment) ⊎ (k ≡ persistent_volume_claim))

-- No two conditions have the same type.
abbrev pub IsDistinct : List Condition → Type 0
IsDistinct [] = Unit
IsDistinct (c ∷ cs) = All (λ d. c.type ≢ d.type) cs × IsDistinct cs

-- The documented behaviour of the calls for the custom resource's status.
pub record StatusLaws {W : Type 0} (env : Env W) : Type 1 where
  -- The custom resource that the server holds in the world `w`.
  pub held : Key → W → Option AutoMq
  pub read_done :
      (key : Key) (w : W) (obj : AutoMq)
      → (env.get_auto_mq key w).0 ≡ ok obj
      → (held key w ≡ some obj) × (key_of obj.metadata ≡ key)
  -- A status update that succeeds stores the status.
  pub status_done :
      (obj : AutoMq) (w : W)
      → (env.update_auto_mq_status obj w).0 ≡ none
      → (o : AutoMq) × (held (key_of obj.metadata) (env.update_auto_mq_status obj w).1 ≡ some o)
        × (o.status ≡ obj.status)
  -- SetStatusCondition brings in no other condition, and no second one of a type.
  pub condition_members :
      (cs : List Condition) (c d : Condition)
      → In d (env.set_status_condition cs c)
      → (d ≡ c) ⊎ In d cs
  pub condition_distinct :
      (cs : List Condition) (c : Condition)
      → IsDistinct cs
      → IsDistinct (env.set_status_condition cs c)
