-- ===== src/Api/Webhook/Admission.antt =====
-- The life of a stored object under admission: the API server stores an object only if the webhooks,
-- defaulting first, accept it.
use automq_operator.Base.{none, ◌≡◌, refl, ◌∙◌, ◌≢◌}
use automq_operator.Base.Int.{pos}
use automq_operator.Api.Types.{AutoMq}
use automq_operator.Api.Webhook.{default, validate_create, validate_update}
use automq_operator.Api.Webhook.Valid.{IsValid, SameFixed, validate_iff, validate_update_iff}
use automq_operator.Api.Webhook.Defaulted.{default-replicas}

-- `Stored first now`: `first` was stored by an accepted creation, and accepted updates led to `now`.
pub data Stored : AutoMq → AutoMq → Type 0 where
  created :
      (r first : AutoMq) → first ≡ default r → validate_create first ≡ none → Stored first first
  updated :
      {first now : AutoMq} (r next : AutoMq)
      → Stored first now
      → next ≡ default r
      → validate_update next now ≡ none
      → Stored first next

abbrev pub HasReplicas : AutoMq → Type 0
HasReplicas r = (r.spec.controller.replicas ≢ pos 0) × (r.spec.broker.replicas ≢ pos 0)

-- Whatever the admission of an object went through, it has the required fields, and its replica
-- counts are not 0.
pub Stored-IsValid : {first now : AutoMq} → Stored first now → IsValid now × HasReplicas now
unfolding validate_create
Stored-IsValid (created r first e v) = ((validate_iff first).0 v, rw e (default-replicas r))
Stored-IsValid (updated {now} r next s e v) =
    (((validate_update_iff next now).0 v).1, rw e (default-replicas r))

SameFixed-refl : (r : AutoMq) → SameFixed r r
SameFixed-refl r = record {
  endpoint = refl;
  region = refl;
  bucket = refl;
  cluster_id = refl;
  replicas = refl;
}

SameFixed-trans : (a b c : AutoMq) → SameFixed a b → SameFixed b c → SameFixed a c
SameFixed-trans a b c p q = record {
  endpoint = p.endpoint ∙ q.endpoint;
  region = p.region ∙ q.region;
  bucket = p.bucket ∙ q.bucket;
  cluster_id = p.cluster_id ∙ q.cluster_id;
  replicas = p.replicas ∙ q.replicas;
}

-- A stored object keeps, over all updates, the immutable fields that it was created with.
pub Stored-SameFixed : {first now : AutoMq} → Stored first now → SameFixed now first
Stored-SameFixed (created r first e v) = SameFixed-refl first
Stored-SameFixed (updated {first} {now} r next s e v) =
    SameFixed-trans next now first ((validate_update_iff next now).0 v).0 (Stored-SameFixed s)
