-- ===== src/Controller/Bootstrap/Image.antt =====
-- The image of the custom resource is nothing to the bootstrap service.
use automq_operator.Base.{String, Option, none, some, ◌≡◌, refl}
use automq_operator.Kube.Objects.{Err}
use automq_operator.Kube.Env.{Env}
use automq_operator.Api.Types.{AutoMq}
use automq_operator.Controller.Image.{with_image, IsBlind}
use automq_operator.Controller.Bootstrap.{report_bootstrap, sync_kafka_bootstrap_service}

module _ {W : Type 0} (env : Env W) (image : String) where
  report_bootstrap-image :
      (obj : AutoMq) (e : Option Err)
      → report_bootstrap env (with_image image obj) e
        ≡ with_image image (report_bootstrap env obj e)
  unfolding report_bootstrap
  report_bootstrap-image obj (some e) = refl
  report_bootstrap-image obj none = refl

  pub sync_kafka_bootstrap_service-IsBlind : IsBlind image (sync_kafka_bootstrap_service env)
  unfolding sync_kafka_bootstrap_service
  sync_kafka_bootstrap_service-IsBlind s = rw (report_bootstrap-image s.mq _) refl
