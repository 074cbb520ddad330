-- ===== src/Controller/Image.antt =====
-- Custom resources that differ in their image, and methods that do not see the difference.
use automq_operator.Base.{String, Bool, ◌≡◌}
use automq_operator.Api.Types.{AutoMq}
use automq_operator.Controller.State.{State, Outcome, done, panicked, Method}

abbrev pub with_image : String → AutoMq → AutoMq
with_image image obj = record obj { spec = record obj.spec { image = image } }

module _ {W : Type 0} (image : String) where
  abbrev pub state_image : State W → State W
  state_image s = record s { mq = with_image image s.mq }

  abbrev pub answer_image : Outcome (Bool × State W) → Outcome (Bool × State W)
  answer_image panicked = panicked
  answer_image (done (b, s)) = done (b, state_image s)

  abbrev pub outcome_image : Outcome (State W) → Outcome (State W)
  outcome_image panicked = panicked
  outcome_image (done s) = done (state_image s)

  -- The method does the same whatever the image.
  abbrev pub IsBlind : Method W → Type 0
  IsBlind f = (s : State W) → f (state_image s) ≡ answer_image (f s)
