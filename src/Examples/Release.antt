-- ===== src/Examples/Release.antt =====
-- The release program, in a world that holds the commands that were run, the last one first.
use automq_operator.Base.{String, none, List, [], ◌∷◌, ◌≡◌, ◌≢◌, refl, arith}
use automq_operator.Base.Pieces.{colon, letter_v, occurrences}
use automq_operator.Release.{
  Os, exited, short_version, image_command, chart_command, readme_command, sealos_command,
  release_main,
}
use automq_operator.Release.Outcomes.{
  EndsAfter, files_written, release_main-EndsAfter, release_rejects_late,
}

abbrev os : Os (List String)
os = record {
  mkdir_all = λ path mode w. (none, w);
  write_file = λ path text mode w. (none, w);
  run = λ name args w. (none, elim args [ f ∷ c ∷ [] ↦ c ∷ w | _ ↦ w ]);
  print = λ text w. w;
}

latest : short_version "latest" ≡ "0.0.0"
unfolding short_version
latest = refl

release_main-EndsAfter_example :
    EndsAfter os
      (image_command "labring/automq-operator:v0.0.3"
        ∷ chart_command (short_version "v0.0.3")
        ∷ readme_command (short_version "v0.0.3")
        ∷ sealos_command (short_version "v0.0.3")
        ∷ [])
      (files_written os "labring/automq-operator:v0.0.3" [])
      (release_main os ("gen" ∷ "labring/automq-operator:v0.0.3" ∷ []) [])
    × (occurrences letter_v (short_version "v0.0.3") ≡ 0)
release_main-EndsAfter_example =
    release_main-EndsAfter os "gen" "labring/automq-operator" "v0.0.3" [] refl refl

two_colons : occurrences colon "localhost:5000/automq-operator:v0.0.3" ≢ 1
two_colons h = absurd (omega (arith, h))

release_rejects_late_example :
    release_main os ("gen" ∷ "localhost:5000/automq-operator:v0.0.3" ∷ []) []
    ≡ exited 1 (image_command "localhost:5000/automq-operator:v0.0.3" ∷ [])
release_rejects_late_example =
    release_rejects_late os "gen" "localhost:5000/automq-operator:v0.0.3" [] two_colons refl
