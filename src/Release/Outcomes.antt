-- ===== src/Release/Outcomes.antt =====
-- How the release program ends, by the image's name.
use automq_operator.Base.{
  ℕ, String, none, some, Option, List, [], ◌∷◌, ◌≡◌, ◌≢◌, refl, ◌∙◌, ◌<>◌, length, nat_eq, ◌==◌,
  arith, Bool-cases, inl, inr,
}
use automq_operator.Kube.Objects.{Err}
use automq_operator.Api.Types.{default_image_name, busybox_image_name}
use automq_operator.Base.Pieces.{
  colon, letter_v, split_on, remove, occurrences, length-split_on, split_on-two,
}
use automq_operator.Release.{
  Os, Ended, exited, bash, or_exit, write_images, short_version, image_command, release_chart,
  release_version, release_image, release_main,
}
use Prim.Native.Char.{code}

remove-lacks : (x : ℕ) (s : String) → occurrences x (remove x s) ≡ 0
unfolding remove
remove-lacks x String.[] = refl
remove-lacks x (String.◌∷◌ c s) = elim (Bool-cases (nat_eq (code c) x)) [
  | inl e ↦ rw e (remove-lacks x s)
  | inr e ↦ rw (e, e) (remove-lacks x s)
]

short_version-lacks : (tag : String) → occurrences letter_v (short_version tag) ≡ 0
unfolding short_version
short_version-lacks tag = elim (Bool-cases (remove letter_v tag == "latest")) [
  | inl e ↦ rw e refl
  | inr e ↦ rw e (remove-lacks letter_v tag)
]

module _ {W : Type 0} (os : Os W) where
  -- The world before the first command.
  abbrev pub prepared : String → W → W
  prepared image w = write_images os (os.print ("image name is " <> image) w)

  -- `RunsUpTo commands w status v`: from `w` on, the shell runs the commands in order until one fails;
  -- the program ends with this status in the world `v`, after a last message.
  pub data RunsUpTo : List String → W → ℕ → W → Type 0 where
    ran : {w : W} → RunsUpTo [] w 0 (os.print "update image success" w)
    fails :
        {commands : List String} {w : W} (command : String) (e : Err) (w' : W)
        → os.run "bash" ("-c" ∷ command ∷ []) w ≡ (some e, w')
        → RunsUpTo (command ∷ commands) w 1 (os.print ("execCmd error " <> e.message) w')
    goes_on :
        {commands : List String} {w v : W} {status : ℕ} (command : String) (w' : W)
        → os.run "bash" ("-c" ∷ command ∷ []) w ≡ (none, w')
        → RunsUpTo commands w' status v
        → RunsUpTo (command ∷ commands) w status v

  -- The program ends after these commands.
  abbrev pub EndsAfter : List String → W → Ended W → Type 0
  EndsAfter commands w ended =
      (status : ℕ) × (v : W) × (ended ≡ exited status v) × RunsUpTo commands w status v

  or_exit-EndsAfter :
      (command : String) (commands : List String) (w : W) (x : Option Err × W) (next : W → Ended W)
      → os.run "bash" ("-c" ∷ command ∷ []) w ≡ x
      → ((v : W) → EndsAfter commands v (next v))
      → EndsAfter (command ∷ commands) w (or_exit os x next)
  or_exit-EndsAfter command commands w (some e, w') next ran_to rest =
      (1, _, refl, fails command e w' ran_to)
  or_exit-EndsAfter command commands w (none, w') next ran_to rest =
      let (status, v, ends, runs) = rest w' in (status, v, ends, goes_on command w' ran_to runs)

  release_chart-EndsAfter :
      (version : String) (w : W)
      → EndsAfter
          (("sed -i '/#replace_by_makefile/!b;n;c\\version: " <> version
              <> "' deploy/charts/automq-operator/Chart.yaml")
            ∷ ("scripts/release_tag.sh v" <> version)
            ∷ ("scripts/release_tag_sealos.sh v" <> version)
            ∷ [])
          w
          (release_chart os version w)
  unfolding release_chart
  release_chart-EndsAfter version w = or_exit-EndsAfter _ _ w _ _ refl (λ w.
      or_exit-EndsAfter _ _ w _ _ refl
        (λ w. or_exit-EndsAfter _ _ w _ _ refl (λ w. (0, _, refl, ran))))

  -- The world before the first command: the image's name is printed, and the two image files are written
  -- whether or not that succeeds.
  abbrev pub files_written : String → W → W
  files_written image w =
      let printed = os.print ("image name is " <> image) w in
      let made = (os.mkdir_all "deploy/images/shim" 493 printed).1 in
      let written = (os.write_file "deploy/images/shim/image.txt" default_image_name 493 made).1 in
      (os.write_file "deploy/images/shim/busybox.txt" busybox_image_name 493 written).1

  -- For an image's name with one colon, the program writes the two image files and has the shell run four
  -- commands in order, up to the first that fails: it ends with status 1 after one that fails, and else
  -- with status 0. The commands put the whole name into values.yaml and the version into Chart.yaml, and
  -- call the two release scripts with the version behind a "v". The version has no "v".
  pub release_main-EndsAfter :
      (program name tag : String) (w : W)
      → occurrences colon name ≡ 0
      → occurrences colon tag ≡ 0
      → let image = name <> ":" <> tag in
        EndsAfter
          (("sed -i '/#replace_by_makefile/!b;n;c\\image: " <> image
              <> "' deploy/charts/automq-operator/values.yaml")
            ∷ ("sed -i '/#replace_by_makefile/!b;n;c\\version: "
                <> short_version tag
                <> "' deploy/charts/automq-operator/Chart.yaml")
            ∷ ("scripts/release_tag.sh v" <> short_version tag)
            ∷ ("scripts/release_tag_sealos.sh v" <> short_version tag)
            ∷ [])
          (files_written image w)
          (release_main os (program ∷ image ∷ []) w)
        × (occurrences letter_v (short_version tag) ≡ 0)
  unfolding release_main release_version
  release_main-EndsAfter program name tag w h k = (
    or_exit-EndsAfter _ _ _ _ _ refl
        (λ v. rw (split_on-two name tag h k) (release_chart-EndsAfter (short_version tag) v)),
    short_version-lacks tag,
  )

  release_version-rejects :
      (parts : List String) (w : W)
      → length parts ≢ 2
      → release_version os parts w ≡ exited 1 (os.print "image name error" w)
  unfolding release_version
  release_version-rejects [] w h = refl
  release_version-rejects (a ∷ []) w h = refl
  release_version-rejects (a ∷ b ∷ []) w h = absurd (h refl)
  release_version-rejects (a ∷ b ∷ c ∷ parts) w h = refl

  or_exit-none :
      (x : Option Err × W) (next : W → Ended W) → x.0 ≡ none → or_exit os x next ≡ next x.1
  or_exit-none (none, w) next e = refl
  or_exit-none (some x, w) next e = cc

  -- A name without a colon or with several, such as that of an image in a registry with a port, is
  -- rejected with status 1, but only after the command that puts it into values.yaml has run.
  pub release_rejects_late :
      (program image : String) (w : W)
      → occurrences colon image ≢ 1
      → (bash os (image_command image) (prepared image w)).0 ≡ none
      → release_main os (program ∷ image ∷ []) w
        ≡ exited 1
            (os.print "image name error" (bash os (image_command image) (prepared image w)).1)
  unfolding release_main release_image
  release_rejects_late program image w h e =
      or_exit-none (bash os (image_command image) (prepared image w))
        (release_version os (split_on colon image)) e
      ∙ release_version-rejects (split_on colon image) _
          (λ two. h (ground (arith, length-split_on colon image)))
