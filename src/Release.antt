-- ===== src/Release.antt =====
-- gen/version/gen.go: the program that writes an image's name and version into the chart and starts
-- the scripts that tag a release. `Os` is what it calls of the packages `os`, `os/exec` and `fmt`.
pub mod Outcomes
use automq_operator.Base.{ℕ, String, Option, none, some, List, [], ◌∷◌, ◌==◌, ◌<>◌, if◌then◌else◌}
use automq_operator.Kube.Objects.{Err}
use automq_operator.Api.Types.{default_image_name, busybox_image_name}
use automq_operator.Base.Pieces.{colon, letter_v, split_on, remove}

pub record Os (W : Type 0) : Type 0 where
  pub mkdir_all : (path : String) (mode : ℕ) → W → Option Err × W
  pub write_file : (path text : String) (mode : ℕ) → W → Option Err × W
  -- `exec.Command(name, args...).Run()`
  pub run : (name : String) (args : List String) → W → Option Err × W
  pub print : String → W → W

-- How the program ends: by its end (0) or `os.Exit`, or by a panic; and the world that it leaves.
pub data Ended (W : Type 0) : Type 0 where
  exited : (status : ℕ) → W → Ended W
  panicked : W → Ended W

-- 0755
abbrev mode : ℕ
mode = 493

abbrev pub image_command : String → String
image_command image =
    "sed -i '/#replace_by_makefile/!b;n;c\\image: " <> image
    <> "' deploy/charts/automq-operator/values.yaml"

abbrev pub chart_command : String → String
chart_command version =
    "sed -i '/#replace_by_makefile/!b;n;c\\version: " <> version
    <> "' deploy/charts/automq-operator/Chart.yaml"

abbrev pub readme_command : String → String
readme_command version = "scripts/release_tag.sh v" <> version

abbrev pub sealos_command : String → String
sealos_command version = "scripts/release_tag_sealos.sh v" <> version

-- `shotVersion`
unfoldable pub short_version : String → String
unfolding remove
short_version tag =
    let version = remove letter_v tag in if version == "latest" then "0.0.0" else version

module _ {W : Type 0} (os : Os W) where
  abbrev pub bash : String → W → Option Err × W
  bash command w = os.run "bash" ("-c" ∷ command ∷ []) w

  -- `if err := execCmd("bash", "-c", command); err != nil { ... os.Exit(1) }`, then the rest.
  abbrev or_exit : Option Err × W → (W → Ended W) → Ended W
  or_exit (some e, w) next = exited 1 (os.print ("execCmd error " <> e.message) w)
  or_exit (none, w) next = next w

  abbrev write_images : W → W
  write_images w =
      let made = (os.mkdir_all "deploy/images/shim" mode w).1 in
      let image = (os.write_file "deploy/images/shim/image.txt" default_image_name mode made).1 in
      (os.write_file "deploy/images/shim/busybox.txt" busybox_image_name mode image).1

  release_chart : String → W → Ended W
  release_chart version w = or_exit (bash (chart_command version) w) (λ w.
      or_exit (bash (readme_command version) w) (λ w.
        or_exit (bash (sealos_command version) w)
          (λ w. exited 0 (os.print "update image success" w))))

  release_version : List String → W → Ended W
  unfolding release_chart short_version
  release_version (image ∷ tag ∷ []) w = release_chart (short_version tag) w
  release_version [] w = exited 1 (os.print "image name error" w)
  release_version (part ∷ []) w = exited 1 (os.print "image name error" w)
  release_version (image ∷ tag ∷ other ∷ parts) w = exited 1 (os.print "image name error" w)

  release_image : String → W → Ended W
  unfolding release_version split_on
  release_image image w =
      or_exit (bash (image_command image) (write_images (os.print ("image name is " <> image) w)))
        (release_version (split_on colon image))

  -- `main`, with `os.Args`; without arguments at all, `os.Args[0]` panics.
  unfoldable pub release_main : List String → W → Ended W
  unfolding release_image
  release_main [] w = panicked w
  release_main (program ∷ image ∷ []) w = release_image image w
  release_main (program ∷ []) w = exited 1 (os.print ("Usage: " <> program <> " IMAGE_NAME\n") w)
  release_main (program ∷ image ∷ other ∷ args) w =
      exited 1 (os.print ("Usage: " <> program <> " IMAGE_NAME\n") w)
