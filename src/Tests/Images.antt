-- ===== src/Tests/Images.antt =====
-- The laws of images, each applied to a run in which its hypotheses hold.
use bivouac.Prelude.{
  All, ℕ, true, ◌≡◌, refl, String, Option, none, some, [], ◌∷◌, ◌==◌, if◌then◌else◌, ok,
}
use bivouac.Image.Markers.{Number, natural, Scope, valid_user_tag}
use bivouac.Image.Eligible.{Image, eligible, sort_newest}
use bivouac.Image.Retention.{PrunePlan, plan_prune}
use bivouac.Image.Retention.Laws.{plan_prune-overflow}
use bivouac.Image.Resolve.{Catalog, Request, Resolution}
use bivouac.Image.Execute.{ImageManager, ids, IsReport, execute_prune, execute_prune-IsReport}

abbrev small_numbers : String → Option Number
small_numbers text =
    if text == "1" then some (natural 1) else if text == "2" then some (natural 2) else none

abbrev image_of : String → ℕ → Image
image_of id created = record {
  id = id;
  name = "";
  kind = "snapshot";
  status = "available";
  tags =
      "bivouac-image" ∷ "bivouac-format-1" ∷ "bivouac-arch-x86" ∷ "bivouac-region-nyc3"
      ∷ "bivouac-shell-bash" ∷ "dev" ∷ [];
  regions = "nyc3" ∷ [];
  min_disk_gb = 0;
  created = created;
}

abbrev dev : Scope
dev = record { tag = "dev"; arch = "x86"; region = "nyc3" }

-- The newer of two images is kept.
abbrev keep_newest : PrunePlan
keep_newest = record { scope = dev; kept = image_of "2" 20 ∷ []; doomed = image_of "1" 10 ∷ [] }

-- The plan that deletes both images, for the greatest number to keep.
abbrev keep_none : PrunePlan
keep_none = record { scope = dev; kept = []; doomed = image_of "1" 10 ∷ image_of "2" 20 ∷ [] }

no_image :
    plan_prune small_numbers
      (image_of "1" 10 ∷ image_of "2" 20 ∷ [])
      dev
      (natural 9_223_372_036_854_775_807)
      ""
    ≡ ok keep_none
unfolding plan_prune eligible sort_newest valid_user_tag
no_image = refl

plan_prune-overflow_example : All (λ img. img.id ≡ "") keep_none.kept
plan_prune-overflow_example =
    plan_prune-overflow small_numbers (image_of "1" 10 ∷ image_of "2" 20 ∷ []) dev ""
      {plan = keep_none} no_image

abbrev cloud : ImageManager
cloud = record {
  Cloud = Unit {0};
  get_image = λ id c. (ok (image_of id 10), c);
  delete_image = λ id c. (none, c);
}

execute_prune-IsReport_example :
    IsReport small_numbers cloud dev
      (ids keep_newest.doomed)
      tt
      (execute_prune small_numbers cloud tt keep_newest)
execute_prune-IsReport_example = execute_prune-IsReport small_numbers cloud tt keep_newest

abbrev catalog : Catalog
catalog = record {
  list_images = λ tag. ok (image_of "1" 10 ∷ image_of "2" 20 ∷ []);
  get_image = λ id. ok (image_of id 10);
  size_disk_gb = λ size. ok 50;
}

abbrev dev_request : Request
dev_request = record { ref = "tag:dev"; arch = "x86"; region = "nyc3"; size = "s"; shell = "bash" }

abbrev launch : Resolution
launch = record { requested = "tag:dev"; image = "2"; baked = true; shell = "bash" }
