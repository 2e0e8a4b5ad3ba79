-- ===== src/Image/Resolve.antt =====
-- The image that a launch uses: Resolve of internal/image/resolve.go. What is asked of the cloud
-- is a parameter; a request is for an image of an architecture and region.
use bivouac.Prelude.{
  ℕ, Bool, true, false, ◌≡◌, ◌≤◌, ◌⊎◌, String, Option, none, some, List, [], ◌∷◌, cut_prefix, eqb,
  ltb, if◌then◌else◌, Result, ok, err,
}
use bivouac.Image.Markers.{Number, natural, Markers, Scope, TagError, valid_user_tag, parse_markers}
use bivouac.Image.Eligible.{Image, Reason, ineligible, eligible}
use bivouac.Image.Execute.{CloudError}
use bivouac.Image.Retention.{candidates}

pub record Request : Type 0 where
  pub ref : String
  pub arch : String
  pub region : String
  pub size : String
  pub shell : String

pub record Resolution : Type 0 where
  pub requested : String
  pub image : String
  pub baked : Bool
  pub shell : String

pub data ResolveError : Type 0 where
  bad_tag : TagError → ResolveError
  unsupported none_ready : ResolveError
  cloud_error : CloudError → ResolveError
  cannot_launch : Reason → ResolveError
  disk_too_small : ℕ → ℕ → ResolveError

-- What the answers of provider.ImageManager are at the time of the launch.
pub record Catalog : Type 0 where
  pub list_images : String → Result CloudError (List Image)
  pub get_image : String → Result CloudError Image
  pub size_disk_gb : String → Result CloudError ℕ

abbrev pub is_positive : Option Number → Bool
is_positive (some (natural n)) = ltb 0 n
is_positive _ = false

module _ (atoi : String → Option Number) where
  abbrev pub asked : Request → String → Scope
  asked req tag = record { tag = tag; arch = req.arch; region = req.region }

  unfoldable pub first_ready : List Image → Result ResolveError Image
  first_ready [] = err none_ready
  first_ready (img ∷ l) = ok img

  unfoldable pub newest_of : Scope → Result CloudError (List Image) → Result ResolveError Image
  unfolding first_ready
  newest_of s (err e) = err (cloud_error e)
  newest_of s (ok l) = first_ready (candidates atoi l s)

  -- newestTagged
  unfoldable pub newest_tagged : Catalog → String → Request → Result ResolveError Image
  unfolding newest_of
  newest_tagged m tag req = newest_of (asked req tag) (m.list_images tag)

  unfoldable pub launchable : Image → Option Reason → Result ResolveError Image
  launchable img none = ok img
  launchable img (some why) = err (cannot_launch why)

  unfoldable pub valid_image : Scope → Result CloudError Image → Result ResolveError Image
  unfolding launchable
  valid_image s (err e) = err (cloud_error e)
  valid_image s (ok img) = launchable img (ineligible atoi img s)

  -- validatedID
  unfoldable pub validated_id : Catalog → Request → Result ResolveError Image
  unfolding valid_image
  validated_id m req = valid_image (asked req "") (m.get_image req.ref)

  unfoldable pub enough_disk : Image → Result CloudError ℕ → Option ResolveError
  enough_disk img (err e) = some (cloud_error e)
  enough_disk img (ok disk) =
      if ltb disk img.min_disk_gb then some (disk_too_small img.min_disk_gb disk) else none

  -- checkDisk
  unfoldable pub check_disk : Catalog → Image → String → Option ResolveError
  unfolding enough_disk
  check_disk m img size =
      if eqb img.min_disk_gb 0 then none else enough_disk img (m.size_disk_gb size)

  abbrev pub shell_of : Option Markers → String
  shell_of none = ""
  shell_of (some mk) = mk.shell

  unfoldable pub baked_of : Request → Image → Option ResolveError → Result ResolveError Resolution
  unfolding parse_markers
  baked_of req img (some e) = err e
  baked_of req img none = ok (record {
    requested = req.ref;
    image = img.id;
    baked = true;
    shell = shell_of (parse_markers atoi img.tags);
  })

  unfoldable pub chosen :
      Catalog → Request → Result ResolveError Image → Result ResolveError Resolution
  unfolding check_disk baked_of
  chosen m req (err e) = err e
  chosen m req (ok img) = baked_of req img (check_disk m img req.size)

  unfoldable pub resolve_tag :
      Option Catalog → Request → String → Option TagError → Result ResolveError Resolution
  unfolding newest_tagged chosen
  resolve_tag m req tag (some e) = err (bad_tag e)
  resolve_tag none req tag none = err unsupported
  resolve_tag (some m) req tag none = chosen m req (newest_tagged m tag req)

  unfoldable pub resolve_id : Option Catalog → Request → Result ResolveError Resolution
  unfolding validated_id chosen
  resolve_id none req = err unsupported
  resolve_id (some m) req = chosen m req (validated_id m req)

  unfoldable pub resolve_ref :
      Option Catalog → Request → Option String → Result ResolveError Resolution
  unfolding resolve_tag resolve_id
  resolve_ref m req (some tag) = resolve_tag m req tag (valid_user_tag tag)
  resolve_ref m req none =
      if is_positive (atoi req.ref)
      then resolve_id m req
      else ok (record { requested = req.ref; image = req.ref; baked = false; shell = "" })

  -- Resolve; `none` is the nil manager.
  unfoldable pub resolve : Option Catalog → Request → Result ResolveError Resolution
  unfolding resolve_ref
  resolve m req = resolve_ref m req (cut_prefix "tag:" req.ref)

  -- The image needs no disk of a size, or one that the disk of the launched size has.
  abbrev pub HasRoom : Catalog → Image → String → Type 0
  HasRoom m img size =
      (img.min_disk_gb ≡ 0)
      ⊎ ((disk : ℕ) × (m.size_disk_gb size ≡ ok disk) × (img.min_disk_gb ≤ disk))

  -- The image that the launch of a tag uses: of the listed ones the newest that is eligible in the scope, with
  -- room on the disk, and its shell.
  pub record IsLaunch (m : Catalog) (req : Request) (tag : String) (r : Resolution) : Type 0 where
    pub imgs : List Image
    pub listed : m.list_images tag ≡ ok imgs
    pub img : Image
    pub others : List Image
    pub newest : candidates atoi imgs (asked req tag) ≡ img ∷ others
    pub eligible_image : eligible atoi img (asked req tag) ≡ true
    pub room : HasRoom m img req.size
    pub result : r ≡ record {
      requested = req.ref;
      image = img.id;
      baked = true;
      shell = shell_of (parse_markers atoi img.tags);
    }
