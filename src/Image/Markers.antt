-- ===== src/Image/Markers.antt =====
-- The tags that mark an image as ours: internal/image/markers.go.
use Prim.Native.Nat.{◌+◌}
use bivouac.Prelude.{
  ℕ, Bool, true, false, not, ◌&&◌, ◌||◌, String, str_append, Option, none, some, List, [], ◌∷◌,
  ◌==◌, all, codes, cut_prefix, eqb, leb, ltb, if◌then◌else◌,
}

-- An int of Go; `negative n` is -n-1.
pub data Number : Type 0 where
  natural : ℕ → Number
  negative : ℕ → Number

pub record Markers : Type 0 where
  pub arch : String
  pub region : String
  pub shell : String
  pub format : Number

-- The loop of ParseMarkers: what it has read, and how often each marker was seen.
pub record Scan : Type 0 where
  pub markers : Markers
  pub managed : ℕ
  pub formats : ℕ
  pub arches : ℕ
  pub regions : ℕ
  pub shells : ℕ

abbrev pub empty_scan : Scan
empty_scan = record {
  markers = record { arch = ""; region = ""; shell = ""; format = natural 0 };
  managed = 0;
  formats = 0;
  arches = 0;
  regions = 0;
  shells = 0;
}

abbrev pub has_prefix : String → String → Bool
has_prefix begin text = elim (cut_prefix begin text) [ none ↦ false | some _ ↦ true ]

-- SnapshotTags
pub snapshot_tags : String → String → String → String → List String
snapshot_tags user_tag arch region shell =
    "bivouac-image"
    ∷ "bivouac-format-1"
    ∷ str_append "bivouac-arch-" arch
    ∷ str_append "bivouac-region-" region
    ∷ str_append "bivouac-shell-" shell
    ∷ user_tag
    ∷ []

-- `atoi` is strconv.Atoi, `none` for its errors.
module _ (atoi : String → Option Number) where
  unfoldable pub scan_format : Scan → Option Number → Option Scan
  scan_format s none = none
  scan_format s (some n) =
      some (record s { markers = record s.markers { format = n }; formats = s.formats + 1 })

  unfoldable pub scan_shell : Scan → Option String → Scan
  scan_shell s none = s
  scan_shell s (some rest) = record s {
    markers = record s.markers { shell = rest };
    shells = s.shells + 1;
  }

  unfoldable pub scan_region : Scan → String → Option String → Scan
  unfolding scan_shell
  scan_region s tag none = scan_shell s (cut_prefix "bivouac-shell-" tag)
  scan_region s tag (some rest) = record s {
    markers = record s.markers { region = rest };
    regions = s.regions + 1;
  }

  unfoldable pub scan_arch : Scan → String → Option String → Scan
  unfolding scan_region
  scan_arch s tag none = scan_region s tag (cut_prefix "bivouac-region-" tag)
  scan_arch s tag (some rest) = record s {
    markers = record s.markers { arch = rest };
    arches = s.arches + 1;
  }

  unfoldable pub scan_other : Scan → String → Option String → Option Scan
  unfolding scan_format scan_arch
  scan_other s tag none = some (scan_arch s tag (cut_prefix "bivouac-arch-" tag))
  scan_other s tag (some rest) = scan_format s (atoi rest)

  -- The switch on one tag.
  unfoldable pub scan_tag : Scan → String → Option Scan
  unfolding scan_other
  scan_tag s tag =
      if tag == "bivouac-image"
      then some (record s { managed = s.managed + 1 })
      else scan_other s tag (cut_prefix "bivouac-format-" tag)

  unfoldable pub scan_tags : Scan → List String → Option Scan
  unfolding scan_tag
  scan_tags s [] = some s
  scan_tags s (tag ∷ tags) = elim (scan_tag s tag) [ none ↦ none | some s' ↦ scan_tags s' tags ]

  -- Every marker exactly once, and none of the three texts empty.
  abbrev pub scan_complete : Scan → Bool
  scan_complete s =
      eqb s.managed 1
      && eqb s.formats 1
      && eqb s.arches 1
      && eqb s.regions 1
      && eqb s.shells 1
      && not (s.markers.arch == "")
      && not (s.markers.region == "")
      && not (s.markers.shell == "")

  unfoldable pub scanned : Option Scan → Option Markers
  scanned none = none
  scanned (some s) = if scan_complete s then some s.markers else none

  -- ParseMarkers
  unfoldable pub parse_markers : List String → Option Markers
  unfolding scan_tags scanned
  parse_markers tags = scanned (scan_tags empty_scan tags)

pub record Scope : Type 0 where
  pub tag : String
  pub arch : String
  pub region : String

pub data TagError : Type 0 where
  empty_tag too_long bad_character reserved_prefix : TagError

-- The bytes of a code point in UTF-8.
abbrev pub width : ℕ → ℕ
width c = if ltb c 128 then 1 else if ltb c 2048 then 2 else if ltb c 65536 then 3 else 4

abbrev pub byte_length : List ℕ → ℕ
byte_length [] = 0
byte_length (c ∷ cs) = width c + byte_length cs

-- [A-Za-z0-9:_-]
abbrev pub is_tag_char : ℕ → Bool
is_tag_char c =
    (leb 65 c && leb c 90)
    || (leb 97 c && leb c 122)
    || (leb 48 c && leb c 57)
    || eqb c 58
    || eqb c 95
    || eqb c 45

-- ValidUserTag
unfoldable pub valid_user_tag : String → Option TagError
valid_user_tag tag =
    if tag == ""
    then some empty_tag
    else if ltb 255 (byte_length (codes tag))
    then some too_long
    else if not (all is_tag_char (codes tag))
    then some bad_character
    else if has_prefix "bivouac-" tag
    then some reserved_prefix
    else none
