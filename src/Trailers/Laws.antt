-- ===== src/Trailers/Laws.antt =====
-- What is left of a message.
use Prim.Native.Char.{code}
use bivouac.Prelude.{
  true, false, none, some, Option, ◌≢◌, ◌≡◌, String, List, [], ◌∷◌, eqb, keep, All,
}
use bivouac.Git.Lines.{split_lines}
use bivouac.Trailers.{
  Strings, ai_attribution_markers, ai_trailer_keys, contains, stays, drop_blank_end,
}

-- A line has no line end.
abbrev pub IsLine : String → Type 0
IsLine String.[] = Unit
IsLine (String.◌∷◌ c s) = (eqb (code c) 10 ≡ false) × IsLine s

module _ (strings : Strings) where
  -- The lines that stripping leaves.
  abbrev kept_lines : String → List String
  kept_lines message = drop_blank_end strings (keep (stays strings) (split_lines message))

  -- A trailer line that credits no machine: its key is not one of a machine, and it is not a co-author whose
  -- value has a marker of one. A line that is no trailer credits nobody.
  abbrev pub CreditsNone : Option (String × String) → Type 0
  CreditsNone none = Unit
  CreditsNone (some (key, value)) =
      All (λ k. strings.to_lower key ≢ k) ai_trailer_keys
      × (strings.equal_fold key "co-authored-by" ≡ true
          → All (λ marker. contains marker (strings.to_lower value) ≡ false) ai_attribution_markers)
