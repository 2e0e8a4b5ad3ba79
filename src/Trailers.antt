-- ===== src/Trailers.antt =====
-- Removing AI attribution from commit messages: internal/lifecycle/trailers.go.
pub mod Laws
use Prim.Native.Char.{code}
use bivouac.Prelude.{
  Bool, true, false, not, ◌&&◌, ◌||◌, String, str_append, Option, none, some, List, [], ◌∷◌, map,
  ◌==◌, if◌then◌else◌, eqb, any, keep, cut_prefix,
}
use bivouac.Git.Lines.{split_lines}

-- strings.ToLower, strings.EqualFold and strings.TrimSpace, which read the text as Unicode.
pub record Strings : Type 0 where
  pub to_lower : String → String
  pub equal_fold : String → String → Bool
  pub trim_space : String → String

-- aiAttributionMarkers
abbrev pub ai_attribution_markers : List String
ai_attribution_markers =
    "claude" ∷ "anthropic" ∷ "openai" ∷ "chatgpt" ∷ "gpt-" ∷ "copilot" ∷ "gemini" ∷ "noreply@" ∷ []

-- aiTrailerKeys
abbrev pub ai_trailer_keys : List String
ai_trailer_keys = "claude-session" ∷ "chatgpt-session" ∷ "ai-session" ∷ []

-- strings.HasPrefix and strings.Contains
abbrev is_present : Option String → Bool
is_present none = false
is_present (some rest) = true

abbrev pub has_prefix : String → String → Bool
has_prefix prefix s = is_present (cut_prefix prefix s)

abbrev pub contains : String → String → Bool
contains part String.[] = has_prefix part ""
contains part (String.◌∷◌ c s) =
    let later = contains part s in if has_prefix part (String.◌∷◌ c s) then true else later

-- What stands before and after the first colon.
abbrev more_before : String → Option (String × String) → Option (String × String)
more_before c none = none
more_before c (some (key, value)) = some (str_append c key, value)

abbrev pub cut_colon : String → Option (String × String)
cut_colon String.[] = none
cut_colon (String.◌∷◌ c s) =
    let rest = more_before (String.◌∷◌ c "") (cut_colon s) in
    if eqb (code c) 58 then some ("", s) else rest

-- strings.ContainsAny(key, " \t")
abbrev has_blank : String → Bool
has_blank String.[] = false
has_blank (String.◌∷◌ c s) =
    let rest = has_blank s in if eqb (code c) 32 || eqb (code c) 9 then true else rest

-- strings.Join(kept, "\n") + "\n", and nothing for no line
unfoldable pub join_lines : List String → String
join_lines [] = ""
join_lines (line ∷ []) = line
join_lines (line ∷ next ∷ lines) = str_append line (str_append "\n" (join_lines (next ∷ lines)))

unfoldable pub ended_lines : List String → String
unfolding join_lines
ended_lines [] = ""
ended_lines (line ∷ lines) = str_append (join_lines (line ∷ lines)) "\n"

module _ (strings : Strings) where
  open strings use {to_lower, equal_fold, trim_space}

  -- splitTrailer: the key and the value of a trailer line
  abbrev pub as_trailer : Option (String × String) → Option (String × String)
  as_trailer none = none
  as_trailer (some (key, rest)) =
      if key == "" || has_blank key then none else some (key, trim_space rest)

  abbrev pub split_trailer : String → Option (String × String)
  split_trailer line = as_trailer (cut_colon line)

  -- isAITrailerKey
  unfoldable pub is_ai_trailer_key : String → Bool
  is_ai_trailer_key key = any (λ k. to_lower key == k) ai_trailer_keys

  -- namesAMachine
  unfoldable pub names_machine : String → Bool
  names_machine value = any (λ marker. contains marker (to_lower value)) ai_attribution_markers

  -- The trailer lines that the loop leaves out.
  unfoldable pub is_attribution : Option (String × String) → Bool
  unfolding is_ai_trailer_key names_machine
  is_attribution none = false
  is_attribution (some (key, value)) =
      is_ai_trailer_key key || (equal_fold key "co-authored-by" && names_machine value)

  unfoldable pub stays : String → Bool
  unfolding is_attribution
  stays line = not (is_attribution (split_trailer line))

  -- The blank lines at the end are dropped.
  unfoldable pub drop_blank_end : List String → List String
  drop_blank_end [] = []
  drop_blank_end (line ∷ lines) = elim (drop_blank_end lines) [
    | [] ↦ if trim_space line == "" then [] else line ∷ []
    | l ∷ ls ↦ line ∷ l ∷ ls
  ]

  -- stripAgentTrailers
  unfoldable pub strip_agent_trailers : String → String
  unfolding stays drop_blank_end ended_lines
  strip_agent_trailers message = ended_lines (drop_blank_end (keep stays (split_lines message)))
