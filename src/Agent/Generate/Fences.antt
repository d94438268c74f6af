-- ===== src/Agent/Generate/Fences.antt =====
-- internal/agent/tools.go: the fences around what the model answers.
use Prim.Native.Char.{Char, code}
use Prim.Native.String.{String}
use cadenza.Prelude.{Bool, ◌&&◌, Option, none, some, ◌==◌, is_space, if◌then◌else◌}

trim_text_left : String → String
trim_text_left String.[] = String.[]
trim_text_left (String.◌∷◌ c s) =
    let rest = trim_text_left s in if is_space (code c) then rest else String.◌∷◌ c s

abbrev cons_unless_blank : Char → String → String
cons_unless_blank c String.[] = if is_space (code c) then String.[] else String.◌∷◌ c String.[]
cons_unless_blank c (String.◌∷◌ d s) = String.◌∷◌ c (String.◌∷◌ d s)

trim_text_right : String → String
trim_text_right String.[] = String.[]
trim_text_right (String.◌∷◌ c s) = cons_unless_blank c (trim_text_right s)

-- strings.TrimSpace, on ASCII
unfoldable pub trim_text : String → String
unfolding trim_text_left trim_text_right
trim_text s = trim_text_right (trim_text_left s)

abbrev pub is_tick : Char → Bool
is_tick c = code c == 96

-- What follows a fence at the start of a text.
abbrev pub after_fence : String → Option String
after_fence (String.◌∷◌ a (String.◌∷◌ b (String.◌∷◌ c s))) =
    if is_tick a && is_tick b && is_tick c then some s else none
after_fence _ = none

abbrev pub put_before : Char → Option (String × String) → Option (String × String)
put_before c none = none
put_before c (some (before, after)) = some (String.◌∷◌ c before, after)

-- A text before and after its first fence.
unfoldable pub split_at_fence : String → Option (String × String)
split_at_fence String.[] = none
split_at_fence (String.◌∷◌ c s) =
    let later = put_before c (split_at_fence s) in
    elim (after_fence (String.◌∷◌ c s)) [ some rest ↦ some (String.[], rest) | none ↦ later ]

-- What follows the first line, or the whole text where it is one line.
unfoldable pub behind_line : String → Option String
behind_line String.[] = none
behind_line (String.◌∷◌ c s) = let rest = behind_line s in if code c == 10 then some s else rest

abbrev pub or_whole : Option String → String → String
or_whole none s = s
or_whole (some t) s = t

abbrev pub block_of : String → String
block_of s = elim (split_at_fence s) [ none ↦ trim_text s | some (block, rest) ↦ trim_text block ]

unfoldable pub strip_code_fence : String → String
unfolding split_at_fence behind_line trim_text
strip_code_fence content =
    let s = trim_text content in
    elim (split_at_fence s) [
      | none ↦ s
      | some (before, after) ↦ block_of (or_whole (behind_line after) after)
    ]
