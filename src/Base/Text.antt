-- ===== src/Base/Text.antt =====
-- What the source takes from Python's `str`: strip, split, join, startswith.
use Prim.Native.Char.{Char, code}
use Prim.Native.String.{String, ◌++◌}
use mathlib.Core.Bool.{Bool, true, false, ◌&&◌, ◌||◌}
use mathlib.Core.List.{List, [], ◌∷◌}
use opc_stack.Base.Tests.{eqb, leb, if◌then◌else◌}
use text.Mathlib.Text.{◌==◌}

-- The characters for which `str.isspace` holds.
unfoldable pub is_space : Char → Bool
is_space c =
    (leb 9 (code c) && leb (code c) 13)
    || (leb 28 (code c) && leb (code c) 32)
    || eqb (code c) 133
    || eqb (code c) 160
    || eqb (code c) 5760
    || (leb 8192 (code c) && leb (code c) 8202)
    || eqb (code c) 8232
    || eqb (code c) 8233
    || eqb (code c) 8239
    || eqb (code c) 8287
    || eqb (code c) 12288

unfoldable pub lstrip : String → String
unfolding is_space
lstrip String.[] = ""
lstrip (String.◌∷◌ c s) = let rest = lstrip s in if is_space c then rest else String.◌∷◌ c s

unfoldable pub rstrip : String → String
unfolding is_space
rstrip String.[] = ""
rstrip (String.◌∷◌ c s) =
    let rest = rstrip s in if is_space c && rest == "" then "" else String.◌∷◌ c rest

unfoldable pub strip : String → String
unfolding lstrip rstrip
strip s = rstrip (lstrip s)

-- "\n".join(lines)
unfoldable pub join_lines : List String → String
join_lines [] = ""
join_lines (x ∷ []) = x
join_lines (x ∷ y ∷ more) = x ++ "\n" ++ join_lines (y ∷ more)

abbrev keep_word : String → List String → List String
keep_word w ws = if w == "" then ws else w ∷ ws

unfoldable split_from : String → String × List String
unfolding is_space
split_from String.[] = ("", [])
split_from (String.◌∷◌ c s) =
    let (w, ws) = split_from s in if is_space c then ("", keep_word w ws) else (String.◌∷◌ c w, ws)

-- `s.split()`: the words between white space.
unfoldable pub words : String → List String
unfolding split_from
words s = let (w, ws) = split_from s in keep_word w ws

unfoldable split_at_blank : String → String × List String
split_at_blank String.[] = ("", [])
split_at_blank (String.◌∷◌ c s) =
    let (w, ws) = split_at_blank s in if eqb (code c) 32 then ("", w ∷ ws) else (String.◌∷◌ c w, ws)

-- `s.split(" ")`
unfoldable pub split_blanks : String → List String
unfolding split_at_blank
split_blanks s = let (w, ws) = split_at_blank s in w ∷ ws

-- `" ".join(words)`
unfoldable pub join_words : List String → String
join_words [] = ""
join_words (x ∷ []) = x
join_words (x ∷ y ∷ more) = x ++ " " ++ join_words (y ∷ more)

-- `s.startswith(prefix)`
unfoldable pub starts_with : (prefix s : String) → Bool
starts_with String.[] s = true
starts_with (String.◌∷◌ c p) String.[] = false
starts_with (String.◌∷◌ c p) (String.◌∷◌ d s) = eqb (code c) (code d) && starts_with p s

-- The two ends of `s.partition(":")`.
unfoldable pub partition_colon : String → String × String
partition_colon String.[] = ("", "")
partition_colon (String.◌∷◌ c s) =
    let (k, v) = partition_colon s in if eqb (code c) 58 then ("", s) else (String.◌∷◌ c k, v)
