-- ===== src/Poller/Pattern.antt =====
-- The regular expressions of poller.py, as scanners: each tries its pattern at one place and answers
-- with what it matched and the text after it. No character ends one part of a pattern and begins
-- the next, so the greedy match is the only one.
use Prim.Native.Char.{Char, code}
use opc_stack.Base.{
  String, ◌&◌, ℕ, zero, suc, ◌-◌, Bool, false, not, ◌&&◌, ◌||◌, List, [], ◌∷◌, Option, none, some,
  ◌==◌, if◌then◌else◌, eqb, leb,
}
use opc_stack.Base.Text.{is_space, lstrip}

abbrev pub between : ℕ → ℕ → Char → Bool
between low high c = leb low (code c) && leb (code c) high

-- [0-9]
abbrev pub is_digit : Char → Bool
is_digit c = between 48 57 c

-- [0-9a-fA-F]
abbrev pub is_hex : Char → Bool
is_hex c = is_digit c || between 65 70 c || between 97 102 c

-- [0-9a-fA-F-]
abbrev pub is_hex_dash : Char → Bool
is_hex_dash c = is_hex c || eqb (code c) 45

-- [A-Za-z0-9_.-]
abbrev pub is_name_char : Char → Bool
is_name_char c =
    is_digit c
    || between 65 90 c
    || between 97 122 c
    || eqb (code c) 95
    || eqb (code c) 46
    || eqb (code c) 45

-- [^\s)"'`<>]
abbrev pub is_path_char : Char → Bool
is_path_char c = not (
    is_space c
    || eqb (code c) 41
    || eqb (code c) 34
    || eqb (code c) 39
    || eqb (code c) 96
    || eqb (code c) 60
    || eqb (code c) 62)

-- The longest beginning of at most `n` characters of the class, and the rest.
unfoldable pub span : (Char → Bool) → ℕ → String → String × String
span p zero s = ("", s)
span p (suc n) String.[] = ("", "")
span p (suc n) (String.◌∷◌ c s) =
    let (taken, rest) = span p n s in
    if p c then (String.◌∷◌ c taken, rest) else ("", String.◌∷◌ c s)

unfoldable pub size : String → ℕ
size String.[] = 0
size (String.◌∷◌ c s) = suc (size s)

-- What follows the beginning `prefix`.
unfoldable pub after_prefix : (prefix s : String) → Option String
after_prefix String.[] s = some s
after_prefix (String.◌∷◌ c p) String.[] = none
after_prefix (String.◌∷◌ c p) (String.◌∷◌ d s) =
    if eqb (code c) (code d) then after_prefix p s else none

abbrev pub at_least : ℕ → String × String → Option (String × String)
at_least n (taken, rest) = if leb n (size taken) then some (taken, rest) else none

unfoldable pub marker_value : (Char → Bool) → (least most : ℕ) → Option String → Option String
unfolding span lstrip size
marker_value p least most none = none
marker_value p least most (some s) = elim (at_least least (span p most (lstrip s))) [
  | none ↦ none
  | some (taken, rest) ↦ some taken
]

-- `pattern.search(text)`, group 1: the first place where the marker with its value stands.
unfoldable pub search_marker :
    (marker : String) → (Char → Bool) → (least most : ℕ) → String → Option String
unfolding marker_value after_prefix
search_marker marker p least most String.[] = none
search_marker marker p least most (String.◌∷◌ c s) =
    let later = search_marker marker p least most s in
    elim (marker_value p least most (after_prefix marker (String.◌∷◌ c s))) [
      | none ↦ later
      | some value ↦ some value
    ]

unfoldable pub channel_marker : String → Option String
unfolding search_marker
channel_marker s = search_marker "BUZZ_CHANNEL:" is_hex_dash 36 36 s

unfoldable pub anchor_marker : String → Option String
unfolding search_marker
anchor_marker s = search_marker "BUZZ_EVENT:" is_hex 16 64 s

abbrev pub shaped : List ℕ → String → Bool
shaped [] s = s == ""
shaped (n ∷ []) s =
    let (taken, rest) = span is_hex n s in eqb (size taken) n && (rest == "" || rest == "\n")
shaped (n ∷ m ∷ more) s =
    let (taken, rest) = span is_hex n s in
    eqb (size taken) n
    && (elim (after_prefix "-" rest) [ none ↦ false | some s ↦ shaped (m ∷ more) s ])

-- `_UUID.match(text)`, with the line end that `$` lets through.
unfoldable pub is_uuid : String → Bool
is_uuid s = shaped (8 ∷ 4 ∷ 4 ∷ 4 ∷ 12 ∷ []) s

abbrev pub or_next : Option String → Option String → Option String
or_next none s = s
or_next (some s) _ = some s

-- `http`, then `s` or not, then `://`.
abbrev pub after_scheme : String → Option String
after_scheme s = or_next (after_prefix "https://" s) (after_prefix "http://" s)

abbrev pub scheme_of : String → String
scheme_of s = elim (after_prefix "https://" s) [ none ↦ "http://" | some _ ↦ "https://" ]

abbrev pub with_path : String × String → String × String
with_path (url, rest) = elim (after_prefix "/" rest) [
  | none ↦ (url, rest)
  | some more ↦ let (path, last) = span is_path_char (size more) more in (url & "/" & path, last)
]

abbrev pub with_port : String → String → Option (String × String)
with_port start s =
    let (port, rest) = span is_digit 5 s in
    if leb 2 (size port) then some (with_path (start & ":" & port, rest)) else none

abbrev pub port_after : String → String × String → Option (String × String)
port_after scheme (host, rest) =
    if host == ""
    then none
    else elim (after_prefix ":" rest) [ none ↦ none | some s ↦ with_port (scheme & host) s ]

-- `_PORT_URL` at this place.
unfoldable pub port_url : String → Option (String × String)
unfolding span size
port_url s = elim (after_scheme s) [
  | none ↦ none
  | some rest ↦ port_after (scheme_of s) (span is_name_char (size rest) rest)
]

abbrev pub repo_name : String → String × String → Option (String × String)
repo_name start (name, rest) = if name == "" then none else some (start & "/" & name, rest)

abbrev pub repo_after : String × String → Option (String × String)
repo_after (owner, rest) = if owner == "" then none else elim (after_prefix "/" rest) [
  | none ↦ none
  | some s ↦ repo_name ("https://github.com/" & owner) (span is_name_char (size s) s)
]

-- `_GITHUB_REPO` at this place.
unfoldable pub github_repo : String → Option (String × String)
unfolding after_prefix span size
github_repo s = elim (after_prefix "https://github.com/" s) [
  | none ↦ none
  | some rest ↦ repo_after (span is_name_char (size rest) rest)
]

-- `pattern.finditer(text)`: the matches from left to right, each with the text after it. `skip`
-- characters belong to the last match.
unfoldable pub find_from : (String → Option (String × String)) → ℕ → String → List (String × String)
unfolding size
find_from pattern skip String.[] = []
find_from pattern (suc skip) (String.◌∷◌ c s) = find_from pattern skip s
find_from pattern zero (String.◌∷◌ c s) =
    let later : ℕ → List (String × String) = λ skip. find_from pattern skip s in
    elim (pattern (String.◌∷◌ c s)) [
      | none ↦ later 0
      | some (found, rest) ↦ (found, rest) ∷ later (size found - 1)
    ]
