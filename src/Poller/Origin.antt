-- ===== src/Poller/Origin.antt =====
-- Where an issue's notice goes, and the link it announces (poller.py): both are read from the
-- comments of the issue.
use Prim.Native.Char.{Char, code}
use opc_stack.Base.{
  String, ℕ, Bool, true, false, not, ◌&&◌, ◌||◌, List, [], ◌∷◌, Option, none, some, ◌==◌,
  if◌then◌else◌, eqb, any, is_some, ltb, ◌+◌,
}
use opc_stack.Base.Dict.{put, get}
use opc_stack.Base.Proc.{give, look, change, ◌>>=◌, ◌>>◌}
use opc_stack.Event.{text_or, same_text}
use opc_stack.Store.Meta.{get_origin, set_origin}
use opc_stack.Poller.{Act, Setting, Comment, ask, list_comments, in_store, from_store, read_clock}
use opc_stack.Poller.Pattern.{
  is_uuid, channel_marker, anchor_marker, find_from, port_url, github_repo, after_prefix,
}

unfoldable pub trusted_marker_author : Comment → Bool
trusted_marker_author comment =
    same_text comment.author_type (some "user") || same_text comment.author_type (some "agent")

abbrev pub checked : (String → Bool) → Option String → Option String
checked validate none = none
checked validate (some v) = if validate v then some v else none

abbrev pub or_later : Option String → Option String → Option String
or_later none later = later
or_later (some v) later = some v

unfoldable pub marker : (String → Option String) → (String → Bool) → List Comment → Option String
unfolding trusted_marker_author
marker search validate [] = none
marker search validate (comment ∷ more) =
    let later = marker search validate more in
    if trusted_marker_author comment
    then or_later (checked validate (search (text_or comment.body ""))) later
    else later

-- `url.rstrip(".,;:)]}\"'")`
abbrev is_mark : Char → Bool
is_mark c =
    eqb (code c) 46
    || eqb (code c) 44
    || eqb (code c) 59
    || eqb (code c) 58
    || eqb (code c) 41
    || eqb (code c) 93
    || eqb (code c) 125
    || eqb (code c) 34
    || eqb (code c) 39

unfoldable pub strip_marks : String → String
strip_marks String.[] = ""
strip_marks (String.◌∷◌ c s) =
    let rest = strip_marks s in if is_mark c && rest == "" then "" else String.◌∷◌ c rest

-- `s.split(c, 1)[0]`, with the character by its code.
unfoldable pub before : ℕ → String → String
before n String.[] = ""
before n (String.◌∷◌ c s) =
    let rest = before n s in if eqb (code c) n then "" else String.◌∷◌ c rest

-- `url.split("//", 1)[-1]`
unfoldable pub after_slashes : String → Option String
unfolding after_prefix
after_slashes String.[] = none
after_slashes (String.◌∷◌ c s) =
    let later = after_slashes s in
    elim (after_prefix "//" (String.◌∷◌ c s)) [ none ↦ later | some rest ↦ some rest ]

-- Equal up to the case of ASCII letters: the host of a match has no others.
abbrev lower_code : ℕ → ℕ
lower_code n = if ltb 64 n && ltb n 91 then n + 32 else n

unfoldable pub same_lower : String → String → Bool
same_lower String.[] String.[] = true
same_lower String.[] (String.◌∷◌ d t) = false
same_lower (String.◌∷◌ c s) String.[] = false
same_lower (String.◌∷◌ c s) (String.◌∷◌ d t) = eqb (lower_code (code c)) (code d) && same_lower s t

abbrev pub forge_hosts : List String
forge_hosts = "github.com" ∷ "gitlab.com" ∷ "bitbucket.org" ∷ []

unfoldable pub host_of : String → String
unfolding after_slashes before
host_of url = before 58 (before 47 (elim (after_slashes url) [ none ↦ url | some rest ↦ rest ]))

unfoldable pub is_forge : String → Bool
unfolding host_of same_lower
is_forge url = any (same_lower (host_of url)) forge_hosts

unfoldable pub preview_link : List (String × String) → Option String
unfolding strip_marks is_forge
preview_link [] = none
preview_link ((found, rest) ∷ more) =
    let later = preview_link more in
    let url = strip_marks found in if is_forge url then later else some url

-- `body[match.end() : match.end() + 1] == "/"`
unfoldable pub repo_link : List (String × String) → Option String
unfolding after_prefix
repo_link [] = none
repo_link ((found, rest) ∷ more) =
    let later = repo_link more in if is_some (after_prefix "/" rest) then later else some found

unfoldable pub first_link : (String → Option String) → List Comment → Option String
first_link link [] = none
first_link link (comment ∷ more) = or_later (link (text_or comment.body "")) (first_link link more)

abbrev pub preview_of : String → Option String
preview_of body = preview_link (find_from port_url 0 body)

abbrev pub repo_of : String → Option String
repo_of body = repo_link (find_from github_repo 0 body)

unfoldable pub extract_artifact : List Comment → Option String
unfolding first_link
extract_artifact comments = or_later (first_link preview_of comments) (first_link repo_of comments)

abbrev pub keep_comments : String → List Comment → Act (Unit {0})
keep_comments issue_id found =
    change (λ s. record s { comments_cache = put issue_id found s.comments_cache })

abbrev pub read_origin : List Comment → Option String × Option String
read_origin found =
    (marker channel_marker is_uuid found, marker anchor_marker (λ v. not (v == "")) found)

module _ (w : Setting) where
  abbrev pub comments_from : String → Option (List Comment) → Act (List Comment)
  comments_from issue_id (some found) = give found
  comments_from issue_id none = do
    found ← ask (list_comments issue_id) (λ calls. w.pc.comments calls issue_id)
    keep_comments issue_id found
    give found

  -- The comments of an issue are asked for once in a tick.
  unfoldable pub comments : String → Act (List Comment)
  comments issue_id = do
    held ← look (λ s. get issue_id s.comments_cache)
    comments_from issue_id held

  abbrev pub origin_from :
      Option (Option String × Option String) → String → Act (Option String × Option String)
  origin_from (some origin) issue_id = give origin
  origin_from none issue_id = do
    found ← comments issue_id
    at ← read_clock w
    in_store (set_origin issue_id (read_origin found).0 (read_origin found).1 (w.time.iso at))
    give (read_origin found)

  unfoldable pub resolve_origin : String → Act (Option String × Option String)
  resolve_origin issue_id = do
    cached ← from_store (get_origin issue_id)
    origin_from cached issue_id
