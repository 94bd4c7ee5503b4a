-- ===== src/Label.antt =====
-- patches/event-bridge/opc_bridge/labels.py: the track of a ticket, from its labels or its assignee.
use opc_stack.Base.{
  ◌≡◌, ◌≢◌, Bool, ◌&&◌, ◌||◌, List, [], ◌∷◌, ◌++◌, Option, none, some, ◌==◌, if◌then◌else◌, String,
}
use opc_stack.Base.Table.{contains}
use opc_stack.Event.{text_or}

pub record Agent : Type 0 where
  pub role : Option String
  pub name : Option String

unfoldable pub track_from_agent : Option Agent → String
track_from_agent none = "unknown"
track_from_agent (some agent) =
    if text_or agent.role "" == "engineer"
    then "core"
    else if text_or agent.name "" == "Prototyper" || text_or agent.name "" == "Scientist"
    then "lab"
    else "unknown"

unfoldable pub track_of : List String → Option Agent → String
unfolding track_from_agent
track_of labels agent =
    if contains "track:core" labels && contains "track:lab" labels
    then "unknown"
    else if contains "track:core" labels
    then "core"
    else if contains "track:lab" labels
    then "lab"
    else track_from_agent agent

pub record Markers : Type 0 where
  pub lane : Option String
  pub track : Option String
  pub style : Option String

abbrev pub is_track : String → Bool
is_track t = t == "core" || t == "lab"

abbrev pub is_style : String → Bool
is_style t = t == "blueprint" || t == "exploration"

abbrev pub lane_track : String → Option String
lane_track lane =
    if lane == "engineering"
    then some "core"
    else if lane == "prototype" || lane == "research"
    then some "lab"
    else none

abbrev pub marked_track : Markers → Option String
marked_track m = elim m.track [
  | none ↦ lane_track (elim m.lane [ none ↦ "" | some l ↦ l ])
  | some t ↦ if is_track t then some t else lane_track (elim m.lane [ none ↦ "" | some l ↦ l ])
]

abbrev pub default_style : Option String → Option String
default_style none = none
default_style (some t) =
    if t == "core" then some "blueprint" else if t == "lab" then some "exploration" else none

abbrev pub marked_style : Markers → Option String
marked_style m = elim m.style [
  | none ↦ default_style (marked_track m)
  | some t ↦ if is_style t then some t else default_style (marked_track m)
]

abbrev pub track_label : Option String → List String
track_label none = []
track_label (some t) = (if t == "core" then "track:core" else "track:lab") ∷ []

abbrev pub style_label : Option String → List String
style_label none = []
style_label (some t) = (if t == "blueprint" then "style:blueprint" else "style:exploration") ∷ []

unfoldable pub labels_for_markers : Markers → List String
labels_for_markers m = track_label (marked_track m) ++ style_label (marked_style m)

abbrev pub track_by : Option String → Option Agent → String
track_by none agent = track_from_agent agent
track_by (some t) agent = if t == "core" then "core" else "lab"

-- Neither track is named by the track marker.
abbrev pub IsUnmarked : Markers → Type 0
IsUnmarked m = (m.track ≢ some "core") × (m.track ≢ some "lab")

-- The track that the markers name: the track marker's own, or that of the lane where the marker
-- names none.
pub data Names (m : Markers) : String → Type 0 where
  marker_core : m.track ≡ some "core" → Names m "core"
  marker_lab : m.track ≡ some "lab" → Names m "lab"
  lane_core : IsUnmarked m → m.lane ≡ some "engineering" → Names m "core"
  lane_prototype : IsUnmarked m → m.lane ≡ some "prototype" → Names m "lab"
  lane_research : IsUnmarked m → m.lane ≡ some "research" → Names m "lab"
