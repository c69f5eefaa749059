-- ===== src/Worker/Sources.antt =====
-- application/worker.py: how `_source_ids` and `_schedules` select the sources of a run.
pub mod Selection
use makolet.Prelude.{
  ℕ, Bool, true, false, ◌&&◌, ◌||◌, not, List, [], ◌∷◌, ◌++◌, map, reverse, length, ltb, leb, ◌==◌,
  if◌then◌else◌,
}
use makolet.Domain.Errors.{ErrorKind, failure}
use makolet.Domain.Documents.{text_in}
use makolet.Domain.Values.{Text}
use makolet.Exec.{Result, ok, err}

abbrev between : ℕ → ℕ → ℕ → Bool
between low high c = leb low c && leb c high

-- `character.isspace()`.
unfoldable pub is_space : ℕ → Bool
is_space c =
    between 9 13 c
    || between 28 32 c
    || c == 133
    || c == 160
    || c == 5760
    || between 8192 8202 c
    || between 8232 8233 c
    || c == 8239
    || c == 8287
    || c == 12288

-- `value.strip()`.
unfoldable pub strip_start : Text → Text
unfolding is_space
strip_start [] = []
strip_start (c ∷ cs) = let rest = strip_start cs in if is_space c then rest else c ∷ cs

unfoldable pub strip : Text → Text
unfolding strip_start
strip value = reverse (strip_start (reverse (strip_start value)))

-- `_SOURCE_ID`.
abbrev is_alphanumeric : ℕ → Bool
is_alphanumeric c = between b'A' b'Z' c || between b'a' b'z' c || between b'0' b'9' c

abbrev is_id_character : ℕ → Bool
is_id_character c = is_alphanumeric c || c == b'.' || c == b'_' || c == b':' || c == b'-'

unfoldable pub all_id_characters : Text → Bool
all_id_characters [] = true
all_id_characters (c ∷ cs) = is_id_character c && all_id_characters cs

unfoldable pub is_source_id : Text → Bool
unfolding all_id_characters
is_source_id [] = false
is_source_id (c ∷ cs) = is_alphanumeric c && all_id_characters cs && leb (length cs) 199

-- `selected[source_id] = None`: a key that is there keeps its place.
abbrev pub insert : Text → List Text → List Text
insert id selected = if text_in id selected then selected else selected ++ (id ∷ [])

-- `_source_ids`.
unfoldable pub select_from : ℕ → List Text → List Text → Result (List Text)
unfolding is_source_id strip text_in failure
select_from maximum selected [] = ok selected
select_from maximum selected (value ∷ values) =
    let id = strip value in
    let more = insert id selected in
    let rest = select_from maximum more values in
    if not (is_source_id id)
    then err (failure ErrorKind.value_error)
    else if ltb maximum (length more)
    then err (failure ErrorKind.value_error)
    else rest

abbrev pub source_ids : ℕ → List Text → Result (List Text)
source_ids maximum values = select_from maximum [] values

-- `SourceSchedule`, without its ratio of jitter, which is a float.
pub record SourceSchedule : Type 0 where
  pub source_id : Text
  pub interval : ℕ
  pub run_immediately : Bool

-- `_schedules`, by the sources that were seen.
unfoldable pub distinct_from : List Text → List SourceSchedule → Result (List SourceSchedule)
unfolding text_in failure
distinct_from seen [] = ok []
distinct_from seen (schedule ∷ schedules) =
    let rest = distinct_from (schedule.source_id ∷ seen) schedules in
    if text_in schedule.source_id seen
    then err (failure ErrorKind.value_error)
    else elim rest [ ok selected ↦ ok (schedule ∷ selected) | err e ↦ err e ]

unfoldable pub schedules : ℕ → List SourceSchedule → Result (List SourceSchedule)
unfolding distinct_from failure
schedules maximum values =
    if ltb maximum (length values)
    then err (failure ErrorKind.value_error)
    else distinct_from [] values
