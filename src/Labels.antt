-- ===== src/Labels.antt =====
-- The label loops that gpu_controls.go and npu_controls.go write out over their tables: each step
-- takes the labels of a node with the `modified` flag and returns both.
pub mod Laws
use accelerator_config_manag.Prelude.{String, Bool, true, false, not, Option, none, some, ◌==◌}
use accelerator_config_manag.Prelude.{[], ◌∷◌, if◌then◌else◌, is_some}
use accelerator_config_manag.Prelude.Dict.{Dict, lookup, insert, erase, has}
use accelerator_config_manag.Prelude.GoMap.{GoMap, get, assign, remove}
use accelerator_config_manag.Prelude.Run.{Run, ok, ◌>>=◌}

-- What `node.GetLabels()` returns.
abbrev pub Labels : Type 0
Labels = GoMap String

-- The labels and `modified`.
abbrev pub Change : Type 0
Change = Labels × Bool

-- A table such as `gpuModeLabels`: the labels of each mode.
abbrev pub Table : Type 0
Table = Dict (Dict String)

-- `table[mode]`: the nil map, which has no entries, for a mode without labels.
abbrev pub table_row : String → Table → Dict String
table_row mode table = elim (lookup mode table) [ none ↦ [] | some row ↦ row ]

-- `!ok || v != value`
abbrev pub differs : Option String → String → Bool
differs none value = true
differs (some v) value = not (v == value)

-- `labels[key]`, which is the empty text where there is no such label.
abbrev pub text_of : Option String → String
text_of none = ""
text_of (some v) = v

-- `labels[key] = value; modified = true`
abbrev pub set_label : String → String → Change → Run Change
set_label key value (labels, modified) = do labels' ← assign key value labels; ok (labels', true)

-- `if v, ok := labels[key]; !ok || v != value { … }`
unfoldable pub ensure_label : String → String → Change → Run Change
ensure_label key value (labels, modified) =
    if differs (get key labels) value
    then set_label key value (labels, modified)
    else ok (labels, modified)

-- `if v := labels[key]; name != "" && v != name { … }`
unfoldable pub ensure_config_label : String → String → Change → Run Change
ensure_config_label key name (labels, modified) =
    if name == ""
    then ok (labels, modified)
    else if text_of (get key labels) == name
    then ok (labels, modified)
    else set_label key name (labels, modified)

-- `if _, ok := labels[key]; ok { delete(labels, key); modified = true }`
unfoldable pub drop_label : String → Change → Change
drop_label key (labels, modified) =
    if is_some (get key labels) then (remove key labels, true) else (labels, modified)

-- `for key, value := range row { … }`, as addGPUModeLabels and addNPUModeLabels do.
unfoldable pub ensure_row : Dict String → Change → Run Change
ensure_row [] c = ok c
ensure_row ((key, value) ∷ row) c = ensure_label key value c >>= λ c'. ensure_row row c'

-- `for key := range row { … }`, as removeAllGPUModeLabels and removeAllNPUModeLabels do.
unfoldable pub drop_row : Dict String → Change → Change
drop_row [] c = c
drop_row ((key, _) ∷ row) c = drop_row row (drop_label key c)

-- The same loop, which passes over the labels that the current mode has too.
unfoldable pub drop_row_except : Dict String → Dict String → Change → Change
drop_row_except current [] c = c
drop_row_except current ((key, _) ∷ row) c =
    drop_row_except current row (if has key current then c else drop_label key c)

-- `for mode, row := range table { if mode == current { continue } … }`, as removeGPUModeLabels and
-- removeNPUModeLabels do.
unfoldable pub drop_other_modes : String → Dict String → Table → Change → Change
unfolding drop_row_except
drop_other_modes mode current [] c = c
drop_other_modes mode current ((other, row) ∷ table) c =
    drop_other_modes mode current table (if other == mode then c else drop_row_except current row c)
