-- ===== src/Command/SkipNamespaces.antt =====
-- `parseSkipNamespaces` of cmd/main.go.
pub mod Names
use fortsa.Base.{Bytes, List, [], ◌∷◌, ◌++◌, is_empty, if◌then◌else◌}
use fortsa.Base.Trim.{split, trim_space}

-- The loop over the parts, with what it has put out.
unfoldable pub collect_names : List Bytes → List Bytes → List Bytes
collect_names [] out = out
collect_names (p ∷ parts) out =
    let trimmed = trim_space p in
    collect_names parts (if is_empty trimmed then out else out ++ trimmed ∷ [])

-- A nil slice is the empty list.
unfoldable pub parse_skip_namespaces : Bytes → List Bytes
unfolding collect_names split trim_space
parse_skip_namespaces s = if is_empty s then [] else collect_names (split s b',') []
