-- ===== src/Base/FilePath.antt =====
-- `filepath.Join` and `filepath.Clean` on Unix.
use mathlib.Core.Path.{◌≡◌, refl}
use mathlib.Core.Bool.{Bool, ◌||◌}
use mathlib.Core.List.{List, [], ◌∷◌, reverse}
use Prim.Native.String.{String, ◌++◌ as ◌<>◌}
use text.Mathlib.Text.{◌==◌, starts_with}
use big_red_button.Base.Tests.{if◌then◌else◌, eqb}
use big_red_button.Base.Lists.{join}
use big_red_button.Base.Text.{split_at, non_empty}

-- `..` on the elements so far, the last first.
up : Bool → List String → List String
up rooted [] = if rooted then [] else ".." ∷ []
up rooted (top ∷ below) = if top == ".." then ".." ∷ top ∷ below else below

walk : Bool → List String → List String → List String
unfolding up
walk rooted [] elements = elements
walk rooted (part ∷ parts) elements = walk rooted parts (
    if part == "" || part == "."
    then elements
    else if part == ".."
    then up rooted elements
    else part ∷ elements)

unfoldable pub clean : String → String
unfolding walk split_at join
clean path =
    let rooted = starts_with path "/" in
    let elements = reverse (walk rooted (split_at (λ c. eqb c b'/') path) []) in
    let body = join "/" elements in if rooted then "/" <> body else if body == "" then "." else body

join_non_empty : List String → String
join_non_empty [] = ""
join_non_empty (part ∷ parts) = clean (join "/" (part ∷ parts))

unfoldable pub join_path : List String → String
unfolding join_non_empty non_empty clean
join_path parts = join_non_empty (non_empty parts)

join_path_test :
    join_path ("/run//brb/" ∷ "a/../isolated" ∷ "state.json" ∷ []) ≡ "/run/brb/isolated/state.json"
unfolding join_path
join_path_test = refl

clean_above_test : clean "../../x/.." ≡ "../.."
unfolding clean
clean_above_test = refl
