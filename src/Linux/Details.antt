-- ===== src/Linux/Details.antt =====
-- The lookups in a step's details of internal/platform/linux/dryrun.go, and its map of exclusions.
pub mod Laws
use big_red_button.Base.{
  String, ◌<>◌, ◌==◌, Option, none, some, List, [], ◌∷◌, Result, ok, err, failure, if◌then◌else◌,
}
use big_red_button.Base.Text.{trim_space, cut_prefix}
use big_red_button.Planner.{Step}
use big_red_button.Routes.{EndpointExclusion}

-- A map from texts, its keys in the order of their first insertion.
abbrev pub Dict {ℓ} : Type ℓ → Type ℓ
Dict V = List (String × V)

unfoldable pub lookup {ℓ} : {V : Type ℓ} → String → Dict V → Option V
lookup k [] = none
lookup k ((j, v) ∷ d) = if k == j then some v else lookup k d

unfoldable pub insert {ℓ} : {V : Type ℓ} → String → V → Dict V → Dict V
insert k v [] = (k, v) ∷ []
insert k v ((j, w) ∷ d) = if k == j then (k, v) ∷ d else (j, w) ∷ insert k v d

insert_all : List EndpointExclusion → Dict EndpointExclusion → Dict EndpointExclusion
unfolding insert
insert_all [] d = d
insert_all (exclusion ∷ exclusions) d =
    insert_all exclusions (insert exclusion.endpoint_ip exclusion d)

unfoldable pub route_exclusion_map : List EndpointExclusion → Dict EndpointExclusion
unfolding insert_all
route_exclusion_map exclusions = insert_all exclusions []

first_endpoint : String → List String → Result String
unfolding cut_prefix
first_endpoint id [] = err (failure ("step " <> (id <> " does not contain endpoint_ip detail")))
first_endpoint id (detail ∷ details) =
    let later = first_endpoint id details in
    elim (cut_prefix detail "endpoint_ip=") [
      | none ↦ later
      | some ip ↦
          if trim_space ip == ""
          then err (failure ("step " <> (id <> " does not contain endpoint_ip detail")))
          else ok (trim_space ip)
    ]

unfoldable pub endpoint_ip_from_step : Step → Result String
unfolding first_endpoint
endpoint_ip_from_step step = first_endpoint step.id step.details

unfoldable pub values_of : String → List String → List String
values_of prefix [] = []
values_of prefix (detail ∷ details) =
    let later = values_of prefix details in
    elim (cut_prefix detail prefix) [ none ↦ later | some value ↦ trim_space value ∷ later ]

unfoldable pub detail_values : Step → String → List String
unfolding values_of
detail_values step key = values_of (key <> "=") step.details

unfoldable pub first_or_empty : List String → String
first_or_empty [] = ""
first_or_empty (value ∷ _) = value

-- The first value, or the empty text.
unfoldable pub detail_value : Step → String → String
unfolding detail_values first_or_empty
detail_value step key = first_or_empty (detail_values step key)
