-- ===== src/Linux/RouteGet.antt =====
-- internal/platform/linux/routes.go: reading the output of `ip route get`.
use big_red_button.Base.{
  ◌≡◌, refl, String, ◌==◌, ◌&&◌, not, List, [], ◌∷◌, Result, ok, err, failure, bind_result,
  if◌then◌else◌, is_none,
}
use big_red_button.Base.Text.{fields}
use big_red_button.Netip.Parse.{parse_addr}
use big_red_button.Routes.{EndpointExclusion, new_endpoint_exclusion}

pub record RouteGet : Type 0 where
  pub destination : String
  pub gateway : String
  pub interface : String
  pub source : String

-- What a token means to the loop.
pub data Token : Type 0 where
  destination_token via_token dev_token src_token other_token : Token

unfoldable pub token_of : RouteGet → String → Token
token_of found token =
    if found.destination == "" && not (is_none (parse_addr token))
    then destination_token
    else if token == "via"
    then via_token
    else if token == "dev"
    then dev_token
    else if token == "src"
    then src_token
    else other_token

-- The loop over the tokens; a keyword takes the token behind it.
unfoldable pub read_tokens : List String → RouteGet → Result RouteGet
unfolding token_of
read_tokens [] found = ok found
read_tokens (token ∷ []) found = elim (token_of found token) [
  | destination_token ↦ ok (record found { destination = token })
  | via_token ↦ err (failure "route output has via without gateway")
  | dev_token ↦ err (failure "route output has dev without interface")
  | src_token ↦ err (failure "route output has src without address")
  | other_token ↦ ok found
]
read_tokens (token ∷ value ∷ rest) found = elim (token_of found token) [
  | destination_token ↦ read_tokens (value ∷ rest) (record found { destination = token })
  | via_token ↦ read_tokens rest (record found { gateway = value })
  | dev_token ↦ read_tokens rest (record found { interface = value })
  | src_token ↦ read_tokens rest (record found { source = value })
  | other_token ↦ read_tokens (value ∷ rest) found
]

unfoldable pub check_route : RouteGet → Result RouteGet
check_route found =
    if found.destination == ""
    then err (failure "route output does not contain destination address")
    else if is_none (parse_addr found.destination)
    then err (failure "route destination is invalid")
    else if not (found.gateway == "") && is_none (parse_addr found.gateway)
    then err (failure "route gateway is invalid")
    else if found.interface == ""
    then err (failure "route output does not contain interface")
    else if not (found.source == "") && is_none (parse_addr found.source)
    then err (failure "route source is invalid")
    else ok found

abbrev no_route : RouteGet
no_route = record { destination = ""; gateway = ""; interface = ""; source = "" }

unfoldable pub parse_tokens : List String → Result RouteGet
unfolding read_tokens check_route
parse_tokens [] = err (failure "route output is empty")
parse_tokens (token ∷ tokens) = bind_result (read_tokens (token ∷ tokens) no_route) check_route

unfoldable pub parse_route_get : String → Result RouteGet
unfolding parse_tokens
parse_route_get output = parse_tokens (fields output)

unfoldable pub endpoint_exclusion_from_route_get : String → Result EndpointExclusion
unfolding parse_route_get
endpoint_exclusion_from_route_get output =
    bind_result (parse_route_get output)
      λ route. new_endpoint_exclusion route.destination route.gateway route.interface

parse_route_get_test :
    parse_route_get "203.0.113.10 via 192.168.1.1 dev eth0 src 192.168.1.20 uid 0 "
    ≡ ok (record {
      destination = "203.0.113.10";
      gateway = "192.168.1.1";
      interface = "eth0";
      source = "192.168.1.20";
    })
unfolding parse_route_get fields parse_addr
parse_route_get_test = refl
