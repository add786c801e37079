-- ===== src/Supervisor/Wstunnel.antt =====
-- internal/supervisor/wstunnel.go: the command line of the helper process.
use big_red_button.Base.{
  String, ◌<>◌, ◌==◌, ◌&&◌, ◌||◌, not, Option, none, some, List, [], ◌∷◌, ◌++◌, Result, ok, err,
  failure, bind_result, if◌then◌else◌, show_ℤ,
}
use big_red_button.Base.Int.{ℤ, pos, below, above, equals}
use big_red_button.Base.Net.{atoi, split_host_port, join_host_port}
use big_red_button.Base.Text.{trim_space, is_blank, cut_prefix}
use big_red_button.Netip.{is6}
use big_red_button.Netip.Parse.{parse_addr}
use big_red_button.Profile.{Config}
use big_red_button.Linux.{Command}

abbrev pub default_wstunnel_remote_host : String
default_wstunnel_remote_host = "localhost"

abbrev pub default_wstunnel_log_level : String
default_wstunnel_log_level = "INFO"

pub record WstunnelClientConfig : Type 0 where
  pub binary : String
  pub server_url : String
  pub path_prefix : String
  pub tls_server_name : String
  pub local_udp_listen : String
  pub remote_udp_host : String
  pub remote_udp_port : ℤ
  pub log_level : String

-- A `url.URL` as the program reads it: its scheme, its host, and the text that `String` prints of it
-- without its path, its query and its fragment.
pub record Url : Type 0 where
  pub scheme : String
  pub host : String
  pub base : String

-- `firstNonEmpty`, of two texts.
unfoldable pub first_of : String → String → String
first_of first second = if trim_space first == "" then trim_space second else trim_space first

unfoldable pub wstunnel_client_config_from_profile : Config → String → WstunnelClientConfig
wstunnel_client_config_from_profile config binary = record {
  binary = binary;
  server_url = config.wstunnel_url;
  path_prefix = config.wstunnel_path;
  tls_server_name = first_of config.wstunnel_tls_name config.sni;
  local_udp_listen = config.local_udp_listen;
  remote_udp_host = "";
  remote_udp_port = pos 0;
  log_level = "";
}

unfoldable pub format_host_port : String → String → String
format_host_port host port = elim (parse_addr host) [
  | none ↦ host <> (":" <> port)
  | some addr ↦ if is6 addr then join_host_port host port else host <> (":" <> port)
]

unfoldable pub normalize_path_prefix : String → String
normalize_path_prefix path_prefix = elim (cut_prefix (trim_space path_prefix) "/") [
  | none ↦ trim_space path_prefix
  | some rest ↦ rest
]

unfoldable pub remote_host : WstunnelClientConfig → String
remote_host config =
    if trim_space config.remote_udp_host == ""
    then default_wstunnel_remote_host
    else trim_space config.remote_udp_host

-- The text of a forward, once the local endpoint is taken apart.
unfoldable pub udp_forward : WstunnelClientConfig → String → String → ℤ → Result String
udp_forward config local_host local_port parsed_port =
    let remote_port =
      if equals config.remote_udp_port 0 then parsed_port else config.remote_udp_port in
    if below remote_port 1 || above remote_port 65535
    then err (failure "remote UDP port must be in 1..65535")
    else ok (
        "udp://"
        <> (format_host_port local_host local_port
            <> (":"
                <> (format_host_port (remote_host config) (show_ℤ remote_port)
                    <> "?timeout_sec=0"))))

unfoldable pub wstunnel_udp_forward : WstunnelClientConfig → Result String
wstunnel_udp_forward config = elim (split_host_port (trim_space config.local_udp_listen)) [
  | none ↦ err (failure "parse local UDP listen endpoint")
  | some (local_host, local_port) ↦
      if is_blank local_host
      then err (failure "local UDP listen host is required")
      else elim (atoi local_port) [
        | none ↦ err (failure "local UDP listen port is invalid")
        | some parsed_port ↦ udp_forward config local_host local_port parsed_port
      ]
]

-- An option of the command line, left out for an empty value.
unfoldable pub option_args : String → String → List String
option_args name value = if value == "" then [] else name ∷ value ∷ []

unfoldable pub client_args : WstunnelClientConfig → String → String → List String
client_args config local_to_remote server_url =
    let log_level =
      if trim_space config.log_level == ""
      then default_wstunnel_log_level
      else trim_space config.log_level in
    ("client" ∷ "--log-lvl" ∷ log_level ∷ [])
    ++ (option_args "--http-upgrade-path-prefix" (normalize_path_prefix config.path_prefix)
        ++ (option_args "--tls-sni-override" (trim_space config.tls_server_name)
            ++ ("-L" ∷ local_to_remote ∷ server_url ∷ [])))

-- `url.Parse` is an argument.
module _ (parse_url : String → Option Url) where
  unfoldable pub wstunnel_server_base_url : String → Result String
  wstunnel_server_base_url raw = elim (parse_url (trim_space raw)) [
    | none ↦ err (failure "parse wstunnel URL")
    | some parsed ↦
        if not (parsed.scheme == "wss")
          && not (parsed.scheme == "ws")
          && not (parsed.scheme == "https")
          && not (parsed.scheme == "http")
        then err (failure "wstunnel URL scheme must be ws, wss, http or https")
        else if parsed.host == ""
        then err (failure "wstunnel URL host is required")
        else ok parsed.base
  ]

  unfoldable pub wstunnel_client_command : WstunnelClientConfig → Result Command
  wstunnel_client_command config =
      if trim_space config.binary == ""
      then err (failure "wstunnel binary is required")
      else bind_result (wstunnel_server_base_url config.server_url) λ server_url.
        bind_result (wstunnel_udp_forward config) λ local_to_remote. ok (record {
          name = trim_space config.binary;
          args = client_args config local_to_remote server_url;
        })
