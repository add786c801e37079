-- ===== src/Linux/IsolatedExecutor/Render.antt =====
-- The texts and the commands that the steps of a tunnel plan are made into, in
-- internal/platform/linux/isolated_executor.go and dryrun.go.
use big_red_button.Base.{
  String, ◌<>◌, ◌==◌, ◌&&◌, ◌||◌, not, Option, none, some, List, [], ◌∷◌, ◌++◌, Result, ok, err,
  failure, if◌then◌else◌, is_empty, show_ℤ,
}
use big_red_button.Base.Int.{pos, below, above}
use big_red_button.Base.Net.{atoi, split_host_port}
use big_red_button.Netip.{Addr, is4}
use big_red_button.Netip.Parse.{parse_addr}
use big_red_button.Netip.Print.{show_addr}
use big_red_button.Planner.{Step}
use big_red_button.Supervisor.Wstunnel.{Url, wstunnel_client_command}
use big_red_button.Linux.{Command}
use big_red_button.Linux.Details.{detail_value, detail_values}
use big_red_button.Linux.IsolatedCommands.{net_ns_exec_command}

-- The rules of the kill switch, once the control endpoint is known.
unfoldable pub kill_switch_rules : String → String → Addr → String → String
kill_switch_rules iface namespace_veth addr port =
    "flush ruleset\ntable inet brb_isolated {\n  chain output {\n    type filter hook output priority 0; policy drop;\n    oifname \"lo\" accept\n    oifname \""
    <> (iface
        <> ("\" accept\n    oifname \""
            <> (namespace_veth
                <> ("\" "
                    <> ((if is4 addr then "ip daddr " else "ip6 daddr ")
                        <> (show_addr addr <> (" udp dport " <> (port <> " accept\n  }\n}\n"))))))))

unfoldable pub render_endpoint_rules : String → String → String × String → Result String
render_endpoint_rules iface namespace_veth (host, port) = elim (atoi port) [
  | none ↦ err (failure "parse control endpoint port")
  | some port_number ↦
      if below port_number 1 || above port_number 65535
      then err (failure "control endpoint port must be in 1..65535")
      else elim (parse_addr host) [
        | none ↦ err (failure "parse control endpoint address")
        | some addr ↦ ok (kill_switch_rules iface namespace_veth addr (show_ℤ port_number))
      ]
]

unfoldable pub render_namespace_kill_switch_rules : Step → Result String
render_namespace_kill_switch_rules step =
    elim (split_host_port (detail_value step "allowed_control_endpoint")) [
      | none ↦ err (failure "parse control endpoint")
      | some endpoint ↦
          render_endpoint_rules (detail_value step "interface") (detail_value step "namespace_veth")
            endpoint
    ]

-- A command under `env` with the settings in front.
unfoldable pub with_env : List String → Command → Command
with_env env_args command =
    if is_empty env_args
    then command
    else record { name = "env"; args = env_args ++ (command.name ∷ command.args) }

-- A command under `setpriv` with a user and a group.
unfoldable pub with_identity : String → String → Command → Command
with_identity uid gid command =
    if not (uid == "") && not (gid == "")
    then record {
      name = "setpriv";
      args = "--reuid" ∷ uid ∷ "--regid" ∷ gid ∷ "--init-groups" ∷ command.name ∷ command.args;
    }
    else command

unfoldable pub isolated_app_launch_command_from_step : Step → Result Command
isolated_app_launch_command_from_step step = net_ns_exec_command (detail_value step "namespace") (
    with_identity (detail_value step "launch_uid") (detail_value step "launch_gid") (
      with_env (detail_values step "app_env")
        (record { name = detail_value step "executable"; args = detail_values step "app_arg" })))

unfoldable pub wstunnel_control_command_from_step : (String → Option Url) → Step → Result Command
wstunnel_control_command_from_step parse_url step = wstunnel_client_command parse_url (record {
  binary = detail_value step "binary";
  server_url = detail_value step "target";
  path_prefix = detail_value step "path_prefix";
  tls_server_name = detail_value step "tls_server_name";
  local_udp_listen = detail_value step "local_udp";
  remote_udp_host = "";
  remote_udp_port = pos 0;
  log_level = "";
})

-- The text of resolv.conf.
unfoldable pub resolv_conf : List String → String
resolv_conf [] = ""
resolv_conf (dns ∷ servers) = "nameserver " <> (dns <> ("\n" <> resolv_conf servers))
