-- ===== src/Examples/Session.antt =====
-- Runs of the executor of a tunnel for one application on the small machine.
use big_red_button.Base.{
  ◌≡◌, refl, String, true, false, none, some, List, [], ◌∷◌, ◌++◌, ok, map, if◌then◌else◌, err,
  not_exist, contains,
}
use big_red_button.Base.Text.{is_blank, trim_space}
use big_red_button.Planner.{Plan}
use big_red_button.Planner.Isolated.{NormalizedOptions}
use big_red_button.Planner.Isolated.Identity.{has_identity}
use big_red_button.Planner.Isolated.Normalize.{executable}
use big_red_button.Planner.Isolated.Tunnel.{launch_step, arguments}
use big_red_button.Engine.{idle, failed_dirty, run_connect, run}
use big_red_button.Engine.Transaction.{ids}
use big_red_button.Runtime.Store.{load, store_path}
use big_red_button.Linux.IsolatedCommands.{net_ns_exec_command}
use big_red_button.Linux.IsolatedExecutor.{IsolatedExecutor}
use big_red_button.Linux.IsolatedExecutor.Render.{
  with_env, with_identity, isolated_app_launch_command_from_step,
}
use big_red_button.Linux.IsolatedExecutor.Launch.{launch_command, identity_words, env_words}
use big_red_button.Linux.IsolatedExecutor.Dispatch.{isolated_executor}
use big_red_button.Linux.IsolatedExecutor.Dispatch.BestEffort.{IsRemovable}
use big_red_button.Linux.IsolatedExecutor.Dispatch.Cleanup.{cleanup_settles}
use big_red_button.Linux.IsolatedExecutor.Dispatch.Dirty.{late_ids, tunnel_failure_is_dirty}
use big_red_button.Linux.IsolatedExecutor.Dispatch.Idle.{stop_without_state}
use big_red_button.Examples.Machine.{
  fresh_machine, machine_host, machine_host-RefusesSecondLinkDelete,
}
use big_red_button.Examples.Runtime.{some_state}
use big_red_button.Examples.Planner.{some_config, fingerprint}
use big_red_button.Examples.Isolated.{
  digest, browser_options, stop_options, session_id, tunnel_plan, tunnel_planned, stop_plan,
  stop_planned, cleanup_plan, cleanup_planned,
}

abbrev session_for : Plan → IsolatedExecutor
session_for plan = record {
  plan = plan;
  profile = some_config;
  session_runtime_root = "/run/brb/isolated/session";
  net_ns_config_root = "/etc/netns";
  runtime_state = some_state;
  runtime_state_missing = false;
  wstunnel_process = none;
  app_process = none;
  operations = [];
}

machine_host-IsRemovable : IsRemovable (machine_host some_state)
unfolding machine_host
machine_host-IsRemovable = record { live = λ w. refl; removes = λ path w. refl }

cleanup_settles_example :
    let out =
      run
        (some (isolated_executor (machine_host some_state) (λ text. none)))
        cleanup_plan
        (session_for cleanup_plan, fresh_machine) in
    (out.0.state ≡ idle) × (out.0.applied_step_ids ≡ ids cleanup_plan.steps)
cleanup_settles_example =
    cleanup_settles (machine_host some_state) (λ text. none) machine_host-IsRemovable stop_options
      cleanup_plan (session_for cleanup_plan, fresh_machine) cleanup_planned

nothing_stored :
    load (machine_host some_state) "/run/brb/isolated/session" fresh_machine
    ≡ err (not_exist "read runtime state: no such file")
unfolding load machine_host store_path trim_space big_red_button.Base.wrap
nothing_stored = refl

stop_without_state_example :
    let out =
      run
        (some (isolated_executor (machine_host some_state) (λ text. none)))
        stop_plan
        (session_for stop_plan, fresh_machine) in
    (out.0.state ≡ idle)
    × (out.0.applied_step_ids ≡ ids stop_plan.steps)
    × (out.1.1 ≡ fresh_machine)
stop_without_state_example =
    stop_without_state (machine_host some_state) (λ text. none) stop_options stop_plan
      (session_for stop_plan) fresh_machine "read runtime state: no such file" stop_planned
      nothing_stored

-- No URL can be read, so the run fails at the control process.
fails_late :
    contains late_ids
      (run_connect
        (isolated_executor (machine_host some_state) (λ text. none))
        tunnel_plan
        (session_for tunnel_plan, fresh_machine)).0.failed_step_id
    ≡ true
unfolding contains run_connect big_red_button.Engine.connect_loop machine_host
    big_red_button.Planner.Isolated.Tunnel.isolated_app_tunnel
    big_red_button.Planner.Isolated.Identity.normalize_uuid trim_space
    big_red_button.Planner.Isolated.Identity.lower_char
    big_red_button.Planner.Isolated.Identity.to_lower
    big_red_button.Planner.Isolated.Identity.is_hex
    big_red_button.Planner.Isolated.Identity.is_dash_index
    big_red_button.Planner.Isolated.Identity.check_uuid
    big_red_button.Planner.Isolated.Identity.is_uuid
    big_red_button.Planner.Isolated.Identity.short_session_id
    big_red_button.Planner.Isolated.Identity.trimmed_texts
    big_red_button.Planner.Isolated.Identity.normalize_app_command
    big_red_button.Planner.Isolated.Identity.parse_non_negative_id
    big_red_button.Planner.Isolated.Identity.normalize_launch_identity
    big_red_button.Planner.Isolated.Identity.is_allowed_desktop_env_key
    big_red_button.Planner.Isolated.Identity.add_setting
    big_red_button.Planner.Isolated.Identity.add_variable
    big_red_button.Planner.Isolated.Identity.add_variables
    big_red_button.Planner.Isolated.Identity.normalize_launch_env
    big_red_button.Planner.Isolated.Normalize.default_names
    big_red_button.Planner.Isolated.Normalize.normalize_subject
    big_red_button.Planner.Isolated.Normalize.given_names
    big_red_button.Planner.Isolated.Normalize.check_names
    big_red_button.Planner.Isolated.Normalize.normalize_parts
    big_red_button.Planner.Isolated.Normalize.normalize_isolated_app_options
    big_red_button.Planner.Isolated.Network.first_non_empty
    big_red_button.Planner.Isolated.Network.is_dns_separator
    big_red_button.Planner.Isolated.Network.add_server
    big_red_button.Planner.Isolated.Network.add_tokens
    big_red_button.Planner.Isolated.Network.add_values
    big_red_button.Planner.Isolated.Network.require_servers
    big_red_button.Planner.Isolated.Network.normalize_isolated_dns
    big_red_button.Planner.Isolated.Network.veth_third
    big_red_button.Planner.Isolated.Network.veth_block
    big_red_button.Planner.Isolated.Network.link_local
    big_red_button.Planner.Isolated.Network.default_veth_address_pair
    big_red_button.Planner.Isolated.Network.check_veth_addresses
    big_red_button.Planner.Isolated.Network.parse_veth_addresses
    big_red_button.Planner.Isolated.Network.normalize_veth_addresses
    big_red_button.Planner.Isolated.Network.check_port
    big_red_button.Planner.Isolated.Network.local_udp_port
    big_red_button.Planner.Isolated.Network.is_name_char
    big_red_button.Planner.Isolated.Network.validate_name
    big_red_button.Planner.Isolated.Network.validate_linux_namespace_name
    big_red_button.Planner.Isolated.Network.validate_linux_interface_name
    big_red_button.Base.Text.fields_func big_red_button.Base.Text.keep_chars
    big_red_button.Base.Net.atoi big_red_button.Base.Net.split_host_port
    big_red_button.Base.Distinct.append_new big_red_button.Netip.Parse.parse_prefix
    big_red_button.Netip.Print.show_prefix big_red_button.Netip.prefix_contains
    big_red_button.Netip.same_prefix big_red_button.Netip.masked big_red_button.Base.Text.all_chars
    big_red_button.Planner.Isolated.Tunnel.validation_steps
    big_red_button.Planner.Isolated.Tunnel.host_steps
    big_red_button.Planner.Isolated.Tunnel.namespace_steps
    big_red_button.Planner.Isolated.Tunnel.control_step
    big_red_button.Planner.Isolated.Tunnel.tunnel_steps
    big_red_button.Planner.Isolated.Tunnel.tunnel_plan
    big_red_button.Linux.IsolatedExecutor.Dispatch.apply
    big_red_button.Linux.IsolatedExecutor.Dispatch.rollback
    big_red_button.Linux.IsolatedExecutor.Setup.check_absent
    big_red_button.Linux.IsolatedExecutor.Setup.create_runtime_root
    big_red_button.Linux.IsolatedExecutor.Setup.validate_prerequisites
    big_red_button.Linux.IsolatedExecutor.Setup.create_veth_pair
    big_red_button.Linux.IsolatedExecutor.Setup.configure_host_veth
    big_red_button.Linux.IsolatedExecutor.Setup.configure_namespace_veth
    big_red_button.Linux.IsolatedExecutor.Setup.configure_namespace_dns
    big_red_button.Linux.IsolatedExecutor.Setup.start_wstunnel_control
    big_red_button.Linux.IsolatedCommands.validate_namespace_name
    big_red_button.Linux.IsolatedCommands.net_ns_add_command
    big_red_button.Linux.IsolatedCommands.net_ns_delete_command
    big_red_button.Linux.IsolatedCommands.veth_create_command
    big_red_button.Linux.IsolatedCommands.link_set_net_ns_command
    big_red_button.Linux.IsolatedCommands.link_set_up_command
    big_red_button.Linux.IsolatedCommands.link_delete_command
    big_red_button.Linux.IsolatedCommands.address_replace_command
    big_red_button.Linux.IsolatedCommands.net_ns_ip_command
    big_red_button.Linux.IsolatedCommands.net_ns_address_replace_command
    big_red_button.Linux.IsolatedCommands.net_ns_link_set_up_command
    big_red_button.Linux.IsolatedCommands.net_ns_loopback_set_up_command
    big_red_button.Linux.IsolatedExecutor.run big_red_button.Linux.IsolatedExecutor.run_built
    big_red_button.Engine.abort big_red_button.Engine.note_rollback_err
    big_red_button.Engine.join_errors big_red_button.Engine.note_rolled_back
    big_red_button.Engine.note_rollback_failed big_red_button.Engine.note_failed
    big_red_button.Base.Text.cut_prefix big_red_button.Host.call
    big_red_button.Linux.IsolatedExecutor.record_runtime
    big_red_button.Planner.Isolated.Identity.setpriv_prerequisite has_identity
    big_red_button.Planner.Isolated.Identity.env_prerequisite
    big_red_button.Linux.Details.detail_value big_red_button.Linux.IsolatedExecutor.record_command
    big_red_button.Linux.Commands.validate_interface_name
    big_red_button.Linux.IsolatedExecutor.Render.wstunnel_control_command_from_step
    big_red_button.Supervisor.Wstunnel.wstunnel_client_command
    big_red_button.Supervisor.Wstunnel.wstunnel_server_base_url
    big_red_button.Linux.IsolatedExecutor.Teardown.remove_namespace_dns
    big_red_button.Linux.IsolatedExecutor.Teardown.namespace_for_dns
    big_red_button.Linux.IsolatedExecutor.Teardown.remove_dns_files
fails_late = refl

tunnel_failure_is_dirty_example :
    (run_connect
      (isolated_executor (machine_host some_state) (λ text. none))
      tunnel_plan
      (session_for tunnel_plan, fresh_machine)).0.state
    ≡ failed_dirty
tunnel_failure_is_dirty_example =
    tunnel_failure_is_dirty (machine_host some_state) (λ text. none)
      (machine_host-RefusesSecondLinkDelete some_state) fingerprint digest some_config
      browser_options tunnel_plan (session_for tunnel_plan, fresh_machine) tunnel_planned fails_late

-- Options with a user, a setting and an argument.
abbrev launch_options : NormalizedOptions
launch_options = record {
  session_id = session_id;
  app_id = "browser";
  app_command = "/usr/bin/firefox" ∷ " --new-instance" ∷ [];
  dns = "1.1.1.1" ∷ [];
  wstunnel_binary = "wstunnel";
  wireguard_interface = "brbwg0a1b2c3";
  runtime_root = "/run/brb";
  session_runtime_root = "/run/brb/isolated/session";
  namespace = "brb-0a1b2c3d";
  host_veth = "brbh0a1b2c3d";
  namespace_veth = "brbn0a1b2c3d";
  host_address = "169.254.71.1/30";
  namespace_address = "169.254.71.2/30";
  host_gateway = "169.254.71.1";
  wstunnel_listen = "169.254.71.1:51820";
  wireguard_endpoint = "169.254.71.1:51820";
  launch_uid = "1000";
  launch_gid = "1000";
  launch_env = "DISPLAY=:0" ∷ [];
}

accepted :
    big_red_button.Linux.IsolatedCommands.validate_namespace_name
      (trim_space launch_options.namespace)
    ≡ ok "brb-0a1b2c3d"
unfolding trim_space big_red_button.Linux.IsolatedCommands.validate_namespace_name
    big_red_button.Linux.Commands.check_name big_red_button.Base.Text.all_chars
accepted = refl

named : is_blank (trim_space (executable launch_options.app_command)) ≡ false
unfolding trim_space is_blank
named = refl

launch_command_example :
    isolated_app_launch_command_from_step (launch_step launch_options)
    ≡ ok (record {
      name = "ip";
      args =
          "netns"
          ∷ "exec"
          ∷ "brb-0a1b2c3d"
          ∷ (identity_words
                (trim_space launch_options.launch_uid)
                (trim_space launch_options.launch_gid)
              ++ (env_words launch_options.launch_env
                  ++ (trim_space (executable launch_options.app_command)
                      ∷ map trim_space (arguments launch_options.app_command))));
    })
launch_command_example = launch_command launch_options "brb-0a1b2c3d" accepted named
