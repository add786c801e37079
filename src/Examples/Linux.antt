-- ===== src/Examples/Linux.antt =====
-- Runs of the Linux executors on the small machine.
use big_red_button.Base.{
  ◌≡◌, refl, String, true, false, none, some, List, [], Result, ok, err, not_exist, contains,
}
use big_red_button.Base.Text.{trim_space}
use big_red_button.Base.FilePath.{join_path}
use big_red_button.Planner.{Plan}
use big_red_button.Planner.System.{connect}
use big_red_button.Engine.{idle, failed_dirty, run_connect, run_disconnect}
use big_red_button.Engine.Transaction.{ids}
use big_red_button.Runtime.Store.{load, clear, store_path}
use big_red_button.Supervisor.{WstunnelExecutor}
use big_red_button.Wireguard.{config_from_profile}
use big_red_button.Linux.{Command}
use big_red_button.Linux.Lifecycle.{Lifecycle, lifecycle_executor, new_lifecycle}
use big_red_button.Linux.Lifecycle.Idle.{disconnect_without_state}
use big_red_button.Linux.Lifecycle.Dirty.{late_ids, connect_failure_is_dirty}
use big_red_button.Examples.Machine.{fresh_machine, machine_host, machine_host-RefusesSecondDelete}
use big_red_button.Examples.Runtime.{some_state}
use big_red_button.Examples.Planner.{
  some_options, some_config, fingerprint, plain_plan, plain_planned, disconnect_plan,
  disconnect_planned,
}

abbrev lifecycle_for : Plan → Lifecycle
lifecycle_for plan = record {
  plan = plan;
  route = record {
    plan = plan;
    route_exclusions_by_endpoint = [];
    discovered_by_endpoint = [];
    runtime_state = some_state;
    store_root = "/run/brb";
    runtime_state_missing = false;
    operations = [];
  };
  dns = record { plan = plan; operations = [] };
  wstunnel = some (record {
    command = record { name = "wstunnel"; args = [] };
    process = none;
    operations = [];
  });
  wireguard = record {
    config = config_from_profile some_config "brb0";
    runtime_root = "/run/brb";
    operations = [];
  };
}

nothing_stored :
    load (machine_host some_state) "/run/brb" fresh_machine
    ≡ err (not_exist "read runtime state: no such file")
unfolding load machine_host store_path trim_space big_red_button.Base.wrap
nothing_stored = refl

nothing_cleared : clear (machine_host some_state) "/run/brb" fresh_machine ≡ (ok tt, fresh_machine)
unfolding clear machine_host store_path trim_space
nothing_cleared = refl

disconnect_without_state_example :
    let out =
      run_disconnect
        (lifecycle_executor (machine_host some_state))
        disconnect_plan
        (lifecycle_for disconnect_plan, fresh_machine) in
    (out.0.state ≡ idle)
    × (out.0.applied_step_ids ≡ ids disconnect_plan.steps)
    × (out.1.1 ≡ fresh_machine)
disconnect_without_state_example =
    disconnect_without_state (machine_host some_state) some_options disconnect_plan
      (lifecycle_for disconnect_plan) fresh_machine fresh_machine "read runtime state: no such file"
      disconnect_planned nothing_stored nothing_cleared

-- `wg` fails, so the run fails at the peer.
fails_late :
    contains late_ids
      (run_connect
        (lifecycle_executor (machine_host some_state))
        plain_plan
        (lifecycle_for plain_plan, fresh_machine)).0.failed_step_id
    ≡ true
unfolding run_connect contains big_red_button.Engine.connect_loop connect
    big_red_button.Planner.Normalize.normalize_options
    big_red_button.Planner.Normalize.collect_endpoints
    big_red_button.Planner.Normalize.normalize_dns_servers
    big_red_button.Planner.Normalize.add_servers big_red_button.Base.Text.fields_func
    big_red_button.Linux.Lifecycle.apply big_red_button.Linux.Details.detail_values
    big_red_button.Base.Text.cut_prefix machine_host big_red_button.Supervisor.apply
    big_red_button.Linux.WireguardExecutor.apply big_red_button.Linux.WireguardExecutor.run_built
    big_red_button.Linux.Commands.wireguard_create_interface_command
    big_red_button.Linux.Commands.validate_interface_name big_red_button.Linux.WireguardExecutor.run
    big_red_button.Host.call big_red_button.Host.command_error
    big_red_button.Linux.WireguardExecutor.run_each
    big_red_button.Linux.Commands.wireguard_add_address_command
    big_red_button.Linux.Commands.wireguard_set_mtu_command
    big_red_button.Linux.Commands.wireguard_set_up_command
    big_red_button.Linux.Commands.wireguard_set_config_command
    big_red_button.Wireguard.render_set_conf big_red_button.Linux.WireguardExecutor.write_config
    big_red_button.Linux.WireguardExecutor.set_conf config_from_profile trim_space join_path
    big_red_button.Base.Text.is_blank big_red_button.Netip.Parse.parse_prefix
    big_red_button.Netip.Print.show_prefix big_red_button.Engine.abort
    big_red_button.Linux.Lifecycle.rollback big_red_button.Base.Text.all_chars
    big_red_button.Engine.note_rollback_err big_red_button.Engine.join_errors
    big_red_button.Linux.WireguardExecutor.rollback
    big_red_button.Linux.Commands.wireguard_delete_interface_command
    big_red_button.Linux.WireguardExecutor.clean_up big_red_button.Supervisor.rollback
    big_red_button.Engine.note_rolled_back big_red_button.Engine.note_rollback_failed
    big_red_button.Engine.note_failed
fails_late = refl

connect_failure_is_dirty_example :
    (run_connect
      (lifecycle_executor (machine_host some_state))
      plain_plan
      (lifecycle_for plain_plan, fresh_machine)).0.state
    ≡ failed_dirty
connect_failure_is_dirty_example =
    connect_failure_is_dirty (machine_host some_state) (machine_host-RefusesSecondDelete some_state)
      fingerprint some_config some_options plain_plan (lifecycle_for plain_plan, fresh_machine)
      plain_planned fails_late
