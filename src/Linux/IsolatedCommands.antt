-- ===== src/Linux/IsolatedCommands.antt =====
-- internal/platform/linux/isolated_commands.go: the commands of a network namespace.
use big_red_button.Base.{
  ◌≡◌, refl, String, ◌<>◌, ◌==◌, none, some, List, [], ◌∷◌, Result, ok, err, failure, bind_result,
  if◌then◌else◌,
}
use big_red_button.Base.Text.{trim_space, is_blank, all_chars}
use big_red_button.Netip.Parse.{parse_prefix}
use big_red_button.Netip.Print.{show_prefix}
use big_red_button.Linux.{Command, default_nft_binary}
use big_red_button.Linux.Commands.{ip_command, check_name, validate_interface_name}

unfoldable pub validate_namespace_name : String → Result String
validate_namespace_name namespace = check_name 64 (trim_space namespace)

unfoldable pub net_ns_add_command : String → Result Command
net_ns_add_command namespace =
    bind_result (validate_namespace_name namespace)
      λ namespace. ok (ip_command ("netns" ∷ "add" ∷ namespace ∷ []))

unfoldable pub net_ns_delete_command : String → Result Command
net_ns_delete_command namespace =
    bind_result (validate_namespace_name namespace)
      λ namespace. ok (ip_command ("netns" ∷ "delete" ∷ namespace ∷ []))

unfoldable pub net_ns_pids_command : String → Result Command
net_ns_pids_command namespace =
    bind_result (validate_namespace_name namespace)
      λ namespace. ok (ip_command ("netns" ∷ "pids" ∷ namespace ∷ []))

unfoldable pub veth_create_command : String → String → Result Command
veth_create_command host_veth namespace_veth =
    bind_result (validate_interface_name host_veth) λ host_veth.
      bind_result (validate_interface_name namespace_veth) λ namespace_veth.
        if host_veth == namespace_veth
        then err (failure "veth names must be different")
        else ok (
            ip_command (
              "link" ∷ "add" ∷ host_veth ∷ "type" ∷ "veth" ∷ "peer" ∷ "name" ∷ namespace_veth ∷ []))

unfoldable pub link_set_net_ns_command : String → String → Result Command
link_set_net_ns_command iface namespace = bind_result (validate_interface_name iface) λ iface.
    bind_result (validate_namespace_name namespace)
      λ namespace. ok (ip_command ("link" ∷ "set" ∷ iface ∷ "netns" ∷ namespace ∷ []))

unfoldable pub link_set_up_command : String → Result Command
link_set_up_command iface =
    bind_result (validate_interface_name iface)
      λ iface. ok (ip_command ("link" ∷ "set" ∷ "dev" ∷ iface ∷ "up" ∷ []))

unfoldable pub link_delete_command : String → Result Command
link_delete_command iface =
    bind_result (validate_interface_name iface)
      λ iface. ok (ip_command ("link" ∷ "delete" ∷ "dev" ∷ iface ∷ []))

unfoldable pub address_replace_command : String → String → Result Command
address_replace_command iface address = bind_result (validate_interface_name iface) λ iface.
    elim (parse_prefix (trim_space address)) [
      | none ↦ err (failure ("address " <> (address <> " is invalid")))
      | some prefix ↦
          ok (ip_command ("address" ∷ "replace" ∷ show_prefix prefix ∷ "dev" ∷ iface ∷ []))
    ]

unfoldable pub net_ns_ip_command : String → List String → Result Command
net_ns_ip_command namespace args =
    bind_result (validate_namespace_name namespace)
      λ namespace. ok (ip_command ("-n" ∷ namespace ∷ args))

unfoldable pub net_ns_address_replace_command : String → String → String → Result Command
net_ns_address_replace_command namespace iface address =
    bind_result (address_replace_command iface address)
      λ command. net_ns_ip_command namespace command.args

unfoldable pub net_ns_link_set_up_command : String → String → Result Command
net_ns_link_set_up_command namespace iface =
    bind_result (validate_interface_name iface)
      λ iface. net_ns_ip_command namespace ("link" ∷ "set" ∷ "dev" ∷ iface ∷ "up" ∷ [])

unfoldable pub net_ns_loopback_set_up_command : String → Result Command
net_ns_loopback_set_up_command namespace =
    net_ns_ip_command namespace ("link" ∷ "set" ∷ "dev" ∷ "lo" ∷ "up" ∷ [])

unfoldable pub net_ns_exec_command : String → Command → Result Command
net_ns_exec_command namespace command = bind_result (validate_namespace_name namespace) λ namespace.
    if is_blank command.name
    then err (failure "command name is required")
    else ok (ip_command ("netns" ∷ "exec" ∷ namespace ∷ command.name ∷ command.args))

unfoldable pub nft_apply_ruleset_command : String → Result Command
nft_apply_ruleset_command path =
    if trim_space path == ""
    then err (failure "nft ruleset path is required")
    else ok (record { name = default_nft_binary; args = "-f" ∷ trim_space path ∷ [] })

abbrev pub nft_flush_ruleset_command : Command
nft_flush_ruleset_command = record { name = default_nft_binary; args = "flush" ∷ "ruleset" ∷ [] }

veth_create_test :
    veth_create_command "brbh1" "brbh1" ≡ err (failure "veth names must be different")
unfolding veth_create_command validate_interface_name check_name all_chars trim_space
veth_create_test = refl
