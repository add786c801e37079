-- ===== src/Lib.antt =====
-- Big Red Button: a launcher that brings up one VPN profile on Linux, as a WireGuard interface whose
-- traffic goes through a WSTunnel client process.
--
-- The program, from the repository's root. internal/planner makes a plan, a list of steps, from a
-- profile and options. internal/engine runs a plan against an executor: a connect stops at the first
-- step that fails and rolls back what it applied, a disconnect goes on after errors.
-- internal/platform/linux is the executor: the lifecycle executor hands each step to the executor of
-- its part (routes, DNS, WireGuard, and internal/supervisor for the helper process), which builds a
-- command and runs it. internal/runtime keeps what a connect did in a state file, which a later
-- disconnect reads, and internal/status reports of that file. A profile can also be used for one
-- application only: internal/planner/isolated.go plans a network namespace of its own for a session,
-- with a pair of virtual links to the host, and the isolated executor carries such a plan out, stops
-- it, or cleans up after it.
--
-- The files.
--   Planner, Planner/Normalize, Planner/System: Options, Step and Plan; normalizeOptions and
--     normalizeDNSServers; Connect and Disconnect, cut into the groups of steps that they append.
--     Planner/System/Secrets and Rollbacks are about what the steps say.
--   Planner/Isolated: the options of one application's tunnel. Identity (session ids, the command, its
--     user and environment), Network (DNS servers, the address pair, names of links), Normalize, Tunnel
--     (IsolatedAppTunnel, cut into groups of steps) and Stop (IsolatedAppStop, IsolatedAppCleanup) are
--     isolated.go. Identity/Uuid, Identity/Settings, Network/Veth and Normalize/DefaultNames are about
--     what normalization accepts; Planned, Tunnel/Steps and Cleanup about the plans.
--   Engine: Engine.Run, runConnect, runDisconnect, rollbackApplied over any executor, a record of
--     apply and rollback on a state type. Engine/Transaction says what a run is without the loops;
--     Engine/Connect, Disconnect, Success, Dispatch and Split prove things of runs.
--   Host: what the executors ask of the machine, a record of operations on a type of machine states:
--     running commands and processes, files, and the JSON of a state. The theorems hold for every
--     such record, with the laws that they name.
--   Linux/Commands, RouteGet, Details: commands.go, dns_commands.go, wireguard_commands.go, routes.go
--     and the readers of step details in dryrun.go. Linux/RouteExecutor, DnsExecutor,
--     WireguardExecutor, Lifecycle: the executors of the same names; an executor's fields that change
--     are threaded with the machine's state. Linux/DnsExecutor/Clean is about a failed
--     apply-dns; Linux/Lifecycle/Support, Idle, Twice and Dirty are about the executor and the planner's
--     plans together.
--   Linux/IsolatedCommands: isolated_commands.go. Linux/IsolatedExecutor: isolated_executor.go, its
--     state here, its handlers in Setup, Processes and Teardown, what it reads from steps (from
--     dryrun.go too) in Render, and Apply and Rollback in Dispatch, where a step's id chooses a case.
--     Launch relates the planned launch to the command; Dispatch/Support, Idle, Dirty, BestEffort and
--     Cleanup are about the executor and the isolated plans together.
--   Runtime, Runtime/Store, Runtime/Sessions: State, Validate, Save, Load, Clear and
--     ListIsolatedSessions of internal/runtime/state.go. Status, Status/Sessions: FromStore and
--     IsolatedSessions of internal/status/status.go, on Linux. Supervisor: the helper's executor.
--     Supervisor/Wstunnel: its command line, internal/supervisor/wstunnel.go.
--   Wireguard: internal/wireguard/config.go. Routes: internal/routes/routes.go. Profile: the record of
--     internal/profile/profile.go that the planner reads, and its fingerprint.
--   Netip, Netip/Parse, Netip/Print: the addresses of the standard library's net/netip, with
--     Netip/RoundTrip. Base: tests, lists, texts, errors and the monad of fallible stateful code;
--     Base/Net: net.SplitHostPort, net.JoinHostPort and strconv.Atoi; Base/Pieces: laws of
--     texts. Examples: runs on a small machine.
--
-- How the source is read. A Go error is a value, Err, that keeps its message and whether it is
-- os.ErrNotExist. A method that changes its receiver or the machine is a function to a result and a
-- new state, and a state survives an error. A context is the machine's answer to ctx.Err(). A receiver
-- is not nil, but where the source gives a nil executor a meaning. Go's int is an integer without
-- bounds: no number of the program nears them. Loops are structural recursion, so no run needs fuel;
-- the printing of a hexadecimal group has fuel 4, as a group has at most four digits.
--
-- Not modelled: the parsing of profiles, the dry run, the daemon, the desktop and the command line.
-- The operating system and encoding/json are parameters, and so are SHA-256 (a function of a text and
-- the index of a byte, or to a text of hexadecimal digits), url.Parse (the parts of a URL that the
-- program reads) and the verb %q of fmt where a session is listed. The planners take the fingerprint of
-- a profile as a function of the profile; the program's own is Profile.fingerprint. The errors of the
-- planner about an address keep the source's words, without the quoted token and net/netip's own text.
mod Base
pub mod Netip
pub mod Routes
pub mod Planner
pub mod Profile
pub mod Engine
pub mod Linux
pub mod Host
pub mod Runtime
pub mod Wireguard
pub mod Supervisor
pub mod Status
mod Examples
