-- ===== src/Lib.antt =====
-- go-network-configurator changes the network configuration of a host: it changes the running
-- system first, checks that the host is still reachable, and then writes the change to every
-- configuration system and control panel that it has detected. This library models its core and
-- the configurator for Linux.
--
-- The parts, and the files of the repository that they model:
--
-- - Prelude: lists, tests, texts and Exec, code that acts on the state of the machine and may
--   fail. What was done before an error stays done, so an Exec returns the state beside an error.
-- - Net: the helpers on addresses of utils.go and networkConfigurator.go (ip2Uint, uint2IP,
--   getBroadcast, ipIsIn, stringInSlice), on top of what the program uses of Go's package net. An
--   IP is its bytes, and nil is the empty list.
-- - Natural: naturalLess of utils.go. Its loop takes at least one byte off the first name in each
--   round, so it runs on the fuel `length a + 1`; Natural.Key shows that this is enough.
-- - Iface: Interface, Route and the functions on interfaces of networkConfigurator.go
--   (FindPhysicalInterfaces, preferInterface, FindInterfaceByName, reorderPrimaryAddress). A
--   stable sort is an insertion sort.
-- - Backend: the interfaces ifaceBackend and panelBackend as records of operations on the state,
--   the loops that push a change to all of them (applyIfaceAddresses and its kin, reloadPanels,
--   ...), and mergeBackendState, of networkConfigurator.go. What a backend does is a parameter.
-- - Options: options.go. A duration is a signed number of nanoseconds.
-- - Host: the calls of netlink, pro-bing and net/http as a record of operations, with pingTest and
--   testInternet of utils.go on it; Host.Keeps has one rule for each way to build code that leaves
--   a view of the state as it is.
-- - Files, Backups: fileMove, fileCopy and pruneBackups of utils.go over the calls of package os.
-- - Services: waitForServiceReady of services.go. Each wait of its loop ends with a tick or with
--   the end of the context, and the list of these is the schedule that the loop runs on.
-- - InitState: services_linux.go, over the calls of os, os/exec, path/filepath and go-systemd. A
--   map is a list of pairs with the last write in front.
-- - Spaces, NetTexts: white space around a text, and the texts of addresses and numbers, which
--   packages net and strconv read and write, as a record of functions.
-- - Networkd: networkd.go. The package ini is a record of operations on a file with handles of its
--   sections, and Networkd.Config holds what is relied on of it. Networkd.Read reads a directory,
--   Networkd.Report is GetInterfaces, Networkd.Save is Save over the calls of package os, and
--   Networkd.Update has the methods that change an interface. Its other children are proofs: an
--   interface is put together from the parts that its sections give (Parts, Assembled), and
--   Addresses, Dhcp, Routes, Saved and SubFiles hold the theorems.
-- - Ifupdown: ifupdown.go, the interface with its DHCP setting and EnsureInterface. Ifupdown.Read
--   has the cases of ReadFile that stay in a file, Ifupdown.Scripts the commands of its up and down
--   lines, Ifupdown.Effects what they do, and Ifupdown.ReadFile the loop over the lines, the files
--   that are named, and newIfUpDown.
--   Ifupdown.Report is GetInterfaces and Ifupdown.Write is Write, as the lines that it prints;
--   Ifupdown.Rewrite is the scan of an existing file in Save, line by line, Ifupdown.Save is Save
--   over the calls of package os, and Ifupdown.Update has the methods that change an interface.
--   Ifupdown.Dhcp, Ifupdown.Distinct, Ifupdown.Replaced and Ifupdown.Reported hold the theorems, and
--   Added, Names, Kept, Cases, Lines, Scanned and Config their lemmas. Files that name each other without
--   end are read without end by the code, so read_file takes the depth to which they may, and gives
--   an error of its own beyond it. Nothing else here needs fuel.
-- - Linux: configurator_linux.go and dns_linux.go. Each method is cut where its comments cut it:
--   what happens on the running system returns a Plan for the configuration files, and `persist`
--   and its kin write it. Linux.AddAddress, Linux.RemoveAddress, Linux.SetPrimary,
--   Linux.StaticRoutes, Linux.Interfaces, Linux.Dhcp, Linux.Dns and Linux.NewConfigurator hold the
--   methods; their children say what a method has done where it succeeds (Success, Described,
--   Registered) and that it has written nothing where it fails (Safety). Linux.Defaults is the loop
--   over the default routes that RemoveAddress and SetPrimaryAddress share; Linux.Performed and
--   Linux.Online are calls in turn and tests of the connection, in terms of which the children
--   AddressSet, Rerouted, Connected and Reordered say what a method does on the running system.
-- - Tests: a small machine on which the theorems are applied, and tests by evaluation.
--
-- Modelling choices: a context is not modelled, a cancelled one shows as a call that fails. What
-- goes to the log only is left out. The destination of a route is never nil, as netlink gives it.
-- Nothing else changes the machine while a method runs. Lower case is that of ASCII. The zero
-- netlink.Addr is the address of no bytes. In NewConfigurator the constructors of the backends
-- are operations of a record. A metric and a prefix are not negative, and the opaque field Link of
-- an interface is left out. In networkd.go a path that is there and that os.Stat cannot look at, on
-- which the code panics, counts as absent. For ifupdown.go a file is the list of its lines and
-- os.Stat is a parameter; a gateway line without an interface, on which the code panics, counts as
-- an error there.
--
-- Not modelled: the other backends (networkManager.go, networkScripts.go, netplan.go,
-- cloudinit.go), the control panels (cpanel.go, plesk_linux.go, interworx.go), the configurator for
-- Windows, running a command, the YAML and JSON codec of intString, and how values print.
pub mod Prelude
pub mod Net
pub mod Natural
pub mod Iface
pub mod Backend
pub mod Options
pub mod Host
pub mod Linux
pub mod Networkd
pub mod Ifupdown
pub mod NetTexts
pub mod Spaces
pub mod Files
pub mod Tests
pub mod Backups
pub mod Services
pub mod InitState
