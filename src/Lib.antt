-- ===== src/Lib.antt =====
-- A model of the services of App Runner, a host for virtual machines: internal/dhcp hands out
-- addresses on a bridge, internal/nat forwards its traffic, internal/serialconsole streams a guest's
-- serial port to one client, internal/hostnet changes the host's network and undoes a change that
-- nobody confirms, internal/vm owns the machines themselves, and internal/ipmi serves a virtual BMC for
-- each of them that has one.
--
-- The parts and their files:
--
-- Dhcp.Range is ParseRange and the tests on addresses of internal/dhcp/dhcp.go; Net holds what they
-- use of Go's net/netip, an address as its number. Dhcp.Lease is acquireLease and
-- renewHardwareLeaseLocked on the table of one bridge, Dhcp.Manage the other changes to that table
-- (releaseLease, ClearDynamicLeases, DeleteLease, SetStaticLease), Dhcp.Packet the packet handler
-- that calls both. Dhcp.Settings is Configure and the suggestion of a free range, Dhcp.Service what
-- Prepare, Release, Reconcile and Shutdown do to the services of bridges; both call Dns, the checks
-- of DNS settings in internal/dns/dns.go, or Validate. The lease table is an association list in
-- the order in which a Go map happens to be walked; the clock and the success of saveLocked are
-- arguments, and the provider, the listeners and the NAT and DNS controllers of Dhcp.Service are a
-- parameter, as they are interfaces in Go.
--
-- Serial.Session is session, attachment and Stream of internal/serialconsole/hub.go: one function
-- for each critical section of the session's mutex, so that a list of steps is an interleaving of
-- its goroutines. A channel is a queue with a flag; the channels of all attachments are kept.
--
-- Nat is Start, Stop, Running and FinishRecovery of internal/nat/nat.go. The rules and the
-- forwarding switch of the kernel are part of the state, and an argument says which of an
-- operation's calls succeed.
--
-- Hostnet.Change is ValidateChange, validateWorkloadSafety and describeChange of
-- internal/hostnet/manager.go, which read names through Validate (internal/validate/validate.go) and
-- machines through Vm (the helpers at the end of internal/vm/vm.go; Vm.Bridges is about them). Hostnet.Pending is Apply,
-- Confirm, Revert, the timeout and the recovery after a restart. The provider that changes the host
-- is a parameter; nothing is assumed of it, and the theorems say which snapshot is restored, and when.
-- Hostnet.Pending.Death is about a process that dies between two calls of an Apply.
--
-- Machines is the Manager of internal/vm/vm.go, on the definitions of Vm. Its children are the
-- operations: Machines.Checks and Machines.Files what they validate and the files they write,
-- Machines.Power Start, Stop, the escalation of a Stop, the forced stop, Reboot and the exit of a
-- process, Machines.Devices the network interfaces, Machines.Media disks, CD-ROM drives and the BMC's
-- settings, Machines.Creation, Machines.Produce and Machines.Clone new machines, Machines.Definition
-- Update, ConfigureCloudInit, Delete and NewManager. What runs under the manager's lock is one function; an
-- operation that leaves the lock is a function for each part, and Machines.Steps has every part as a
-- step, so that a sequence of steps is an interleaving. Everything that the manager calls is the
-- record Platform, which acts on an unknown Host. Machines.Moves is what a client sees of the
-- manager and the moves that it can make; its children show that each operation is made of moves,
-- Machines.Invariants, Machines.Quiet and Machines.Frozen what each move keeps. Machines.Rules carries
-- a property past an operation's guards, which Machines.RoundTrip, Machines.Started and Machines.Edits
-- use.
--
-- Bmc is the Manager of internal/ipmi/ipmi.go, which serves one virtual BMC for each machine that has
-- one enabled, on the definitions of Vm; Bmc.Apart is about their addresses, Bmc.Served about what
-- Configure leaves. The calls on the host's network are the record Bmc.Network.
--
-- Examples runs the theorems at concrete inputs. Prelude holds the shared tests, lists and maps.
--
-- Numbers are natural numbers, process IDs included, of which the source tests for negative ones; the
-- 32-bit sums of ParseRange wrap around by a remainder. No
-- definition runs on fuel: the scan of the pool counts down the addresses that are left, and so does
-- the search for a free range; all other loops go through a list.
--
-- Not modelled: sockets, files and the kernel, which the arguments stand for; the generated RPC
-- code, the API and the clients, which pass calls on; the QEMU driver; the DNS and framebuffer
-- servers, and the chassis commands of a virtual BMC.
pub mod Prelude
pub mod Net
pub mod Dns
pub mod Dhcp
pub mod Serial
pub mod Validate
pub mod Vm
pub mod Hostnet
pub mod Nat
pub mod Machines
pub mod Bmc
pub mod Examples
