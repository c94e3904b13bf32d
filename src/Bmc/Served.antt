-- ===== src/Bmc/Served.antt =====
-- What a virtual BMC is after Configure.
use app_runner.Prelude.{◌≡◌, ◌⊎◌, inr, true, Option, none, some, lookup}
use app_runner.Net.{Addr, Prefix}
use app_runner.Vm.{VirtualMachine}
use app_runner.Bmc.{Endpoint, Network, BmcError, Result, serves}

abbrev Found : Prefix → BmcError ⊎ Prefix
Found q = inr q

module _ {Host : Type 0} (p : Network Host) where
  -- The prefix that is found is of the address.
  IsOf : Option Addr → BmcError ⊎ Prefix → Type 0
  IsOf a r = (q : Prefix) → r ≡ inr q → a ≡ some q.addr

  -- A success is served.
  abbrev Serves : VirtualMachine → Result Host → Type 0
  Serves v r =
      r.1 ≡ none
      → (e : Endpoint) × (lookup v.id r.0.runtimes ≡ some e)
        × (serves v.ipmi (p.parse_addr v.ipmi.address) e ≡ true)
