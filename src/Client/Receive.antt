-- ===== src/Client/Receive.antt =====
-- client/common/network/net.c, `process_udp`: the handler that a command's id selects, after the
-- checksum test and for datagrams that are no DHCP reply.
use kos_tool.Prelude.{
  ℕ, ◌+◌, Bool, true, false, ◌&&◌, ◌||◌, not, List, [], ◌∷◌, ◌==◌, if◌then◌else◌, codes,
}
use kos_tool.Wire.{same_bytes}
use kos_tool.Client.{Client, Platform, Request, Event, emit, screensaver_wake}
use kos_tool.Client.Upload.{cmd_loadbin, cmd_partbin, cmd_donebin}
use kos_tool.Client.Download.{cmd_sendbinq, cmd_sendbin}
use kos_tool.Client.Control.{
  cmd_reboot, cmd_execute, cmd_capabilities, cmd_version, cmd_maple, cmd_pmcr, cmd_setrtc,
}
use kos_tool.Client.Retval.{cmd_retval}
pub mod Waiting

-- What the handlers take from the drivers: the place of the refusal's text, the maple bus and the
-- performance counters.
pub record Devices : Type 0 where
  pub text : ℕ
  pub maple : List ℕ → ℕ → ℕ
  pub read_array : ℕ → List ℕ
  pub getconfig_array : ℕ → List ℕ

-- A command's id, or none of them.
pub data Command : Type 0 where
  partbin maple pmcr donebin retval loadbin sendbinq sendbin execute : Command
  version capabilities setrtc reboot unknown : Command

-- The chain of comparisons, in its order.
unfoldable pub command_of : List ℕ → Command
command_of id =
    if same_bytes 4 id (codes "PBIN")
    then partbin
    else if same_bytes 4 id (codes "MAPL")
    then maple
    else if same_bytes 4 id (codes "PMCR")
    then pmcr
    else if same_bytes 4 id (codes "DBIN")
    then donebin
    else if same_bytes 4 id (codes "RETV")
    then retval
    else if same_bytes 4 id (codes "LBIN")
    then loadbin
    else if same_bytes 4 id (codes "SBIQ")
    then sendbinq
    else if same_bytes 4 id (codes "SBIN")
    then sendbin
    else if same_bytes 4 id (codes "EXEC")
    then execute
    else if same_bytes 4 id (codes "VERS")
    then version
    else if same_bytes 4 id (codes "CAPS")
    then capabilities
    else if same_bytes 4 id (codes "SRTC")
    then setrtc
    else if same_bytes 4 id (codes "RBOT")
    then reboot
    else unknown

unfoldable pub handle : Platform → Devices → Command → Request → Client → Client
handle p d partbin req s = cmd_partbin p req s
handle p d maple req s = cmd_maple d.maple req s
handle p d pmcr req s = cmd_pmcr d.read_array d.getconfig_array req s
handle p d donebin req s = cmd_donebin p req s
handle p d retval req s = cmd_retval req s
handle p d loadbin req s = cmd_loadbin p d.text req s
handle p d sendbinq req s = cmd_sendbinq p req s
handle p d sendbin req s = cmd_sendbin p req s
handle p d execute req s = cmd_execute p req s
handle p d version req s = cmd_version p req s
handle p d capabilities req s = cmd_capabilities req s
handle p d setrtc req s = cmd_setrtc req s
handle p d reboot req s = cmd_reboot s
handle p d unknown req s = s

-- A command for one of the two ports and this adapter wakes the screensaver first.
unfoldable pub process_udp : Platform → Devices → Bool → Request → Client → Client
unfolding command_of handle
process_udp p d to_us req s =
    let woken =
      if ((req.udp_dest == 31313) || (req.udp_dest == 53535)) && to_us
      then emit screensaver_wake s
      else s in
    handle p d (command_of req.id) req woken
