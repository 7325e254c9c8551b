-- ===== src/Lib.antt =====
-- Simcan2Fog, a simulator of clouds and fogs on OMNeT++: its core logic and what is proved of it.
--
-- The parts. A resource manager places the VMs of a request on the nodes of a pool by a selection
-- strategy. On a node, a hypervisor keeps a control table of the VMs and their processes, asks the
-- hardware manager for cores, and gives each VM a round-robin scheduler, which shares the cores among
-- the requests of the processes. Deployments say which applications run on a VM. All of them talk in
-- messages that carry a trace of where they have been. A proof-of-work chain runs as an
-- application. A DNS server answers from a tree of zones that a registry writes to, a resolver asks the
-- servers for its clients, and a client sends a query to its servers until one answers.
-- Above them, a cloud provider sends the requests of the users to the data centers, of which it keeps a
-- table, and queues those that wait. The manager of a data center has its resource manager place a
-- request, sends the VMs to the hypervisors, and tells the provider what is left. A user counts
-- which of its VMs are finished. In the network stack of a node, a proxy binds the sessions of clients
-- to the applications that offer a service.
--
-- Files and code:
--   Prelude/       vectors, maps, machine words, and Outcome, the result of a call that may fault
--   Resources      src/s2f/os/hardwaremanagers/NodeResources.{h,cc}: operator<=, getLogicalDistance
--   Pool           src/s2f/management/managers/Node.{h,cc}, NodePool.{h,cc}
--   Pool/Selection src/s2f/management/managers/selection/Strategies.cc: first_fit is
--                  FirstFit::selectNode, best_fit is BestFit::selectNode
--   Manager        src/s2f/management/managers/ResourceManager.{h,cc}: allocate_vms is allocateVms
--   Hardware       src/s2f/os/hardwaremanagers/{HardwareManager,EdgeHardwareManager,DcHardwareManager}.cc
--   Cpu            src/s2f/messages/SM_CPU_Message.{msg,cc}
--   Cpu/Core       src/s2f/architecture/cpu/CpuCore.cc
--   Cpu/Scheduler  src/s2f/os/schedulers/CpuSchedulerRR.{h,cc}
--   Users          src/s2f/management/dataClasses/Users/CloudUserInstance.{h,cc}
--   UserApp        src/s2f/messages/SM_UserAPP.{msg,cc}
--   ControlTable   src/s2f/os/control/VmControlTable.{h,cc}, ControlEntries.{h,cc}
--   Hypervisor     src/s2f/os/hypervisors/Hypervisor.{h,cc}
--   Trace          src/s2f/messages/SIMCAN_Message.{h,cc}
--   Chain          src/s2f/architecture/p2p/pow/chain/{Blockchain,UtxoSet}.{h,cc}
--   Dns            src/s2f/architecture/dns/db/DnsTree.{h,cc}
--   Dns/Server     src/s2f/architecture/dns/server/DnsServiceSimplified.cc
--   Dns/Removal    src/s2f/architecture/dns/db/DnsTree.cc, removeRecord
--   Dns/Registry   src/s2f/architecture/dns/registry/DnsRegistryService.cc, db/DnsDb.cc
--   Dns/Names      src/s2f/architecture/dns/DnsCommon.{h,cc}
--   Dns/Client     src/s2f/architecture/dns/client/DnsClientService.{h,cc}
--   Dns/Resolver   src/s2f/architecture/dns/resolver/DnsResolverService.cc, Resolution.h:
--                  Processing is processResolution, Handlers are the handlers
--   Cloud/NodeTable  src/s2f/management/cloudprovider/NodeTable.{h,cc}; Cloud/Sorted has its vectors
--   Cloud/Provider src/s2f/management/cloudprovider/CloudProvider.{h,cc}
--   DataCenter     src/s2f/management/managers/DcManager.{h,cc}, ManagerBase.cc,
--                  src/s2f/architecture/net/db/SimpleNetDb.cc
--   Proxy          src/s2f/architecture/net/stack/proxy/{ServiceTable,Session,AppProxy}.{h,cc}
--   Tests/         runs and instances at concrete inputs
-- A function of the model has the name of the function of the code, in snake case; the state of an
-- object is a record with its fields, and a method takes and returns it. A message that is sent is
-- part of the result.
--
-- Outcome. failed_assert is ASSERT2, which is checked in a build without NDEBUG; runtime_error is
-- error() or a thrown exception, also that of at() out of range; out_of_range is that one in the
-- handlers of DataCenter, where the caller catches it; undefined is what C++ leaves undefined: an index outside an array, a null or dangling pointer, a signed sum that overflows.
-- Numbers. An unsigned field is a number below the modulus of its width, and its arithmetic wraps
-- (add32, sub32, add64). An int that is an index is an optional number. Simulated time is a number.
--
-- Fuel. Cpu.Core.run counts the timers of one request on a core; a request with a positive quantum
-- leaves the core within its quantum, so that many rounds are enough. The loops of Chain.get_difficulty
-- have fuel too, of which five rounds are enough. Dns.Resolver.Processing.process has fuel for the
-- changes of a name by its aliases: one more than the changes is enough, and a chain that does not end
-- is what overflows the stack. Hypervisor.Commands.drain has fuel for the turns of a loop that ends
-- within one. Every other loop runs over a list.
--
-- Parameters. The strategy and the catalogue of VM types are arguments of allocate_vms, the heap
-- of the C++ library one of best_fit, with the contract of std::make_heap as a record. The tree of zones
-- takes the set of records and its operations, and the server the tokens of a name, the pattern of its
-- authority and the generated accessors of an array. The cloud provider takes what its data
-- manager finds for the name of a VM type or a user, the manager of a data center the tokens of a URL
-- and the forecast of the machines in use, and the proxy the drawing of an endpoint and the removal of
-- the domain from a host name. Modules of the simulator, gates, logging and
-- statistics are left out.
--
-- Not modelled: the lookup of modules and parameters, the network stack, the
-- loading of DNS zones from parameters, the applications themselves, cryptography, the generators
-- of users and models, and the reading of configuration files.
pub mod Prelude
pub mod Cloud
pub mod DataCenter
pub mod Proxy
pub mod Resources
pub mod Pool
pub mod Manager
pub mod Hardware
pub mod Cpu
pub mod UserApp
pub mod Users
pub mod ControlTable
pub mod Hypervisor
pub mod Trace
pub mod Tests
pub mod Chain
pub mod Dns
