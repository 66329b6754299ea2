-- ===== src/Lib.antt =====
-- A verification library for the publish/subscribe library pubsublib: clients of an MQTT broker, plain
-- or speaking the Sparkplug B protocol.
--
-- The parts of the program, and the files that model them:
-- * A metric (include/pubsub/metric.h, src/metric.cpp, src/metricproperty.cpp) is a named value that is
--   kept as text, with properties and flags. Metric/TypeCode.antt has the type codes, Metric/Numbers.antt
--   the printing and reading of numbers, Metric/Defs.antt the class as a record and its operations.
-- * A payload (include/pubsub/payload.h, src/payload.cpp) is a list of metrics, sorted without regard to
--   case, and the bytes of a message: Payload/Defs.antt; Payload/Json.antt for the JSON text of STATE
--   messages; Payload/Protobuf for the messages of src/payloadhelper.cpp.
-- * A topic (include/pubsub/itopic.h, src/itopic.cpp) has a name of up to five levels and a payload.
--   Topic/Name.antt has the names, Topic/Object.antt the class and the publishing of its two subclasses
--   (src/mqtttopic.cpp, src/sparkplugtopic.cpp).
-- * A client (include/pubsub/ipubsubclient.h, src/ipubsubclient.cpp) has settings, topics and
--   subscriptions: Client/Defs.antt. Client/Config.antt has what it writes to a configuration file.
-- * The plain client (src/mqttclient.h, src/mqttclient.cpp) runs a worker thread, a machine of four states,
--   beside the callbacks of the MQTT library: Mqtt/Machine.antt has one function for each function of the
--   thread, Mqtt/Events.antt one for each callback and the runs of both.
-- * A Sparkplug device (src/sparkplugdevice.cpp) sends its birth and its death through its node:
--   Sparkplug/Device.antt. A Sparkplug node (src/sparkplugnode.h, src/sparkplugnode.cpp) has a worker thread
--   like that of the plain client, and numbers its messages, which Sparkplug/Publish.antt shares with the
--   devices: Sparkplug/Node.antt has its state and the parts of its rounds, Sparkplug/Task.antt the
--   thread and the callbacks, Sparkplug/Events.antt the runs, Sparkplug/Aliases.antt the alias numbers, and
--   Sparkplug/Start.antt what happens when a node is started.
-- * The constructors of nodes, hosts and devices with their topics are in Sparkplug/Creation.antt. What a
--   node does with the messages that arrive, and the external nodes, hosts and devices that it learns of, is
--   in Sparkplug/Routing: Known.antt has the list and the search in it, Handlers.antt one function for each
--   handler, Refinement.antt the map from names to entries that the list stands for.
-- * A Sparkplug host (src/sparkplughost.h, src/sparkplughost.cpp) is a node with a worker thread of its own,
--   which tells in STATE messages whether the host is online: Host/Machine.antt has its state and its
--   rounds, Host/Events.antt its life from Start to Stop.
-- * The search page of the manual (docs/manual/html/search/search.js): Manual/Ids.antt has its identifiers,
--   Manual/Results.antt the result rows and their keys, Manual/Box.antt the search panel,
--   Manual/Creating.antt the building of a page of results. The sections and folded code of the other pages
--   (docs/manual/html/dynsections.js) are in Manual/Sections.antt, the tables in Manual/Directory.antt.
--
-- How the code is translated:
-- * An object is a record, and a method that changes it a function from the old record to the new one. A
--   pointer to an element of a list stands for the element that the search finds. Null pointers in the
--   lists of metrics and topics, which the program tests for and never makes, are left out.
-- * A round of a worker thread takes what it meets (the clock, whether the handle is connected, whether
--   each call of the MQTT library succeeds) as an argument of type Env and returns the calls that it
--   makes. A run of a client is a list of events in any order: rounds, callbacks, and the user's switches.
--   A round is what a thread does between two tests of its loop, so that a Stop may come before the switch,
--   between the switch and the test, or at any time between rounds. The mutexes of the program are taken to
--   make each of these atomic. The arrival of a signal that wakes a thread early is one more round.
-- * Text is a list of bytes. A number is native; a machine integer wraps at its width. A floating point
--   number is the text that is printed for it.
-- * Other libraries are parameters: text comparison and the printing of floating point numbers
--   (StringUtil/Interface.antt, filled for the examples by StringUtil/Ascii.antt), the JSON and protobuf
--   formats, the MQTT library (Externals.antt), and the nodes of XML files (Client/Config.antt).
-- * Most loops run over lists. Two count down fuel: the printing of a number (Metric/Numbers.antt), which
--   starts it above the number, which has fewer digits, and the loops over the rows of the search page
--   (Manual/Results.antt), for which Manual/Navigation.antt shows how much is enough.
--
-- Not modelled: logging and the listener, TLS options and credentials at connect, the waiting of threads, the
-- opening and parsing of configuration files, the detection of brokers, the placing of windows on the search
-- page, and the building of the menus and of the controls of folded code.
mod Prelude
pub mod StringUtil
pub mod Metric
pub mod Payload
pub mod Externals
pub mod Topic
pub mod Client
pub mod Mqtt
pub mod Sparkplug
pub mod Host
pub mod Manual
mod Examples
