-- ===== src/Sparkplug/Creation.antt =====
-- The constructors of nodes, hosts and devices with the topics that they make (src/sparkplugnode.cpp,
-- src/sparkplughost.cpp, src/sparkplugdevice.cpp), and the devices of a node.
use pubsublib.Prelude.{ℕ, true, false, none, some, [], ◌∷◌, ◌++◌, ◌||◌, if◌then◌else◌, is_none}
use pubsublib.Prelude.Int.{pos}
use pubsublib.Prelude.Texts.{Text, codes, is_empty}
use pubsublib.StringUtil.{StringUtil}
use pubsublib.StringUtil.Map.{find, insert, erase}
use pubsublib.Metric.TypeCode.{uint64, int64, boolean}
use pubsublib.Metric.Defs.{Metric, value_unsigned, value_bool, set_unit}
use pubsublib.Payload.Defs.{Payload, empty_payload, set_timestamp}
use pubsublib.Topic.Name.{set_topic, get_topic, sparkplug_namespace, state_word}
use pubsublib.Topic.Object.{Topic, make_sparkplug_topic}
use pubsublib.Externals.{Externals, HwInfo, qos0, qos1}
use pubsublib.Client.Defs.{
  Client, mqtt_tcp, mqtt311, get_topic_by_message_type, delete_topic, create_topic,
}
use pubsublib.Sparkplug.Device.{Device, idle}
use pubsublib.Sparkplug.Node.{Peer}
use pubsublib.Sparkplug.Start.{default_metric, text_metric}

-- The constructor of IPubSubClient.
unfoldable pub make_client : HwInfo → Client
make_client hw = record {
  settings = record {
    name = [];
    group_id = [];
    transport = mqtt_tcp;
    broker = codes "127.0.0.1";
    port = 1883;
    version = mqtt311;
    hardware_make = hw.cpu_vendor;
    hardware_model = hw.cpu_model;
    operating_system = hw.os_name;
    os_version = hw.os_kernel;
    scan_rate = pos 0;
    wait_on_host_online = false;
    username = [];
    password = [];
  };
  sparkplug_version = codes "3.0.0";
  topic_list = [];
  subscription_list = [];
  default_qos = qos1;
  in_service = true;
  connection_lost = false;
}

abbrev pub set_name : Text → Client → Client
set_name name c = record c { settings = record (c.settings) { name = name } }

abbrev pub set_group_id : Text → Client → Client
set_group_id group c = record c { settings = record (c.settings) { group_id = group } }

-- The word that nodes and devices write for the namespace: `kNamespace` of src/sparkplugdevice.cpp, and the
-- texts in the other functions.
abbrev pub written_namespace : Text
written_namespace = codes "spvBv1.0"

module _ (u : StringUtil) where
  -- A topic in place of the one that GetTopicByMessageType finds, which DeleteTopic removes by name.
  unfoldable pub replace_topic : Text → Topic → Client → Client
  replace_topic message_type t c = elim (get_topic_by_message_type u message_type c) [
    | none ↦ create_topic t c
    | some old ↦ create_topic t (delete_topic u (get_topic old.names).0 c)
  ]

  -- CreateNodeBirthTopic.
  unfoldable pub node_birth_topic : ℕ → Client → Topic
  node_birth_topic now c = record make_sparkplug_topic {
    names =
        record (set_topic (codes "spvBv1.0/" ++ c.group_id ++ codes "/NBIRTH/" ++ c.name)
          (make_sparkplug_topic.names)) {
            name_space = written_namespace;
            group_id = c.group_id;
            message_type = codes "NBIRTH";
            node_id = c.name;
          };
    publish = false;
    qos = qos0;
    retained = false;
    payload = set_timestamp u now true empty_payload;
  }

  unfoldable pub create_node_birth_topic : ℕ → Client → Client
  create_node_birth_topic now c = replace_topic (codes "NBIRTH") (node_birth_topic now c) c

  -- CreateNodeDeathTopic.
  unfoldable pub node_death_topic : ℕ → ℕ → Client → Topic
  node_death_topic bd_sequence_number now c = record make_sparkplug_topic {
    names =
        record (set_topic (codes "spvBv1.0/" ++ c.group_id ++ codes "/NDEATH/" ++ c.name)
          (make_sparkplug_topic.names)) {
            name_space = written_namespace;
            group_id = c.group_id;
            message_type = codes "NDEATH";
            node_id = c.name;
          };
    publish = false;
    qos = qos1;
    retained = false;
    payload = set_timestamp u now true (
        default_metric u (codes "bdSeq")
          (λ m. value_unsigned bd_sequence_number (record m { datatype = uint64 })) empty_payload);
  }

  unfoldable pub create_node_death_topic : ℕ → ℕ → Client → Client
  create_node_death_topic bd_sequence_number now c =
      replace_topic (codes "NDEATH") (node_death_topic bd_sequence_number now c) c

  -- CreateStateTopic: an old STATE topic stays.
  unfoldable pub state_topic : ℕ → Client → Topic
  state_topic start_time c = record make_sparkplug_topic {
    names = record (set_topic (codes "spBv1.0/STATE/" ++ c.name) (make_sparkplug_topic.names)) {
      name_space = sparkplug_namespace;
      group_id = [];
      message_type = state_word;
      node_id = c.name;
      device_id = [];
    };
    publish = false;
    qos = qos1;
    retained = true;
    content_type = codes "application/json";
    payload = set_timestamp u start_time false (
        default_metric u (codes "timestamp") (λ m. record m { datatype = uint64 })
          (default_metric u (codes "online")
            (λ m. value_bool false (record m { datatype = boolean })) empty_payload));
  }

  unfoldable pub create_state_topic : ℕ → Client → Client
  create_state_topic start_time c =
      if is_none (get_topic_by_message_type u (codes "STATE") c)
      then create_topic (state_topic start_time c) c
      else c

  -- CreateDeviceDeathTopic and CreateDeviceBirthTopic, given the node's name.
  unfoldable pub device_death_topic : Text → ℕ → Client → Topic
  device_death_topic parent now c = record make_sparkplug_topic {
    names =
        record (set_topic
          (codes "spvBv1.0/" ++ c.group_id ++ codes "/DDEATH/" ++ parent ++ b'/' ∷ c.name)
          (make_sparkplug_topic.names)) {
            name_space = written_namespace;
            group_id = c.group_id;
            message_type = codes "DDEATH";
            node_id = parent;
            device_id = c.name;
          };
    publish = true;
    qos = qos0;
    retained = false;
    payload = set_timestamp u now true empty_payload;
  }

  unfoldable pub device_metrics : Client → Payload → Payload
  device_metrics c p =
      let command = λ (m : Metric). value_bool false (record m { datatype = boolean }) in
      let reboot = default_metric u (codes "Device Control/Reboot") command p in
      let rebirth = default_metric u (codes "Device Control/Rebirth") command reboot in
      let scan_rate =
        default_metric u (codes "Device Control/Scan Rate")
          (λ m. set_unit u (codes "ms") (value_bool false (record m { datatype = int64 })))
          rebirth in
      let make = text_metric u (codes "Properties/Hardware Make") c.hardware_make scan_rate in
      let model = text_metric u (codes "Properties/Hardware Model") c.hardware_model make in
      let firmware = text_metric u (codes "Properties/FW") c.operating_system model in
      text_metric u (codes "Properties/FW Version") c.os_version firmware

  unfoldable pub device_birth_topic : Text → ℕ → Client → Topic
  device_birth_topic parent now c = record make_sparkplug_topic {
    names =
        record (set_topic
          (written_namespace
            ++ codes "/"
            ++ c.group_id
            ++ codes "/DBIRTH/"
            ++ parent
            ++ b'/' ∷ c.name)
          (make_sparkplug_topic.names)) {
            name_space = written_namespace;
            group_id = c.group_id;
            message_type = codes "DBIRTH";
            node_id = parent;
            device_id = c.name;
          };
    publish = true;
    qos = qos0;
    retained = false;
    payload = set_timestamp u now true (device_metrics c empty_payload);
  }

module _ (x : Externals) where
  -- The constructor of SparkplugDevice: the topics are made before the device has a name.
  unfoldable pub make_device : Text → ℕ → Device
  make_device parent now =
      let c = make_client x.hw_info in
      let dead = replace_topic x.util (codes "DDEATH") (device_death_topic x.util parent now c) c in
      let born =
        replace_topic x.util (codes "DBIRTH") (device_birth_topic x.util parent now dead) dead in
      record { client = born; device_state = idle }

  -- The constructors of SparkplugNode and SparkplugHost, for the entries of a node's list.
  unfoldable pub make_node_peer : ℕ → Peer
  make_node_peer now = record {
    is_host = false;
    client =
        create_node_death_topic x.util 0 now
          (create_node_birth_topic x.util now (make_client x.hw_info));
    device_list = [];
  }

  unfoldable pub make_host_peer : ℕ → Peer
  make_host_peer now =
      let n = make_node_peer now in
      record n {
        is_host = true;
        client = create_state_topic x.util 0 (record (n.client) { topic_list = [] });
      }

  -- CreateDevice; the one of a host makes nothing.
  unfoldable pub new_device : ℕ → Text → Client → Device
  new_device now device_name c =
      let d = make_device c.name now in
      record d { client = set_name device_name (set_group_id c.group_id d.client) }

  unfoldable pub create_device : ℕ → Text → Peer → Peer
  create_device now device_name p =
      if is_empty device_name || p.is_host
      then p
      else if is_none (find x.util device_name p.device_list)
      then record p {
        device_list = insert x.util device_name (new_device now device_name p.client) p.device_list;
      }
      else p

  -- DeleteDevice.
  unfoldable pub delete_device : Text → Peer → Peer
  delete_device device_name p =
      if p.is_host then p else record p { device_list = erase x.util device_name p.device_list }
