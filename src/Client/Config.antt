-- ===== src/Client/Config.antt =====
-- The settings of a client in a configuration file (src/ipubsubclient.cpp). The XML nodes of the external
-- library util/ixmlfile.h are an interface: a property is a text under a name, and the library prints
-- and reads the numbers and flags. Opening, writing and parsing the file are left out.
use pubsublib.Prelude.{
  ℕ, ◌≡◌, ◌<◌, ◌^◌, Bool, false, Option, none, some, List, [], ◌∷◌, if◌then◌else◌,
}
use pubsublib.Prelude.Int.{ℤ, pos}
use pubsublib.Prelude.Texts.{Text, codes, text_eq}
use pubsublib.Prelude.Words.{two_31, two_63, InRange}
use pubsublib.StringUtil.{StringUtil}
use pubsublib.Client.Defs.{
  Settings, TransportLayer, mqtt_tcp, mqtt_web_socket, mqtt_tcp_tls, mqtt_web_socket_tls,
  ProtocolVersion, mqtt31, mqtt311, mqtt5,
}

-- IXmlNode: SetProperty, ExistProperty and Property<T>, which read back what was set last. A signed type is
-- read by half the number of its values.
pub record XmlNodes : Type 1 where
  pub Node : Type 0
  pub set_property : Text → Text → Node → Node
  pub get_property : Text → Node → Option Text
  pub get_property_set :
      (j k v : Text) (n : Node)
      → get_property j (set_property k v n) ≡ (if text_eq j k then some v else get_property j n)
  pub print_unsigned : ℕ → Text
  pub read_uint16 : Text → ℕ
  pub read_print_unsigned : (n : ℕ) → n < 2 ^ 16 → read_uint16 (print_unsigned n) ≡ n
  pub print_signed : ℤ → Text
  pub read_signed_within : ℕ → Text → ℤ
  pub read_print_signed :
      (half : ℕ) (n : ℤ) → InRange half n → read_signed_within half (print_signed n) ≡ n
  pub print_flag : Bool → Text
  pub read_flag : Text → Bool
  pub read_print_flag : (b : Bool) → read_flag (print_flag b) ≡ b

-- The options for TLS.
pub record SslOptions : Type 0 where
  pub trust_store : Text
  pub key_store : Text
  pub private_key : Text
  pub private_key_password : Text
  pub enabled_cipher_suites : Text
  pub enable_cert_auth : Bool
  pub ssl_version : ℤ
  pub ca_path : Text
  pub disable_default_trust_store : Bool

-- TransportToString and VersionToString.
unfoldable pub transport_to_string : TransportLayer → Text
transport_to_string mqtt_tcp_tls = codes "MqttTcpTls"
transport_to_string mqtt_web_socket = codes "MqttWebSocket"
transport_to_string mqtt_web_socket_tls = codes "MqttWebSocketTls"
transport_to_string mqtt_tcp = codes "MqttTcp"

unfoldable pub version_to_string : ProtocolVersion → Text
version_to_string mqtt31 = codes "MQTT 3.1"
version_to_string mqtt5 = codes "MQTT 5.0"
version_to_string mqtt311 = codes "MQTT 3.1.1"

module _ (u : StringUtil) where
  -- TransportFromString and VersionFromString.
  unfoldable pub transport_from_string : Text → TransportLayer
  transport_from_string transport =
      if u.iequals transport (codes "MqttTcpTls")
      then mqtt_tcp_tls
      else if u.iequals transport (codes "MqttWebSocket")
      then mqtt_web_socket
      else if u.iequals transport (codes "MqttWebSocketTls")
      then mqtt_web_socket_tls
      else mqtt_tcp

  unfoldable pub version_from_string : Text → ProtocolVersion
  version_from_string version =
      if u.iequals version (codes "MQTT 3.1")
      then mqtt31
      else if u.iequals version (codes "MQTT 5.0")
      then mqtt5
      else mqtt311

module _ (x : XmlNodes) where
  -- SetProperty, for each of a list of properties in turn.
  unfoldable pub set_properties : List (Text × Text) → x.Node → x.Node
  set_properties [] n = n
  set_properties ((name, value) ∷ rest) n = set_properties rest (x.set_property name value n)

  -- The properties that WriteGeneralXml and WriteSslXml set.
  unfoldable pub general_properties : Settings → List (Text × Text)
  general_properties s =
      (codes "Name", s.name)
      ∷ (codes "GroupId", s.group_id)
      ∷ (codes "Transport", transport_to_string s.transport)
      ∷ (codes "Broker", s.broker)
      ∷ (codes "Port", x.print_unsigned s.port)
      ∷ (codes "ProtocolVersion", version_to_string s.version)
      ∷ (codes "HardwareMake", s.hardware_make)
      ∷ (codes "HardwareModel", s.hardware_model)
      ∷ (codes "OperatingSystem", s.operating_system)
      ∷ (codes "OsVersion", s.os_version)
      ∷ (codes "ScanRate", x.print_signed s.scan_rate)
      ∷ (codes "WaitOnHostOnline", x.print_flag s.wait_on_host_online)
      ∷ (codes "Username", s.username)
      ∷ (codes "Password", s.password)
      ∷ []

  unfoldable pub ssl_properties : SslOptions → List (Text × Text)
  ssl_properties o =
      (codes "TrustStore", o.trust_store)
      ∷ (codes "KeyStore", o.key_store)
      ∷ (codes "PrivateKey", o.private_key)
      ∷ (codes "PrivateKeyPassword", o.private_key_password)
      ∷ (codes "EnabledCipherSuites", o.enabled_cipher_suites)
      ∷ (codes "EnableCertAuth", x.print_flag o.enable_cert_auth)
      ∷ (codes "SslVersion", x.print_signed o.ssl_version)
      ∷ (codes "CaPath", o.ca_path)
      ∷ (codes "DisableDefaultTrustStore", x.print_flag o.disable_default_trust_store)
      ∷ []

  -- WriteGeneralXml and WriteSslXml.
  unfoldable pub write_general_xml : Settings → x.Node → x.Node
  write_general_xml s = set_properties (general_properties s)

  unfoldable pub write_ssl_xml : SslOptions → x.Node → x.Node
  write_ssl_xml o = set_properties (ssl_properties o)

  -- A field that keeps its value if the property does not exist.
  unfoldable pub read_property {ℓ} : {A : Type ℓ} → Text → (Text → A) → A → x.Node → A
  read_property name read old n = elim (x.get_property name n) [
    | none ↦ old
    | some value ↦ read value
  ]

  abbrev as_text : Text → Text
  as_text s = s

  -- ReadGeneralXml.
  unfoldable pub read_general_xml : StringUtil → x.Node → Settings → Settings
  read_general_xml u n s = record {
    name = read_property (codes "Name") as_text s.name n;
    group_id = read_property (codes "GroupId") as_text s.group_id n;
    transport = read_property (codes "Transport") (transport_from_string u) s.transport n;
    broker = read_property (codes "Broker") as_text s.broker n;
    port = read_property (codes "Port") x.read_uint16 s.port n;
    version = read_property (codes "ProtocolVersion") (version_from_string u) s.version n;
    hardware_make = read_property (codes "HardwareMake") as_text s.hardware_make n;
    hardware_model = read_property (codes "HardwareModel") as_text s.hardware_model n;
    operating_system = read_property (codes "OperatingSystem") as_text s.operating_system n;
    os_version = read_property (codes "OsVersion") as_text s.os_version n;
    scan_rate = read_property (codes "ScanRate") (x.read_signed_within two_63) s.scan_rate n;
    wait_on_host_online =
        read_property (codes "WaitOnHostOnline") x.read_flag s.wait_on_host_online n;
    username = read_property (codes "Username") as_text s.username n;
    password = read_property (codes "Password") as_text s.password n;
  }

  -- ReadSslXml: a property that does not exist is empty, false or 0.
  unfoldable pub read_ssl_xml : x.Node → SslOptions
  read_ssl_xml n = record {
    trust_store = read_property (codes "TrustStore") as_text [] n;
    key_store = read_property (codes "KeyStore") as_text [] n;
    private_key = read_property (codes "PrivateKey") as_text [] n;
    private_key_password = read_property (codes "PrivateKeyPassword") as_text [] n;
    enabled_cipher_suites = read_property (codes "EnabledCipherSuites") as_text [] n;
    enable_cert_auth = read_property (codes "EnableCertAuth") x.read_flag false n;
    ssl_version = read_property (codes "SslVersion") (x.read_signed_within two_31) (pos 0) n;
    ca_path = read_property (codes "CaPath") as_text [] n;
    disable_default_trust_store =
        read_property (codes "DisableDefaultTrustStore") x.read_flag false n;
  }
