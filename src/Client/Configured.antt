-- ===== src/Client/Configured.antt =====
-- The settings that are written to a configuration file are read back (src/ipubsubclient.cpp).
use pubsublib.Prelude.{
  ◌≡◌, ◌<◌, ◌^◌, refl, ap, ◌∙◌, false, Option, some, List, [], ◌∷◌, arith, if◌then◌else◌,
}
use pubsublib.Prelude.Texts.{Text, codes, text_eq, fold_case, lower}
use pubsublib.Prelude.Words.{two_31, two_63, InRange}
use pubsublib.StringUtil.{StringUtil}
use pubsublib.StringUtil.Ascii.{text_eq-of_eq}
use pubsublib.Prelude.Texts.{text_eq_sound}
use pubsublib.Client.Defs.{
  Settings, TransportLayer, mqtt_tcp, mqtt_web_socket, mqtt_tcp_tls, mqtt_web_socket_tls,
  ProtocolVersion, mqtt31, mqtt311, mqtt5,
}
use pubsublib.Prelude.Int.{pos}
use pubsublib.Client.Config.{
  XmlNodes, SslOptions, transport_to_string, version_to_string, transport_from_string,
  version_from_string, set_properties, general_properties, ssl_properties, write_general_xml,
  write_ssl_xml, read_property, read_general_xml, read_ssl_xml,
}

-- IEquals, as it computes on two known texts.
iequals_computes :
    (u : StringUtil) (s t : Text) → u.iequals s t ≡ text_eq (fold_case s) (fold_case t)
iequals_computes u s t = ground (
  arith,
  (u.iequals_iff s t).0,
  (u.iequals_iff s t).1,
  text_eq_sound (fold_case s) (fold_case t),
  text_eq-of_eq (fold_case s) (fold_case t),
)

-- The value that a list of properties gives to a name: the last one.
abbrev last_value : Text → List (Text × Text) → Option Text → Option Text
last_value name [] found = found
last_value name ((k, v) ∷ rest) found =
    last_value name rest (if text_eq name k then some v else found)

module _ (u : StringUtil) where
  -- Every transport and every version that is written is read back.
  pub transport-round_trip :
      (t : TransportLayer) → transport_from_string u (transport_to_string t) ≡ t
  unfolding transport_from_string transport_to_string text_eq lower
  transport-round_trip t = elim t as (λ k. transport_from_string u (transport_to_string k) ≡ k) [
    | mqtt_tcp ↦
        rw
          (
            iequals_computes u (codes "MqttTcp") (codes "MqttTcpTls"),
            iequals_computes u (codes "MqttTcp") (codes "MqttWebSocket"),
            iequals_computes u (codes "MqttTcp") (codes "MqttWebSocketTls"),
          )
          refl
    | mqtt_web_socket ↦
        rw
          (
            iequals_computes u (codes "MqttWebSocket") (codes "MqttTcpTls"),
            iequals_computes u (codes "MqttWebSocket") (codes "MqttWebSocket"),
          )
          refl
    | mqtt_tcp_tls ↦ rw (iequals_computes u (codes "MqttTcpTls") (codes "MqttTcpTls")) refl
    | mqtt_web_socket_tls ↦
        rw
          (
            iequals_computes u (codes "MqttWebSocketTls") (codes "MqttTcpTls"),
            iequals_computes u (codes "MqttWebSocketTls") (codes "MqttWebSocket"),
            iequals_computes u (codes "MqttWebSocketTls") (codes "MqttWebSocketTls"),
          )
          refl
  ]

  pub version-round_trip : (v : ProtocolVersion) → version_from_string u (version_to_string v) ≡ v
  unfolding version_from_string version_to_string text_eq lower
  version-round_trip mqtt31 = rw (iequals_computes u (codes "MQTT 3.1") (codes "MQTT 3.1")) refl
  version-round_trip mqtt311 =
      rw
        (
          iequals_computes u (codes "MQTT 3.1.1") (codes "MQTT 3.1"),
          iequals_computes u (codes "MQTT 3.1.1") (codes "MQTT 5.0"),
        )
        refl
  version-round_trip mqtt5 =
      rw
        (
          iequals_computes u (codes "MQTT 5.0") (codes "MQTT 3.1"),
          iequals_computes u (codes "MQTT 5.0") (codes "MQTT 5.0"),
        )
        refl

module _ (x : XmlNodes) where
  get_property-set_properties :
      (name : Text) (ps : List (Text × Text)) (n : x.Node)
      → x.get_property name (set_properties x ps n) ≡ last_value name ps (x.get_property name n)
  unfolding set_properties
  get_property-set_properties name [] n = refl
  get_property-set_properties name ((k, v) ∷ ps) n =
      get_property-set_properties name ps (x.set_property k v n)
      ∙ ap (last_value name ps) (x.get_property_set name k v n)

  -- A property that was set is read.
  read_property-set {ℓ} :
      {A : Type ℓ} (name value : Text) (read : Text → A) (old : A) (ps : List (Text × Text))
      (n : x.Node)
      → last_value name ps (x.get_property name n) ≡ some value
      → read_property x name read old (set_properties x ps n) ≡ read value
  unfolding read_property
  read_property-set name value read old ps n e =
      rw (get_property-set_properties name ps n ∙ e, read_property) refl

  pub read_general_xml-write_general_xml :
      (u : StringUtil) (s old : Settings) (n : x.Node)
      → s.port < 2 ^ 16
      → InRange two_63 s.scan_rate
      → read_general_xml x u (write_general_xml x s n) old ≡ s
  unfolding read_general_xml write_general_xml general_properties text_eq
  read_general_xml-write_general_xml u s old n port rate =
      let ps = general_properties x s in
      rw
        (
          read_property-set (codes "Name") s.name (λ t. t) old.name ps n refl,
          read_property-set (codes "GroupId") s.group_id (λ t. t) old.group_id ps n refl,
          read_property-set (codes "Transport") (transport_to_string s.transport)
                (transport_from_string u) old.transport ps n refl
              ∙ transport-round_trip u s.transport,
          read_property-set (codes "Broker") s.broker (λ t. t) old.broker ps n refl,
          read_property-set (codes "Port") (x.print_unsigned s.port) x.read_uint16 old.port ps n
                refl
              ∙ x.read_print_unsigned s.port port,
          read_property-set (codes "ProtocolVersion") (version_to_string s.version)
                (version_from_string u) old.version ps n refl
              ∙ version-round_trip u s.version,
          read_property-set (codes "HardwareMake") s.hardware_make (λ t. t) old.hardware_make ps n
              refl,
          read_property-set (codes "HardwareModel") s.hardware_model (λ t. t) old.hardware_model ps
              n refl,
          read_property-set (codes "OperatingSystem") s.operating_system (λ t. t)
              old.operating_system ps n refl,
          read_property-set (codes "OsVersion") s.os_version (λ t. t) old.os_version ps n refl,
          read_property-set (codes "ScanRate") (x.print_signed s.scan_rate)
                (x.read_signed_within two_63) old.scan_rate ps n refl
              ∙ x.read_print_signed two_63 s.scan_rate rate,
          read_property-set (codes "WaitOnHostOnline") (x.print_flag s.wait_on_host_online)
                x.read_flag old.wait_on_host_online ps n refl
              ∙ x.read_print_flag s.wait_on_host_online,
          read_property-set (codes "Username") s.username (λ t. t) old.username ps n refl,
          read_property-set (codes "Password") s.password (λ t. t) old.password ps n refl,
        )
        refl

  pub read_ssl_xml-write_ssl_xml :
      (o : SslOptions) (n : x.Node)
      → InRange two_31 o.ssl_version
      → read_ssl_xml x (write_ssl_xml x o n) ≡ o
  unfolding read_ssl_xml write_ssl_xml ssl_properties text_eq
  read_ssl_xml-write_ssl_xml o n version =
      let ps = ssl_properties x o in
      rw
        (
          read_property-set (codes "TrustStore") o.trust_store (λ t. t) [] ps n refl,
          read_property-set (codes "KeyStore") o.key_store (λ t. t) [] ps n refl,
          read_property-set (codes "PrivateKey") o.private_key (λ t. t) [] ps n refl,
          read_property-set (codes "PrivateKeyPassword") o.private_key_password (λ t. t) [] ps n
              refl,
          read_property-set (codes "EnabledCipherSuites") o.enabled_cipher_suites (λ t. t) [] ps n
              refl,
          read_property-set (codes "EnableCertAuth") (x.print_flag o.enable_cert_auth) x.read_flag
                false ps n refl
              ∙ x.read_print_flag o.enable_cert_auth,
          read_property-set (codes "SslVersion") (x.print_signed o.ssl_version)
                (x.read_signed_within two_31) (pos 0) ps n refl
              ∙ x.read_print_signed two_31 o.ssl_version version,
          read_property-set (codes "CaPath") o.ca_path (λ t. t) [] ps n refl,
          read_property-set (codes "DisableDefaultTrustStore")
                (x.print_flag o.disable_default_trust_store) x.read_flag false ps n refl
              ∙ x.read_print_flag o.disable_default_trust_store,
        )
        refl

  -- Settings and options that are written to two nodes, whatever properties these have, are read back,
  -- whatever the settings of the reader were, if the port, the scan rate and the version of TLS fit 16, 64
  -- and 32 bits.
  pub read_configuration :
      (u : StringUtil) (s old : Settings) (o : SslOptions) (general ssl : x.Node)
      → s.port < 2 ^ 16
      → InRange two_63 s.scan_rate
      → InRange two_31 o.ssl_version
      → (read_general_xml x u (write_general_xml x s general) old ≡ s)
        × (read_ssl_xml x (write_ssl_xml x o ssl) ≡ o)
  read_configuration u s old o general ssl port rate version = (
    read_general_xml-write_general_xml u s old general port rate,
    read_ssl_xml-write_ssl_xml o ssl version,
  )
