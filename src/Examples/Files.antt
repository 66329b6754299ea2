-- ===== src/Examples/Files.antt =====
-- A configuration file: settings that are written and read back.
use pubsublib.Prelude.{
  ◌≡◌, refl, Bool, true, false, Option, none, some, List, [], ◌∷◌, arith, if◌then◌else◌,
}
use pubsublib.Prelude.Int.{pos}
use pubsublib.Prelude.Texts.{Text, codes, text_eq}
use pubsublib.StringUtil.Ascii.{ascii}
use pubsublib.Metric.Numbers.{
  to_string, to_string_signed, read_uint32, read_signed_within, read_uint32-to_string,
  read_signed_within-to_string_signed,
}
use pubsublib.Client.Defs.{Settings, mqtt_web_socket, mqtt5}
use pubsublib.Client.Config.{
  XmlNodes, SslOptions, read_general_xml, write_general_xml, read_ssl_xml, write_ssl_xml,
}
use pubsublib.Client.Configured.{read_configuration}
use pubsublib.Examples.Data.{client}

abbrev find : Text → List (Text × Text) → Option Text
find name [] = none
find name ((k, v) ∷ rest) = if text_eq name k then some v else find name rest

abbrev print_flag : Bool → Text
print_flag true = codes "1"
print_flag false = []

abbrev read_flag : Text → Bool
read_flag [] = false
read_flag (c ∷ rest) = true

read_print_flag : (b : Bool) → read_flag (print_flag b) ≡ b
read_print_flag true = refl
read_print_flag false = refl

-- Nodes as lists of properties.
abbrev nodes : XmlNodes
nodes = record {
  Node = List (Text × Text);
  set_property = λ k v n. (k, v) ∷ n;
  get_property = find;
  get_property_set = λ j k v n. refl;
  print_unsigned = to_string;
  read_uint16 = read_uint32;
  read_print_unsigned = λ n bound. read_uint32-to_string n (omega arith);
  print_signed = to_string_signed;
  read_signed_within = read_signed_within;
  read_print_signed = read_signed_within-to_string_signed;
  print_flag = print_flag;
  read_flag = read_flag;
  read_print_flag = read_print_flag;
}

abbrev written : Settings
written = record client.settings {
  transport = mqtt_web_socket;
  port = 8883;
  version = mqtt5;
  scan_rate = pos 250;
  wait_on_host_online = true;
  username = codes "operator";
}

abbrev options : SslOptions
options = record {
  trust_store = codes "trust.pem";
  key_store = codes "keys.pem";
  private_key = [];
  private_key_password = [];
  enabled_cipher_suites = [];
  enable_cert_auth = true;
  ssl_version = pos 5;
  ca_path = codes "/etc/ssl";
  disable_default_trust_store = false;
}

read_configuration_example :
    (read_general_xml nodes ascii
        (write_general_xml nodes written ((codes "Port", []) ∷ []))
        client.settings
      ≡ written)
    × (read_ssl_xml nodes (write_ssl_xml nodes options []) ≡ options)
read_configuration_example =
    read_configuration nodes ascii written client.settings options ((codes "Port", []) ∷ []) []
      (omega arith) (omega arith) (omega arith)
