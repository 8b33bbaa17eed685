-- ===== src/Discovery/Tests.antt =====
-- A beacon over a transport that records the last datagram.
use text.Mathlib.Text.{◌==◌ as same_key}
use sensor_libs.Prelude.{
  ℕ, ◌≡◌, refl, Option, none, some, List, [], ◌∷◌, replicate, ◌++◌, if◌then◌else◌, arith, codes,
}
use sensor_libs.IpAddress.{ip4_to_string, ip4_text, decimal, print_to}
use sensor_libs.IpAddress.RoundTrip.{c_string, read_ip4}
use sensor_libs.Discovery.{
  AttributeMap, Beacon, beacon_of, Transport, Discovery, start, no_callback,
}
use sensor_libs.Discovery.Beacons.{Sends, start-send_discovery_message}

-- The socket's port, then the bytes sent.
abbrev recorder : Transport (List ℕ) ℕ
recorder = record {
  create_socket = λ t port. (0, port ∷ []);
  close_socket = λ t. (0, []);
  send_datagram = λ t bytes ip port. (0, t ++ bytes);
}

abbrev provider : AttributeMap → AttributeMap
provider m key = if same_key key "ip" then some (100 ∷ 1 ∷ 168 ∷ 192 ∷ replicate 28 0) else m key

abbrev device : Discovery (List ℕ)
device = record {
  destination_ip = 0;
  destination_port = 0;
  attribute_provider_cb = some provider;
  attribute_map = λ key. none;
  transport = [];
}

abbrev print_ip : Beacon → Option (List ℕ)
print_ip beacon = some beacon.ip

beacon_test : (beacon_of (provider device.attribute_map)).ip ≡ codes "192.168.1.100"
unfolding beacon_of c_string ip4_to_string ip4_text decimal print_to
beacon_test = refl

silent_test : (start recorder (record device { attribute_provider_cb = none }) 1 2).0 ≡ no_callback
unfolding start
silent_test = refl

start-send_discovery_message_example :
    Sends recorder print_ip device provider 7 9000 (codes "192.168.1.100")
    × (read_ip4 (beacon_of (provider device.attribute_map)).ip 0 0 ≡ 0xc0a80164)
unfolding beacon_of c_string ip4_to_string ip4_text decimal print_to
start-send_discovery_message_example =
    start-send_discovery_message recorder print_ip device provider 7 9000 (codes "192.168.1.100")
      refl refl (omega arith)
