-- ===== src/Discovery.antt =====
-- lib_discovery/discovery.h: the beacons of a device. The transport and the callback that provides the
-- attributes are template and constructor parameters; `json_asprintf` of lib_util/json_frozen, a copy of
-- another project's library, is a parameter too, a function of the values that the format names.
use Prim.Native.String.{String}
use text.Mathlib.Text.{◌==◌ as same_key}
use sensor_libs.Prelude.{
  ℕ, Bool, true, false, Option, none, some, List, [], ◌∷◌, take, replicate, if◌then◌else◌,
}
use sensor_libs.Prelude.Bytes.{from_le}
use sensor_libs.IpAddress.{ip4_to_string}
use sensor_libs.IpAddress.RoundTrip.{c_string}
pub mod Beacons
mod Tests

-- The 32 bytes of a union; a value is read from its first bytes.
abbrev pub Attribute : Type 0
Attribute = List ℕ

abbrev pub u16 : Attribute → ℕ
u16 a = from_le (take 2 a)

abbrev pub u32 : Attribute → ℕ
u32 a = from_le (take 4 a)

abbrev pub u64 : Attribute → ℕ
u64 a = from_le (take 8 a)

abbrev pub AttributeMap : Type 0
AttributeMap = String → Option Attribute

-- `operator[]`: a missing key is inserted with zero bytes.
unfoldable pub at : AttributeMap → String → Attribute
at attributes key = elim (attributes key) [ none ↦ replicate 32 0 | some a ↦ a ]

unfoldable pub insert_missing : List String → AttributeMap → AttributeMap
unfolding at
insert_missing [] attributes = attributes
insert_missing (key ∷ keys) attributes =
    insert_missing keys (λ k. if same_key k key then some (at attributes key) else attributes k)

abbrev pub used_keys : List String
used_keys =
    "ip" ∷ "instance_id" ∷ "product_version" ∷ "product_name" ∷ "battery_soc" ∷ "battery_charging"
    ∷ "owner_mac_addr" ∷ "device_id" ∷ "config_hash" ∷ []

-- The values of the format, in its order; the bits of a `float`, and strings as C strings.
pub record Beacon : Type 0 where
  pub instance_id : ℕ
  pub ip : List ℕ
  pub product_version : List ℕ
  pub product_name : List ℕ
  pub battery_soc : ℕ
  pub battery_charging : ℕ
  pub owner_mac_addr : List ℕ
  pub device_id : List ℕ
  pub config_hash : ℕ

unfoldable pub beacon_of : AttributeMap → Beacon
unfolding at
beacon_of attributes = record {
  instance_id = u32 (at attributes "instance_id");
  ip = c_string (ip4_to_string (u32 (at attributes "ip")) 32).1;
  product_version = c_string (at attributes "product_version");
  product_name = c_string (at attributes "product_name");
  battery_soc = u32 (at attributes "battery_soc");
  battery_charging = u16 (at attributes "battery_charging");
  owner_mac_addr = c_string (at attributes "owner_mac_addr");
  device_id = c_string (at attributes "device_id");
  config_hash = u64 (at attributes "config_hash");
}

-- Return codes are those of the transport.
pub record Transport (T Rc : Type 0) : Type 0 where
  pub create_socket : T → ℕ → Rc × T
  pub close_socket : T → Rc × T
  pub send_datagram : T → List ℕ → ℕ → ℕ → Rc × T

pub record Discovery (T : Type 0) : Type 0 where
  pub destination_ip : ℕ
  pub destination_port : ℕ
  pub attribute_provider_cb : Option (AttributeMap → AttributeMap)
  pub attribute_map : AttributeMap
  pub transport : T

-- `no_callback` is the -1 of `start` and the exception of an empty `std::function` in
-- `send_discovery_message`; `null_message` is `strlen` of a message that could not be allocated.
pub data Outcome (Rc : Type 0) : Type 0 where
  returned : Rc → Outcome Rc
  no_callback null_message : Outcome Rc

module _ {T Rc : Type 0} (transport : Transport T Rc) where
  unfoldable pub start : Discovery T → ℕ → ℕ → Outcome Rc × Discovery T
  start d ip port = elim d.attribute_provider_cb [
    | none ↦ (no_callback, d)
    | some cb ↦
        let opened = transport.create_socket d.transport 8999 in
        (
          returned opened.0,
          record d { destination_port = port; destination_ip = ip; transport = opened.1 },
        )
  ]

  unfoldable pub stop : Discovery T → Rc × Discovery T
  stop d =
      let closed = transport.close_socket d.transport in
      (closed.0, record d { transport = closed.1 })

  unfoldable pub send_discovery_message :
      (Beacon → Option (List ℕ)) → Discovery T → Outcome Rc × Discovery T
  unfolding beacon_of insert_missing
  send_discovery_message json_asprintf d = elim d.attribute_provider_cb [
    | none ↦ (no_callback, d)
    | some cb ↦
        let provided = cb d.attribute_map in
        let attributes = insert_missing used_keys provided in
        elim (json_asprintf (beacon_of provided)) [
          | none ↦ (null_message, record d { attribute_map = attributes })
          | some msg ↦
              let sent =
                transport.send_datagram d.transport (c_string msg) d.destination_ip
                  d.destination_port in
              (returned sent.0, record d { attribute_map = attributes; transport = sent.1 })
        ]
  ]
