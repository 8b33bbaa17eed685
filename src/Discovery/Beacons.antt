-- ===== src/Discovery/Beacons.antt =====
-- What a device that was started sends.
use Prim.Native.String.{String}
use text.Mathlib.Text.{◌==◌ as same_key}
use text.Mathlib.TextEquality.{eq_iff}
use sensor_libs.Prelude.{
  ℕ, ◌<◌, ◌^◌, ◌≡◌, refl, ap, sym, subst, ◌∙◌, Option, some, List, [], ◌∷◌, if◌then◌else◌,
  Bool-cases, inl, inr, arith,
}
use sensor_libs.IpAddress.RoundTrip.{c_string, read_ip4, ip4_to_string_lem}
use sensor_libs.Discovery.{
  u32, AttributeMap, at, insert_missing, used_keys, Beacon, beacon_of, Transport, Discovery,
  returned, start, send_discovery_message,
}

-- `operator[]` changes no value that it can be asked for.
at-insert :
    (key other : String) (m : AttributeMap)
    → at (λ k. if same_key k key then some (at m key) else m k) other ≡ at m other
unfolding at
at-insert key other m = elim (Bool-cases (same_key other key)) [
  | inl same ↦ rw (at, same) (ap (at m) (sym ((eq_iff other key).0 same)))
  | inr differs ↦ rw (at, differs) refl
]

at-insert_missing :
    (keys : List String) (m : AttributeMap) (other : String)
    → at (insert_missing keys m) other ≡ at m other
unfolding insert_missing
at-insert_missing [] m other = refl
at-insert_missing (key ∷ keys) m other = at-insert_missing keys _ other ∙ at-insert key other m

module _ {T Rc : Type 0} (transport : Transport T Rc)
    (json_asprintf : Beacon → Option (List ℕ)) where
  -- The device that was started sends `msg` there, and then has the attributes that the callback left.
  pub Sends : Discovery T → (AttributeMap → AttributeMap) → ℕ → ℕ → List ℕ → Type 0
  Sends d cb ip port msg =
      let opened = transport.create_socket d.transport 8999 in
      let sent = transport.send_datagram opened.1 (c_string msg) ip port in
      let after = send_discovery_message transport json_asprintf (start transport d ip port).1 in
      (after.0 ≡ returned sent.0)
      × (after.1.transport ≡ sent.1)
      × ((key : String) → at after.1.attribute_map key ≡ at (cb d.attribute_map) key)

  with_callback-Sends :
      (d : Discovery T) (cb : AttributeMap → AttributeMap) (ip port : ℕ) (msg : List ℕ)
      → json_asprintf (beacon_of (cb d.attribute_map)) ≡ some msg
      → Sends (record d { attribute_provider_cb = some cb }) cb ip port msg
  unfolding Sends start send_discovery_message
  with_callback-Sends d cb ip port msg made =
      rw (send_discovery_message, made)
        (refl, refl, λ key. at-insert_missing used_keys (cb d.attribute_map) key)

  -- After `start` with a destination, on a device with a callback, a beacon that can be allocated goes to that
  -- destination over the socket of `start`, the result is that of the transport, and every attribute
  -- has the value that the callback left. The address in the beacon, read back, is the `ip` that the callback
  -- set, if that is a 32-bit number.
  pub start-send_discovery_message :
      (d : Discovery T) (cb : AttributeMap → AttributeMap) (ip port : ℕ) (msg : List ℕ)
      → d.attribute_provider_cb ≡ some cb
      → json_asprintf (beacon_of (cb d.attribute_map)) ≡ some msg
      → u32 (at (cb d.attribute_map) "ip") < 2 ^ 32
      → Sends d cb ip port msg
        × (read_ip4 (beacon_of (cb d.attribute_map)).ip 0 0 ≡ u32 (at (cb d.attribute_map) "ip"))
  unfolding beacon_of
  start-send_discovery_message d cb ip port msg has_cb made small = (
    subst (λ o. Sends (record d { attribute_provider_cb = o }) cb ip port msg) (sym has_cb)
        (with_callback-Sends d cb ip port msg made),
    (ip4_to_string_lem _ 32 small (omega arith)).0,
  )
