-- ===== src/Mocksbr/Exchange/Get.antt =====
-- `GetDeviceConfigWithContext` against a virtual device.
use go_udap.Prelude.{
  ℕ, ◌+◌, ◌<◌, ◌≡◌, refl, ap, ◌∙◌, false, List, [], ◌∷◌, ◌++◌, some, ok, length, All, inl, arith,
}
use go_udap.Prelude.Bytes.{Bytes, AreBytes}
use go_udap.Prelude.Dict.{Dict, get}
use go_udap.Prelude.Sort.{sort}
use go_udap.Go.Strings.{to_lower}
use go_udap.Udap.Mac.{IsMac, is_zero, mac_string}
use go_udap.Udap.Packet.{Packet, encode_packet, method_get_data}
use go_udap.Udap.Discovery.{Device}
use go_udap.Udap.GetData.{parse_get_data_response}
use go_udap.Udap.GetData.Items.{IsItem, file_items}
use go_udap.Udap.Client.{Client}
use go_udap.Udap.Client.Packets.{
  next_sequence, create_udap_packet, create_get_data_packet, get_data_payload, known_items,
  set_data_payload, set_items, param_list, credentials,
}
use go_udap.Udap.Client.Headers.{requests-IsRequest, unicast, unicast-IsPacket}
use go_udap.Udap.Operations.{match_reply, get_reply, continue, lift, get_device_config}
use go_udap.Mocksbr.Device.{MockDevice, malformed_none, op_get}
use go_udap.Mocksbr.Requests.{parse_get_data_request}
use go_udap.Mocksbr.Responses.{
  parse_device_mac, build_header, get_data_body, get_data_method, build_get_data_response,
}
use go_udap.Mocksbr.Responses.Accepted.{match_reply-build_header}
use go_udap.Mocksbr.Responses.GetData.{answer, raw, parse_get_data_response-get_data_body}
use go_udap.Mocksbr.Handlers.{handle_get_data}
use go_udap.Mocksbr.Transport.{MockTransport, mock_port, mock_source_mac}
use go_udap.Mocksbr.Exchange.{IsQuiet, behind, round_trip-behind}
use go_udap.Mocksbr.Exchange.Served.{IsServing, with_device, receive_scheduled-get}

-- The client knows the virtual device `d` at the address `a`, and has the transport to itself.
pub record IsPlayer (c : Client MockTransport) (a : ℕ) (d : MockDevice) : Type 0 where
  pub six_bytes : IsMac (c.heap a).mac
  pub nonzero : is_zero (c.heap a).mac ≡ false
  pub named : (c.heap a).mac ≡ parse_device_mac d.cfg.mac
  pub unlocated : (c.heap a).ip ≡ []
  pub registered : get (to_lower (mac_string (c.heap a).mac)) c.transport.net.devices ≡ some d
  pub once : c.retries ≡ 0
  pub quiet : IsQuiet c.transport

-- A device whose GetData answers are sound.
pub record IsReadable (d : MockDevice) (names : List Bytes) : Type 0 where
  pub answers : d.cfg.drop_get_data ≡ false
  pub sound : d.cfg.malformed ≡ malformed_none
  pub texts : All (λ e. AreBytes e.1) d.working_memory
  pub extras : All (λ u. IsItem (raw u)) d.cfg.unknown_offsets
  pub few : length (known_items names) + length d.cfg.unknown_offsets < 65536

no_settings : set_data_payload [] ≡ ok (credentials ++ (0 ∷ 0 ∷ []))
unfolding set_data_payload set_items param_list sort
no_settings = refl

handle_get_data-answers :
    (req : Packet) (payload : Bytes) (d : MockDevice)
    → d.cfg.drop_get_data ≡ false
    → handle_get_data req payload d ≡ (some (build_get_data_response req payload d), d)
unfolding handle_get_data
handle_get_data-answers req payload d h = ground (arith, h)

method_of :
    (req : Packet) (mac : Bytes) (method : ℕ) → (build_header req mac method).ucp_method ≡ method
unfolding build_header
method_of req mac method = refl

unicast_fields :
    (device : Device) (seq method : ℕ)
    → ((unicast device seq method).ucp_method ≡ method)
      × ((unicast device seq method).dst_address ≡ device.mac)
unfolding create_udap_packet
unicast_fields device seq method = (refl, refl)

get_reply-ok :
    (p : Packet) (payload : Bytes) (config : Dict Bytes)
    → p.ucp_method ≡ method_get_data
    → parse_get_data_response payload ≡ ok config
    → get_reply p payload ≡ ok config
unfolding get_reply
get_reply-ok p payload config m h = ground (arith, m, h)

-- The wire form of a sound answer.
sound_response :
    (req : Packet) (payload : Bytes) (d : MockDevice)
    → d.cfg.malformed ≡ malformed_none
    → build_get_data_response req payload d
      ≡ encode_packet (build_header req d.cfg.mac method_get_data)
        ++ get_data_body d.cfg.malformed d (parse_get_data_request payload)
unfolding build_get_data_response get_data_method
sound_response req payload d h =
    ap
      (λ m.
        encode_packet (build_header req d.cfg.mac (get_data_method m))
        ++ get_data_body d.cfg.malformed d (parse_get_data_request payload))
      h

-- Where the network files the device of the client's request.
abbrev pub mac_at : Client MockTransport → ℕ → Bytes
mac_at c a = to_lower (mac_string (c.heap a).mac)

module _ (c : Client MockTransport) (a : ℕ) (d : MockDevice) (player : IsPlayer c a d) where
  abbrev req_of : ℕ → Packet
  req_of method = unicast (c.heap a) c.sequence method

  pub request_registered :
      (method : ℕ)
      → get
          (to_lower (mac_string (unicast (c.heap a) c.sequence method).dst_address))
          c.transport.net.devices
        ≡ some d
  request_registered method =
      ap (λ m. get (to_lower (mac_string m)) c.transport.net.devices)
        (unicast_fields (c.heap a) c.sequence method).1
      ∙ player.registered

  module _ (names : List Bytes) (readable : IsReadable d names) where
    get_answer-matches :
        match_reply
          (c.heap a)
          (build_get_data_response (req_of method_get_data) (get_data_payload names) d)
          (mock_source_mac
            (build_get_data_response (req_of method_get_data) (get_data_payload names) d))
        ≡ some (
          build_header (req_of method_get_data) d.cfg.mac method_get_data,
          get_data_body d.cfg.malformed d (parse_get_data_request (get_data_payload names)),
        )
    get_answer-matches =
        let req = req_of method_get_data in
        let body =
          get_data_body d.cfg.malformed d (parse_get_data_request (get_data_payload names)) in
        ap (λ (reply : Bytes). match_reply (c.heap a) reply (mock_source_mac reply))
          (sound_response req (get_data_payload names) d readable.sound)
        ∙ (match_reply-build_header req d.cfg.mac method_get_data body (c.heap a)
            (mock_source_mac (encode_packet (build_header req d.cfg.mac method_get_data) ++ body))
            (unicast-IsPacket (c.heap a) c.sequence method_get_data player.six_bytes (omega arith))
            (omega arith) player.named (inl player.unlocated)).1

    -- The client reads what the device stores, and leaves the device as it was.
    pub get_device_config-answer :
        IsServing op_get d
        → get_device_config mock_port a names c ≡ (
          ok (file_items (answer d names) []),
          behind
              (next_sequence c.sequence)
              (with_device
                (to_lower (mac_string (req_of method_get_data).dst_address))
                d
                c.transport.net)
              c,
        )
    unfolding get_device_config
    get_device_config-answer serving =
        let req = req_of method_get_data in
        let payload = get_data_payload names in
        let body = get_data_body d.cfg.malformed d (parse_get_data_request payload) in
        let (bytes, made, parsed, _) =
          (requests-IsRequest (c.heap a) c.sequence names [] (credentials ++ (0 ∷ 0 ∷ []))
              player.six_bytes no_settings).0.built
            player.nonzero in
        let served =
          receive_scheduled-get c.transport.now bytes payload
            (build_get_data_response req payload d) req c.transport.net d d parsed
            (request_registered method_get_data) serving.prompt serving
            (unicast_fields (c.heap a) c.sequence method_get_data).0
            (handle_get_data-answers req payload d readable.answers) in
        ap (continue (λ x. lift (get_reply x.0 x.1))) (
          round_trip-behind (λ device. create_get_data_packet device names) a c bytes
            (build_get_data_response req payload d) (next_sequence c.sequence)
            (with_device (to_lower (mac_string req.dst_address)) d c.transport.net)
            (build_header req d.cfg.mac method_get_data, body) player.once player.quiet made served
            get_answer-matches)
        ∙ ap
            (λ r. (
              r,
              behind (next_sequence c.sequence)
                  (with_device (to_lower (mac_string req.dst_address)) d c.transport.net) c,
            ))
            (get_reply-ok (build_header req d.cfg.mac method_get_data) body _
              (method_of req d.cfg.mac method_get_data)
              (parse_get_data_response-get_data_body d names readable.texts readable.few
                readable.sound readable.extras))
