-- ===== src/Cmd/Run/Count.antt =====
-- The overrides replace devices: the network has as many as the flags ask for.
use go_udap.Prelude.{
  ℕ, zero, suc, ◌+◌, ◌-◌, ◌≡◌, refl, ◌∙◌, ap, Bool-cases, false, ◌||◌, ltb, ◌==◌, inl, inr, List,
  [], ◌∷◌, Option-cases, Result, Result-cases, ok, err, length, length-append, length-take,
  length-drop, take, drop, get_elem?, arith,
}
use go_udap.Prelude.Bytes.{Bytes}
use go_udap.Prelude.Dict.{get}
use go_udap.Go.Strings.{to_lower}
use go_udap.Mocksbr.Device.{DeviceConfig}
use go_udap.Mocksbr.Network.{
  Network, empty_network, auto_config, AddError, add, remove_auto, fill_network, new_network,
  valid_mac,
}
use go_udap.Cmd.Flags.{DeviceOverride, inherited, added, replace_auto_device, apply_overrides}

-- The number of the devices.
abbrev pub device_count : Network → ℕ
device_count n = length n.order

device_count-remove_auto :
    (idx : ℕ) (n : Network)
    → (length (remove_auto idx n).0 == 0) ≡ false
    → suc (device_count (remove_auto idx n).1) ≡ device_count n
unfolding remove_auto
device_count-remove_auto idx n h = elim (Bool-cases (ltb idx 1 || ltb (length n.order) idx)) [
  | inl out ↦ absurd (ground (arith, out, h))
  | inr inside ↦ elim (Option-cases (get_elem? n.order (idx - 1))) [
    | inl missing ↦ absurd (ground (arith, inside, missing, h))
    | inr (mac, found) ↦
        rw (inside, found)
          (ground (
            arith,
            inside,
            length-append (take (idx - 1) n.order) (drop idx n.order),
            length-take (idx - 1) n.order,
            length-drop idx n.order,
          ))
  ]
]

device_count-add :
    (cfg : DeviceConfig) (n : Network) (mac : Bytes)
    → (add cfg n).0 ≡ ok mac
    → device_count (add cfg n).1 ≡ suc (device_count n)
unfolding add
device_count-add cfg n mac h = elim (Bool-cases (valid_mac cfg.mac)) [
  | inr bad ↦ absurd (ground (arith, bad, h))
  | inl good ↦ elim (Option-cases (get (to_lower cfg.mac) n.devices)) [
    | inr (d, there) ↦ absurd (ground (arith, good, there, h))
    | inl free ↦ rw (good, free) (omega (arith, length-append n.order (to_lower cfg.mac ∷ [])))
  ]
]

device_count-added :
    (r : Result AddError Bytes) (n : Network)
    → (added (r, n)).0 ≡ ok tt
    → (mac : Bytes) × (r ≡ ok mac) × ((added (r, n)).1 ≡ n)
device_count-added (ok mac) n h = (mac, refl, refl)
device_count-added (err e) n h = absurd (ground arith)

device_count-replace :
    (idx : ℕ) (cfg : DeviceConfig) (n : Network)
    → (replace_auto_device idx cfg n).0 ≡ ok tt
    → device_count (replace_auto_device idx cfg n).1 ≡ device_count n
unfolding replace_auto_device
device_count-replace idx cfg n h = elim (Bool-cases (length (remove_auto idx n).0 == 0)) [
  | inl missing ↦ absurd (ground (arith, missing, h))
  | inr found ↦
      let whole : DeviceConfig = inherited idx (remove_auto idx n).0 cfg in
      let rest : Network = (remove_auto idx n).1 in
      let (mac, done, same) =
        device_count-added (add whole rest).0 (add whole rest).1 (ground (arith, found, h)) in
      rw found (
        omega (
          arith,
          ap device_count same,
          device_count-add whole rest mac done,
          device_count-remove_auto idx n found,
        ))
]

pub device_count-apply_overrides :
    (ovs : List DeviceOverride) (n : Network)
    → (apply_overrides ovs n).0 ≡ ok tt
    → device_count (apply_overrides ovs n).1 ≡ device_count n
unfolding apply_overrides
device_count-apply_overrides [] n h = refl
device_count-apply_overrides (ov ∷ ovs) n h =
    let cfg : DeviceConfig = record ov.cfg { mac = to_lower ov.cfg.mac } in
    elim (Result-cases (replace_auto_device ov.idx cfg n).0) [
      | inl (u, e) ↦
          rw (e, apply_overrides)
            (device_count-apply_overrides ovs (replace_auto_device ov.idx cfg n).1
                (ground (arith, e, h))
              ∙ device_count-replace ov.idx cfg n e)
      | inr (x, e) ↦ absurd (ground (arith, e, h))
    ]

device_count-fill_network :
    (left i : ℕ) (n : Network) → device_count (fill_network left i n) ≡ device_count n + left
unfolding fill_network
device_count-fill_network zero i n = omega arith
device_count-fill_network (suc left) i n = omega (
  arith,
  device_count-fill_network left (suc i) _,
  length-append n.order (to_lower (auto_config i).mac ∷ []),
)

pub device_count-new_network : (n : ℕ) → device_count (new_network n) ≡ n
unfolding new_network
device_count-new_network n = omega (arith, device_count-fill_network n 1 empty_network)
