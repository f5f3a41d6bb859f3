-- ===== src/Mocksbr/Network/Fresh.antt =====
-- A new network has the invariant: its devices have different addresses.
use go_udap.Prelude.{
  ℕ, zero, suc, ◌+◌, ◌/◌, ◌%◌, ◌<◌, ◌≤◌, ◌≡◌, refl, sym, ◌∙◌, false, Bool-cases, inl, inr, [], ◌∷◌,
  ◌++◌, arith,
}
use go_udap.Prelude.Bytes.{Bytes, bytes_eq, bytes_eq_iff, codes}
use go_udap.Go.Hex.{hex_digit, hex_digit_lem, hex_value-hex_digit}
use go_udap.Go.Strings.{to_lower, lower_byte}
use go_udap.Mocksbr.Device.{new_device}
use go_udap.Mocksbr.Network.{Network, empty_network, auto_config, fill_network, new_network}
use go_udap.Mocksbr.Network.Members.{
  listed, IsNetwork, empty-IsNetwork, extended, extended-IsNetwork, listed-append,
}

auto_mac : ℕ → Bytes
auto_mac i = to_lower (auto_config i).mac

lower-hex_digit : (n : ℕ) → n < 16 → lower_byte (hex_digit n) ≡ hex_digit n
unfolding lower_byte
lower-hex_digit n h = ground (arith, hex_digit_lem n h)

auto_mac_lem :
    (i : ℕ)
    → i < 256
    → auto_mac i ≡ codes "00:04:20:00:00:" ++ hex_digit (i / 16) ∷ hex_digit (i % 16) ∷ []
unfolding auto_mac to_lower auto_config
auto_mac_lem i h =
    rw (lower-hex_digit (i / 16) (omega arith), lower-hex_digit (i % 16) (omega arith)) refl

hex_digit-inj : (a b : ℕ) → a < 16 → b < 16 → hex_digit a ≡ hex_digit b → a ≡ b
hex_digit-inj a b h k e = cc (hex_value-hex_digit a h, hex_value-hex_digit b k)

auto_mac-inj : (i j : ℕ) → i < 256 → j < 256 → auto_mac i ≡ auto_mac j → i ≡ j
auto_mac-inj i j h k e =
    let q = sym (auto_mac_lem i h) ∙ e ∙ auto_mac_lem j k in
    let hi : hex_digit (i / 16) ≡ hex_digit (j / 16) = cc q in
    let lo : hex_digit (i % 16) ≡ hex_digit (j % 16) = cc q in
    omega (
      arith,
      hex_digit-inj (i / 16) (j / 16) (omega arith) (omega arith) hi,
      hex_digit-inj (i % 16) (j % 16) (omega arith) (omega arith) lo,
    )

auto_mac-ne : (i j : ℕ) → i < j → j < 256 → bytes_eq (auto_mac i) (auto_mac j) ≡ false
auto_mac-ne i j lt h = elim (Bool-cases (bytes_eq (auto_mac i) (auto_mac j))) [
  | inr ne ↦ ne
  | inl same ↦ absurd (omega (arith, auto_mac-inj i j (omega arith) h ((bytes_eq_iff _ _).0 same)))
]

-- The addresses from `i` on are not in use yet.
abbrev IsFree : ℕ → Network → Type 0
IsFree i n = (j : ℕ) → i ≤ j → j < 256 → listed (auto_mac j) n.order ≡ false

fill_network-IsNetwork :
    (left i : ℕ) (n : Network)
    → left + i ≤ 256
    → IsFree i n
    → IsNetwork n
    → IsNetwork (fill_network left i n)
unfolding fill_network auto_mac
fill_network-IsNetwork zero i n le free h = h
fill_network-IsNetwork (suc left) i n le free h =
    fill_network-IsNetwork left (suc i) (extended (auto_mac i) (new_device (auto_config i)) n)
      (omega arith)
      (λ j lt small. ground (
        arith,
        listed-append (auto_mac j) n.order (auto_mac i ∷ []),
        auto_mac-ne i j (omega arith) small,
        free j (omega arith) small,
      ))
      (extended-IsNetwork (auto_mac i) (new_device (auto_config i)) n h
        (ground (arith, h.keyed (auto_mac i), free i (omega arith) (omega arith))))

-- `NewNetwork` of a number of devices for which it does not panic.
pub IsNetwork-new_network : (n : ℕ) → n ≤ 255 → IsNetwork (new_network n)
unfolding new_network
IsNetwork-new_network n h =
    fill_network-IsNetwork n 1 empty_network (omega arith) (λ j _ _. refl) empty-IsNetwork
