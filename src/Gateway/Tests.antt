-- ===== src/Gateway/Tests.antt =====
-- The device store at concrete inputs.
use lucy.Prelude.{◌%◌, ◌≡◌, ◌↔◌, Option, refl, true, none, List, [], ◌∷◌, arith}
use lucy.Text.{Text, codes, trim}
use lucy.Gateway.Auth.{
  DeviceRecord, DeviceStore, constant_time_eq, fresh_store, mint_pairing, redeem_pairing,
  register_device, pairing_live, expire_pairing,
}
use lucy.Gateway.Auth.Compare.{IsBytes, constant_time_eq_iff}
use lucy.Gateway.Auth.Pairing.{Use, registers, revokes, use_all, redeem_pairing_once}

-- A digest in place of SHA-256: the bytes of the text, reduced to one byte each.
abbrev toy_hash : Text → Text
toy_hash [] = []
toy_hash (c ∷ t) = c % 256 ∷ toy_hash t

toy_hash-IsBytes : (t : Text) → IsBytes (toy_hash t)
toy_hash-IsBytes [] = tt
toy_hash-IsBytes (c ∷ t) = (omega arith, toy_hash-IsBytes t)

abbrev minted : DeviceStore
minted = (mint_pairing toy_hash (codes "x1") 100 60 (fresh_store (codes "s"))).0

abbrev token : Text
token = codes "lucy_pair_x1"

abbrev first : DeviceStore × Option (DeviceRecord × Text)
first = redeem_pairing toy_hash (codes "r") (codes "1") 120 token (codes "Pixel") minted

abbrev phone : DeviceRecord
phone = record {
  id = codes "dev-1";
  name = codes "Pixel";
  token_hash = toy_hash (codes "lucy_dev_r");
  created_at = 120;
  last_seen_at = 120;
}

redeem_pairing_once_example :
    (redeem_pairing toy_hash
      (codes "q")
      (codes "2")
      125
      token
      (codes "Other")
      (use_all toy_hash (revokes (codes "dev-1") ∷ []) first.0)).1
    ≡ none
unfolding redeem_pairing mint_pairing fresh_store pairing_live register_device constant_time_eq
    expire_pairing trim
redeem_pairing_once_example =
    redeem_pairing_once toy_hash (codes "r") (codes "1") 120 token (codes "Pixel") minted
      (phone, codes "lucy_dev_r") (revokes (codes "dev-1") ∷ []) (codes "q") (codes "2") 125 token
      (codes "Other") refl

abbrev two_registrations : List Use
two_registrations =
    registers (codes "r") (codes "2") 120 (codes "Pixel")
    ∷ registers (codes "q") (codes "1") 130 (codes "Pad")
    ∷ []

abbrev one_phone : DeviceStore
one_phone = record minted { devices = phone ∷ [] }

constant_time_eq_iff_example :
    (constant_time_eq (codes "a1") (codes "a2") ≡ true) ↔ (codes "a1" ≡ codes "a2")
constant_time_eq_iff_example =
    constant_time_eq_iff (codes "a1") (codes "a2") (omega arith, (omega arith, tt))
      (omega arith, (omega arith, tt))
