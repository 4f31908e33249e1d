-- ===== src/Gateway/Auth.antt =====
-- crates/lucy-gateway/src/auth.rs: the device store. The digest (SHA-256 in hexadecimal) is a parameter,
-- and random numbers and the clock are arguments. Texts stand for their bytes.
pub mod Compare
pub mod Devices
pub mod Pairing
use Prim.Native.Nat.{bit_or, bit_xor}
use lucy.Prelude.{
  ℕ, ◌+◌, ◌-◌, ◌^◌, min, Bool, true, false, ◌&&◌, not, Option, none, some, List, [], ◌∷◌, ◌++◌,
  ◌==◌, ltb, if◌then◌else◌, length,
}
use lucy.Text.{Text, codes, text_eq, is_empty, trim}

pub record DeviceRecord : Type 0 where
  pub id : Text
  pub name : Text
  pub token_hash : Text
  pub created_at : ℕ
  pub last_seen_at : ℕ

-- `devices` is the ordered map from ids, as the list of its values in the order of the ids.
pub record DeviceStore : Type 0 where
  pub server_id : Text
  pub pairing_hash : Option Text
  pub pairing_expires_at : Option ℕ
  pub pending_pairing_token : Option Text
  pub devices : List DeviceRecord

-- the loop `diff |= x ^ y` over the zipped bytes
fold_diff : ℕ → Text → Text → ℕ
fold_diff diff [] b = diff
fold_diff diff (x ∷ a) [] = diff
fold_diff diff (x ∷ a) (y ∷ b) = fold_diff (bit_or diff (bit_xor x y)) a b

unfoldable pub constant_time_eq : Text → Text → Bool
unfolding fold_diff
constant_time_eq a b = if length a == length b then fold_diff 0 a b == 0 else false

-- `DeviceStore::default`, with the random part of the id
unfoldable pub fresh_store : Text → DeviceStore
fresh_store random = record {
  server_id = codes "srv-" ++ random;
  pairing_hash = none;
  pairing_expires_at = none;
  pending_pairing_token = none;
  devices = [];
}

abbrev pub text_lt : Text → Text → Bool
text_lt [] [] = false
text_lt [] (d ∷ t) = true
text_lt (c ∷ s) [] = false
text_lt (c ∷ s) (d ∷ t) = if c == d then text_lt s t else ltb c d

-- `BTreeMap::insert` by the record's own id
insert_device : DeviceRecord → List DeviceRecord → List DeviceRecord
insert_device r [] = r ∷ []
insert_device r (d ∷ ds) =
    if text_eq r.id d.id
    then r ∷ ds
    else if text_lt r.id d.id
    then r ∷ d ∷ ds
    else d ∷ insert_device r ds

remove_device : Text → List DeviceRecord → List DeviceRecord
remove_device id [] = []
remove_device id (d ∷ ds) = if text_eq d.id id then ds else d ∷ remove_device id ds

unfoldable pub has_device : Text → List DeviceRecord → Bool
has_device id [] = false
has_device id (d ∷ ds) = if text_eq d.id id then true else has_device id ds

touch_device : Text → ℕ → List DeviceRecord → List DeviceRecord
touch_device id now [] = []
touch_device id now (d ∷ ds) =
    if text_eq d.id id then record d { last_seen_at = now } ∷ ds else d ∷ touch_device id now ds

abbrev pub u64_max : ℕ
u64_max = 2 ^ 64 - 1

unfoldable pub expire_pairing : DeviceStore → DeviceStore
expire_pairing s = record s {
  pairing_hash = none;
  pairing_expires_at = none;
  pending_pairing_token = none;
}

abbrev pub is_some {ℓ} : {A : Type ℓ} → Option A → Bool
is_some none = false
is_some (some a) = true

abbrev before : ℕ → Option ℕ → Bool
before now none = true
before now (some t) = ltb now t

unfoldable pub pairing_live : ℕ → DeviceStore → Bool
pairing_live now s = is_some s.pairing_hash && before now s.pairing_expires_at

abbrev device_name : Text → Text
device_name name = if is_empty (trim name) then codes "phone" else trim name

-- `revoke`, and whether there was such a device
unfoldable pub revoke : Text → DeviceStore → DeviceStore × Bool
unfolding remove_device has_device
revoke id s = (record s { devices = remove_device id s.devices }, has_device id s.devices)

unfoldable pub touch : Text → ℕ → DeviceStore → DeviceStore
unfolding touch_device
touch id now s = record s { devices = touch_device id now s.devices }

unfoldable pub is_paired : DeviceStore → Bool
is_paired s = elim s.devices [ [] ↦ false | _ ↦ true ]

module _ (hash_token : Text → Text) where
  -- `verify` of a record, and the test of `authenticate`
  unfoldable pub verify : DeviceRecord → Text → Bool
  verify d token = constant_time_eq d.token_hash (hash_token token)

  -- the random part of the token, the clock
  unfoldable pub mint_pairing : Text → ℕ → ℕ → DeviceStore → DeviceStore × Text
  mint_pairing random now ttl_secs s =
      let token = codes "lucy_pair_" ++ random in
      (
        record s {
          pairing_hash = some (hash_token token);
          pairing_expires_at = some (min (now + ttl_secs) u64_max);
          pending_pairing_token = some token;
        },
        token,
      )

  -- what one registration draws: the random parts of the token and of the id
  unfoldable pub register_device :
      Text → Text → ℕ → Text → DeviceStore → DeviceStore × DeviceRecord × Text
  unfolding insert_device
  register_device random random_id now name s =
      let token = codes "lucy_dev_" ++ random in
      let r : DeviceRecord = record {
        id = codes "dev-" ++ random_id;
        name = device_name name;
        token_hash = hash_token token;
        created_at = now;
        last_seen_at = now;
      } in
      (record s { devices = insert_device r s.devices }, r, token)

  abbrev granted : DeviceStore × DeviceRecord × Text → DeviceStore × Option (DeviceRecord × Text)
  granted (s, r, token) = (s, some (r, token))

  abbrev redeem_live :
      Text
      → Text
      → ℕ
      → Text
      → Text
      → DeviceStore
      → Option Text
      → DeviceStore × Option (DeviceRecord × Text)
  redeem_live random random_id now presented name s none = (s, none)
  redeem_live random random_id now presented name s (some expected) =
      if constant_time_eq expected (hash_token presented)
      then granted (register_device random random_id now name (expire_pairing s))
      else (s, none)

  unfoldable pub redeem_pairing :
      Text → Text → ℕ → Text → Text → DeviceStore → DeviceStore × Option (DeviceRecord × Text)
  redeem_pairing random random_id now presented name s =
      if pairing_live now s
      then redeem_live random random_id now presented name s s.pairing_hash
      else (expire_pairing s, none)

  find_device : Text → List DeviceRecord → Option DeviceRecord
  find_device token [] = none
  find_device token (d ∷ ds) = if verify d token then some d else find_device token ds

  unfoldable pub authenticate : Text → DeviceStore → Option DeviceRecord
  unfolding find_device
  authenticate presented s = find_device presented s.devices
