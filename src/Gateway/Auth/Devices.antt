-- ===== src/Gateway/Auth/Devices.antt =====
-- The devices stay in the strict order of their ids, and a revoked device is gone.
use lucy.Prelude.{
  ℕ, ◌≡◌, refl, true, false, List, [], ◌∷◌, arith, if◌then◌else◌, All, Bool-cases, inl, inr,
}
use lucy.Gateway.Auth.Pairing.{
  Use, redeems, registers, revokes, touches, expires, use_store, use_all,
}
use lucy.Text.{Text, text_eq}
use lucy.Text.Equality.{text_eq_iff, eq_of_text_eq}
use lucy.Text.Laws.{All-map}
use lucy.Gateway.Auth.{
  DeviceRecord, DeviceStore, revoke, touch, register_device, insert_device, remove_device,
  has_device, touch_device, text_lt, redeem_pairing, expire_pairing,
}

text_lt_trans : (a b c : Text) → text_lt a b ≡ true → text_lt b c ≡ true → text_lt a c ≡ true
text_lt_trans [] [] c h k = cc
text_lt_trans [] (y ∷ b) [] h k = cc
text_lt_trans [] (y ∷ b) (z ∷ c) h k = refl
text_lt_trans (x ∷ a) [] c h k = cc
text_lt_trans (x ∷ a) (y ∷ b) [] h k = cc
text_lt_trans (x ∷ a) (y ∷ b) (z ∷ c) h k = ground (arith, text_lt_trans a b c)

text_lt_irrefl : (a : Text) → text_lt a a ≡ false
text_lt_irrefl [] = refl
text_lt_irrefl (x ∷ a) = ground (arith, text_lt_irrefl a)

text_lt_connex : (a b : Text) → text_eq a b ≡ false → text_lt a b ≡ false → text_lt b a ≡ true
text_lt_connex [] [] h k = cc
text_lt_connex [] (y ∷ b) h k = cc
text_lt_connex (x ∷ a) [] h k = refl
text_lt_connex (x ∷ a) (y ∷ b) h k = ground (arith, text_lt_connex a b)

abbrev Above : Text → List DeviceRecord → Type 0
Above id = All (λ d. text_lt id d.id ≡ true)

abbrev pub IsOrdered : List DeviceRecord → Type 0
IsOrdered [] = Unit {0}
IsOrdered (d ∷ ds) = Above d.id ds × IsOrdered ds

Above-trans : (a b : Text) (ds : List DeviceRecord) → text_lt a b ≡ true → Above b ds → Above a ds
Above-trans a b ds h = All-map (λ d k. text_lt_trans a b d.id h k) ds

insert-Above :
    (id : Text) (r : DeviceRecord) (ds : List DeviceRecord)
    → text_lt id r.id ≡ true
    → Above id ds
    → Above id (insert_device r ds)
unfolding insert_device
insert-Above id r [] h k = (h, tt)
insert-Above id r (d ∷ ds) h k = elim (Bool-cases (text_eq r.id d.id)) [
  | inl e ↦ rw e (h, k.1)
  | inr e ↦ rw e (elim (Bool-cases (text_lt r.id d.id)) [
    | inl q ↦ rw q (h, (k.0, k.1))
    | inr q ↦ rw q (k.0, insert-Above id r ds h k.1)
  ])
]

insert-IsOrdered :
    (r : DeviceRecord) (ds : List DeviceRecord) → IsOrdered ds → IsOrdered (insert_device r ds)
unfolding insert_device
insert-IsOrdered r [] h = (tt, tt)
insert-IsOrdered r (d ∷ ds) h = elim (Bool-cases (text_eq r.id d.id)) [
  | inl e ↦ rw e (rw (eq_of_text_eq r.id d.id e) h.0, h.1)
  | inr e ↦ rw e (elim (Bool-cases (text_lt r.id d.id)) [
    | inl q ↦ rw q ((q, Above-trans r.id d.id ds q h.0), h)
    | inr q ↦
        rw q (insert-Above d.id r ds (text_lt_connex r.id d.id e q) h.0, insert-IsOrdered r ds h.1)
  ])
]

remove-Above : (id j : Text) (ds : List DeviceRecord) → Above j ds → Above j (remove_device id ds)
unfolding remove_device
remove-Above id j [] h = tt
remove-Above id j (d ∷ ds) h = ground (arith, remove-Above id j ds)

remove-IsOrdered :
    (id : Text) (ds : List DeviceRecord) → IsOrdered ds → IsOrdered (remove_device id ds)
unfolding remove_device
remove-IsOrdered id [] h = tt
remove-IsOrdered id (d ∷ ds) h = ground (arith, remove-IsOrdered id ds, remove-Above id d.id ds)

Above-touch :
    (id j : Text) (now : ℕ) (ds : List DeviceRecord) → Above j ds → Above j (touch_device id now ds)
unfolding touch_device
Above-touch id j now [] h = tt
Above-touch id j now (d ∷ ds) h = ground (arith, Above-touch id j now ds)

touch-IsOrdered :
    (id : Text) (now : ℕ) (ds : List DeviceRecord)
    → IsOrdered ds
    → IsOrdered (touch_device id now ds)
unfolding touch_device
touch-IsOrdered id now [] h = tt
touch-IsOrdered id now (d ∷ ds) h =
    ground (arith, touch-IsOrdered id now ds, Above-touch id d.id now ds)

-- above an id, that id does not occur
has-Above : (id : Text) (ds : List DeviceRecord) → Above id ds → has_device id ds ≡ false
unfolding has_device
has-Above id [] h = refl
has-Above id (d ∷ ds) h =
    ground (arith, has-Above id ds h.1, text_eq_iff d.id id, text_lt_irrefl id)

has-remove :
    (id j : Text) (ds : List DeviceRecord)
    → IsOrdered ds
    → has_device j (remove_device id ds) ≡ (if text_eq id j then false else has_device j ds)
unfolding has_device remove_device
has-remove id j [] h = ground arith
has-remove id j (d ∷ ds) h = ground (
  arith,
  has-remove id j ds h.1,
  has-Above d.id ds h.0,
  text_eq_iff d.id id,
  text_eq_iff d.id j,
  text_eq_iff id j,
)

module _ (hash_token : Text → Text) where
  register-IsOrdered :
      (random random_id : Text) (now : ℕ) (name : Text) (s : DeviceStore)
      → IsOrdered s.devices
      → IsOrdered (register_device hash_token random random_id now name s).0.devices
  unfolding register_device
  register-IsOrdered random random_id now name s h = insert-IsOrdered _ s.devices h

  redeem-IsOrdered :
      (random random_id : Text) (now : ℕ) (presented name : Text) (s : DeviceStore)
      → IsOrdered s.devices
      → IsOrdered (redeem_pairing hash_token random random_id now presented name s).0.devices
  unfolding redeem_pairing expire_pairing
  redeem-IsOrdered random random_id now presented name s h =
      ground (arith, register-IsOrdered random random_id now name (expire_pairing s))

  use_store-IsOrdered :
      (u : Use) (s : DeviceStore)
      → IsOrdered s.devices
      → IsOrdered (use_store hash_token u s).devices
  unfolding use_store revoke touch expire_pairing
  use_store-IsOrdered (redeems random random_id now presented name) s h =
      redeem-IsOrdered random random_id now presented name s h
  use_store-IsOrdered (registers random random_id now name) s h =
      register-IsOrdered random random_id now name s h
  use_store-IsOrdered (revokes id) s h = remove-IsOrdered id s.devices h
  use_store-IsOrdered (touches id now) s h = touch-IsOrdered id now s.devices h
  use_store-IsOrdered expires s h = h

  -- Redeeming, registering, revoking, touching and expiring keep the devices in the strict order of their
  -- ids, so that no id occurs twice.
  pub use_all-IsOrdered :
      (uses : List Use) (s : DeviceStore)
      → IsOrdered s.devices
      → IsOrdered (use_all hash_token uses s).devices
  unfolding use_all
  use_all-IsOrdered [] s h = h
  use_all-IsOrdered (u ∷ us) s h =
      use_all-IsOrdered us (use_store hash_token u s) (use_store-IsOrdered u s h)

-- In a store with its devices in order, `revoke` reports whether the device was there, removes it, and
-- leaves every other device.
pub has_device-revoke :
    (id j : Text) (s : DeviceStore)
    → IsOrdered s.devices
    → ((revoke id s).1 ≡ has_device id s.devices)
      × (has_device j (revoke id s).0.devices
          ≡ (if text_eq id j then false else has_device j s.devices))
unfolding revoke
has_device-revoke id j s h = (refl, has-remove id j s.devices h)
