-- ===== src/Gateway/Auth/Pairing.antt =====
-- A pairing token is redeemed at most once, and what it gives is a token that authenticates.
use lucy.Prelude.{
  ℕ, ◌≡◌, refl, ◌⊎◌, inl, inr, true, false, ◌&&◌, none, some, List, [], ◌∷◌, ◌++◌, ◌+◌, ◌<◌, ◌↔◌,
  min, ltb, arith, Bool-cases,
}
use lucy.Text.{Text, codes, text_eq}
use lucy.Gateway.Auth.{
  DeviceRecord, DeviceStore, expire_pairing, pairing_live, revoke, touch, mint_pairing,
  register_device, redeem_pairing, authenticate, verify, find_device, insert_device,
  constant_time_eq, text_lt, is_some, u64_max,
}
use lucy.Gateway.Auth.Compare.{IsBytes, constant_time_eq_iff}

-- A use of the store other than `mint_pairing`; what it draws and the clock are arguments.
pub data Use : Type 0 where
  redeems : Text → Text → ℕ → Text → Text → Use
  registers : Text → Text → ℕ → Text → Use
  revokes : Text → Use
  touches : Text → ℕ → Use
  expires : Use

module _ (hash_token : Text → Text) where
  unfoldable pub use_store : Use → DeviceStore → DeviceStore
  use_store (redeems random random_id now presented name) s =
      (redeem_pairing hash_token random random_id now presented name s).0
  use_store (registers random random_id now name) s =
      (register_device hash_token random random_id now name s).0
  use_store (revokes id) s = (revoke id s).0
  use_store (touches id now) s = touch id now s
  use_store expires s = expire_pairing s

  unfoldable pub use_all : List Use → DeviceStore → DeviceStore
  use_all [] s = s
  use_all (u ∷ us) s = use_all us (use_store u s)

  -- no token can be redeemed
  redeem_none :
      (random random_id : Text) (now : ℕ) (presented name : Text) (s : DeviceStore)
      → s.pairing_hash ≡ none
      → redeem_pairing hash_token random random_id now presented name s ≡ (expire_pairing s, none)
  unfolding redeem_pairing pairing_live
  redeem_none random random_id now presented name s h = rw h refl

  use_store-none :
      (u : Use) (s : DeviceStore) → s.pairing_hash ≡ none → (use_store u s).pairing_hash ≡ none
  unfolding use_store register_device revoke touch expire_pairing
  use_store-none (redeems random random_id now presented name) s h =
      rw (redeem_none random random_id now presented name s h, use_store) refl
  use_store-none (registers random random_id now name) s h = h
  use_store-none (revokes id) s h = h
  use_store-none (touches id now) s h = h
  use_store-none expires s h = refl

  use_all-none :
      (us : List Use) (s : DeviceStore) → s.pairing_hash ≡ none → (use_all us s).pairing_hash ≡ none
  unfolding use_all
  use_all-none [] s h = h
  use_all-none (u ∷ us) s h = use_all-none us (use_store u s) (use_store-none u s h)

  redeemed_none :
      (random random_id : Text) (now : ℕ) (presented name : Text) (s : DeviceStore)
      {g : DeviceRecord × Text}
      → (redeem_pairing hash_token random random_id now presented name s).1 ≡ some g
      → (redeem_pairing hash_token random random_id now presented name s).0.pairing_hash ≡ none
  unfolding redeem_pairing register_device expire_pairing
  redeemed_none random random_id now presented name s h = ground arith

  -- Once a pairing token was redeemed, no token is redeemed again, whatever else the store is used for,
  -- until a new pairing token is minted.
  pub redeem_pairing_once :
      (random random_id : Text) (now : ℕ) (presented name : Text) (s : DeviceStore)
      (g : DeviceRecord × Text) (uses : List Use) (random' random_id' : Text) (now' : ℕ)
      (presented' name' : Text)
      → (redeem_pairing hash_token random random_id now presented name s).1 ≡ some g
      → (redeem_pairing hash_token random' random_id' now' presented' name'
          (use_all uses (redeem_pairing hash_token random random_id now presented name s).0)).1
        ≡ none
  redeem_pairing_once random random_id now presented name s g uses r' i' now' p' name' h =
      let t = use_all uses (redeem_pairing hash_token random random_id now presented name s).0 in
      rw
        (redeem_none r' i' now' p' name' t (
          use_all-none uses (redeem_pairing hash_token random random_id now presented name s).0
            (redeemed_none random random_id now presented name s {g = g} h)))
        refl

  module _ (hash_bytes : (t : Text) → IsBytes (hash_token t)) where
    same_digest :
        (a b : Text)
        → (constant_time_eq (hash_token a) (hash_token b) ≡ true) ↔ (hash_token a ≡ hash_token b)
    same_digest a b =
        constant_time_eq_iff (hash_token a) (hash_token b) (hash_bytes a) (hash_bytes b)

    minted_redeem :
        (random : Text) (now ttl_secs : ℕ) (s : DeviceStore) (random' random_id' : Text) (now' : ℕ)
        (presented name : Text)
        → is_some
            (redeem_pairing hash_token random' random_id' now' presented name
              (mint_pairing hash_token random now ttl_secs s).0).1
          ≡ (ltb now' (min (now + ttl_secs) u64_max)
              && constant_time_eq
                  (hash_token (codes "lucy_pair_" ++ random))
                  (hash_token presented))
    unfolding redeem_pairing mint_pairing pairing_live
    minted_redeem random now ttl_secs s random' random_id' now' presented name = ground arith

    -- After a pairing token was minted, a text is redeemed exactly if its digest is that of the token and
    -- the time to live, cut off at the largest u64, has not run out.
    pub redeem_pairing-mint_pairing_iff :
        (random : Text) (now ttl_secs : ℕ) (s : DeviceStore) (random' random_id' : Text) (now' : ℕ)
        (presented name : Text)
        → (is_some
              (redeem_pairing hash_token random' random_id' now' presented name
                (mint_pairing hash_token random now ttl_secs s).0).1
            ≡ true)
          ↔ ((now' < min (now + ttl_secs) u64_max)
              × (hash_token (mint_pairing hash_token random now ttl_secs s).1
                  ≡ hash_token presented))
    unfolding mint_pairing
    redeem_pairing-mint_pairing_iff random now ttl_secs s random' random_id' now' presented name =
        let e = minted_redeem random now ttl_secs s random' random_id' now' presented name in
        let q = same_digest (codes "lucy_pair_" ++ random) presented in
        (λ h. (ground (arith, e, q), ground (arith, e, q)), λ h. ground (arith, e, q))

    verify-register :
        (random random_id : Text) (now : ℕ) (name : Text) (s : DeviceStore)
        → verify hash_token
            (register_device hash_token random random_id now name s).1
            (register_device hash_token random random_id now name s).2
          ≡ true
    unfolding verify register_device
    verify-register random random_id now name s =
        (same_digest (codes "lucy_dev_" ++ random) (codes "lucy_dev_" ++ random)).1 refl

    -- the first device that fits
    Fits : Text → List DeviceRecord → Type 0
    Fits token ds =
        (d : DeviceRecord) × (find_device hash_token token ds ≡ some d)
        × (verify hash_token d token ≡ true)

    find_device-cons :
        (token : Text) (d : DeviceRecord) (ds : List DeviceRecord)
        → (verify hash_token d token ≡ true) ⊎ Fits token ds
        → Fits token (d ∷ ds)
    unfolding find_device Fits
    find_device-cons token d ds h = elim (Bool-cases (verify hash_token d token)) [
      | inl e ↦ (d, rw e refl, e)
      | inr e ↦ rest e h
    ]
      where
        rest :
            verify hash_token d token ≡ false
            → (verify hash_token d token ≡ true) ⊎ Fits token ds
            → Fits token (d ∷ ds)
        rest e (inl q) = cc
        rest e (inr (x, at_x, fit)) = (x, rw e at_x, fit)

    find_device-insert :
        (token : Text) (r : DeviceRecord) (ds : List DeviceRecord)
        → verify hash_token r token ≡ true
        → Fits token (insert_device r ds)
    unfolding insert_device
    find_device-insert token r [] h = find_device-cons token r [] (inl h)
    find_device-insert token r (d ∷ ds) h = elim (Bool-cases (text_eq r.id d.id)) [
      | inl e ↦ rw e (find_device-cons token r ds (inl h))
      | inr e ↦ rw e (elim (Bool-cases (text_lt r.id d.id)) [
        | inl q ↦ rw q (find_device-cons token r (d ∷ ds) (inl h))
        | inr q ↦
            rw q (
              find_device-cons token d (insert_device r ds) (inr (find_device-insert token r ds h)))
      ])
    ]

    -- The token that a registration hands out authenticates in the store that it leaves, as a device that
    -- verifies it.
    pub authenticate-register_device :
        (random random_id : Text) (now : ℕ) (name : Text) (s : DeviceStore)
        → (d : DeviceRecord) × (authenticate hash_token
              (register_device hash_token random random_id now name s).2
              (register_device hash_token random random_id now name s).0
            ≡ some d)
          × (verify hash_token d (register_device hash_token random random_id now name s).2 ≡ true)
    unfolding authenticate register_device Fits
    authenticate-register_device random random_id now name s =
        find_device-insert (codes "lucy_dev_" ++ random) _ s.devices
          (unfold register_device in verify-register random random_id now name s)
