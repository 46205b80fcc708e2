-- ===== src/Id128/Specific.antt =====
-- Where the UUID of get_machine_app_specific comes from, and the ids of the module.
use python_systemd.Base.{ℕ, ◌≢◌, ◌≡◌, refl, List, length, arith}
use python_systemd.Base.Int.{ℤ, pos, negsuc}
use python_systemd.PyUtil.{Outcome, returns, set_error, error_exception}
use python_systemd.Id128.{
  SdId128, Attribute, no_attribute, no_buffer, buffer, sizeof_id, make_uuid, helper, app_specific,
  unsupported, get_machine_app_specific,
}

module _ {U : Type 0} (uuid : List ℕ → Outcome U) where
  helper-returns :
      (r : ℤ) (id : List ℕ) (u : U)
      → helper uuid (r, id) ≡ returns u
      → (n : ℕ) × (r ≡ pos n) × (make_uuid uuid id ≡ returns u)
  unfolding helper
  helper-returns (pos n) id u e = (n, refl, e)
  helper-returns (negsuc n) id u e = absurd (ground arith)

  given :
      (sd : SdId128) (attribute : Attribute) (u : U)
      → app_specific uuid sd attribute ≡ returns u
      → (bytes : List ℕ) × (attribute ≡ buffer bytes)
        × (length bytes ≡ sizeof_id)
        × (helper uuid (sd.get_machine_app_specific bytes) ≡ returns u)
  unfolding app_specific
  given sd no_attribute u e = absurd (ground arith)
  given sd no_buffer u e = absurd (ground arith)
  given sd (buffer bytes) u e = (bytes, refl, ground arith, ground arith)

  unsupported-raises :
      (sd : SdId128) (attribute : Attribute) (u : U) → unsupported uuid sd attribute ≢ returns u
  unfolding set_error error_exception
  unsupported-raises sd no_attribute u = ground arith
  unsupported-raises sd no_buffer u = ground arith
  unsupported-raises sd (buffer bytes) u = ground arith

  supported :
      (sd : SdId128) (attribute : Attribute) (u : U)
      → get_machine_app_specific uuid sd attribute ≡ returns u
      → app_specific uuid sd attribute ≡ returns u
  unfolding get_machine_app_specific
  supported sd attribute u e = ground (arith, unsupported-raises sd attribute u)

  -- When get_machine_app_specific returns, its argument has a buffer of exactly 16 bytes,
  -- libsystemd has accepted them, and the object is the UUID of the id that it gave for them.
  pub app_specific-returns :
      (sd : SdId128) (attribute : Attribute) (u : U)
      → get_machine_app_specific uuid sd attribute ≡ returns u
      → (bytes : List ℕ) × (n : ℕ) × (attribute ≡ buffer bytes)
        × (length bytes ≡ sizeof_id)
        × ((sd.get_machine_app_specific bytes).0 ≡ pos n)
        × (make_uuid uuid (sd.get_machine_app_specific bytes).1 ≡ returns u)
  app_specific-returns sd attribute u e =
      let (bytes, is_buffer, sized, made) = given sd attribute u (supported sd attribute u e) in
      let (n, result, by_uuid) =
        helper-returns (sd.get_machine_app_specific bytes).0 (sd.get_machine_app_specific bytes).1 u
          made in
      (bytes, n, is_buffer, sized, result, by_uuid)
