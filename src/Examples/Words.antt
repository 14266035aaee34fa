-- ===== src/Examples/Words.antt =====
-- Attributes, handles and lists of base/src.
use tpm_rs.Prelude.{ℕ, ◌/◌, ◌%◌, ◌^◌, ◌<◌, ◌≡◌, ◌≢◌, ◌⊎◌, refl, arith, [], ◌∷◌, ◌++◌}
use tpm_rs.Outcome.{ok, err}
use tpm_rs.Errors.{value, size as size_error}
use tpm_rs.Marshal.Core.{prim_unmarshal, array_unmarshal, get, be_value}
use tpm_rs.Marshal.Signed.{negsuc, word_of, signed_unmarshal}
use tpm_rs.Marshal.Lawful.{prim_format}
use tpm_rs.Base.Attributes.{
  set_attribute_field, new_attribute_field, get_index_type, set_type, get_c_handles, set_c_handles,
  get_command_index, set_command_index,
}
use tpm_rs.Base.Attributes.Fields.{set-get_fields}
use tpm_rs.Base.Handles.{
  rh_nv_index_try_from, sh_auth_session_try_from, is_hmac_session, is_policy_session,
}
use tpm_rs.Base.Handles.Kinds.{AuthSession, handle_kinds}
use tpm_rs.Base.Tpml.{Tpml, tpml_add, tpml_elements}
use tpm_rs.Base.Tpml.Laws.{ValidList, tpml_add-ValidList}

set-get_fields_example :
    ((get_index_type (set_type 0xABCDEF12 9) ≡ 9)
      × (set_type 0xABCDEF12 9 / 2 ^ 8 ≡ 0xABCDEF12 / 2 ^ 8)
      × (set_type 0xABCDEF12 9 % 2 ^ 4 ≡ 0xABCDEF12 % 2 ^ 4))
    × ((get_c_handles (set_c_handles 0xABCDEF12 3) ≡ 3)
        × (set_c_handles 0xABCDEF12 3 / 2 ^ 28 ≡ 0xABCDEF12 / 2 ^ 28)
        × (set_c_handles 0xABCDEF12 3 % 2 ^ 25 ≡ 0xABCDEF12 % 2 ^ 25))
    × ((get_command_index (set_command_index 0xABCDEF12 0x17B) ≡ 0x17B)
        × (set_command_index 0xABCDEF12 0x17B / 2 ^ 16 ≡ 0xABCDEF12 / 2 ^ 16))
set-get_fields_example =
    set-get_fields 0xABCDEF12 9 3 0x17B (omega arith) (omega arith) (omega arith) (omega arith)

-- The bits, computed.
nine_set : set_type 0xABCDEF12 9 ≡ 0xABCDEF92
unfolding set_type set_attribute_field new_attribute_field
nine_set = refl

-- The last policy session, and the number behind it.
handle_kinds_example :
    (((rh_nv_index_try_from 0x0300003F ≡ ok 0x0300003F) × (0x0300003F / 2 ^ 24 ≡ 1))
      ⊎ ((rh_nv_index_try_from 0x0300003F ≡ err value) × (0x0300003F / 2 ^ 24 ≢ 1)))
    × (((sh_auth_session_try_from 0x0300003F ≡ ok 0x0300003F) × AuthSession 0x0300003F)
        ⊎ ((sh_auth_session_try_from 0x0300003F ≡ err value) × (AuthSession 0x0300003F → ⊥)))
handle_kinds_example = handle_kinds 0x0300003F

behind_the_last : sh_auth_session_try_from 0x03000040 ≡ err value
unfolding sh_auth_session_try_from is_hmac_session is_policy_session
behind_the_last = refl

abbrev one_of_two : Tpml ℕ
one_of_two = (1, 7 ∷ 0 ∷ [])

tpml_add_example :
    ((one_of_two.0 < 2)
      × ((t' : Tpml ℕ) × (tpml_add one_of_two 8 ≡ ok t')
          × ValidList (prim_format 4) 0 2 (omega arith) t'
          × (tpml_elements 2 t' ≡ tpml_elements 2 one_of_two ++ 8 ∷ [])))
    ⊎ ((one_of_two.0 ≡ 2) × (tpml_add one_of_two 8 ≡ err size_error))
tpml_add_example =
    tpml_add-ValidList (prim_format 4) 0 2 (omega arith) one_of_two 8
      (omega arith, omega arith, (omega arith, refl)) (omega arith)

-- -2 as an i16.
minus_two : word_of 1 (negsuc 1) ≡ 0xFFFE
minus_two = refl

read_minus_two : signed_unmarshal 1 (0xFF ∷ 0xFE ∷ 5 ∷ []) ≡ ok (negsuc 1, 5 ∷ [])
unfolding signed_unmarshal prim_unmarshal array_unmarshal get be_value
read_minus_two = refl
