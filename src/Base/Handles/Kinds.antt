-- ===== src/Base/Handles/Kinds.antt =====
-- base/src: the kinds of handles, by the most significant byte.
use tpm_rs.Prelude.{
  ℕ, ◌/◌, ◌%◌, ◌^◌, ◌≤◌, ◌<◌, ◌≡◌, ◌≢◌, ◌⊎◌, inl, inr, refl, arith, true, false, leb, ◌==◌,
  Bool-cases,
}
use tpm_rs.Outcome.{ok, err}
use tpm_rs.Errors.{value}
use tpm_rs.Base.Handles.{
  in_range, is_hmac_session, is_policy_session, is_nv_index, rh_nv_index_try_from,
  sh_auth_session_try_from,
}

-- Within the range, or not.
in_range-cases :
    (first last v : ℕ)
    → ((in_range first last v ≡ true) × (first ≤ v) × (v ≤ last))
      ⊎ ((in_range first last v ≡ false) × ((v < first) ⊎ (last < v)))
in_range-cases first last v = elim (Bool-cases (leb first v)) [
  | inr low ↦ inr (rw low refl, inl (ground arith))
  | inl from ↦ elim (Bool-cases (leb v last)) [
    | inr high ↦ inr (rw (from, high) refl, inr (ground arith))
    | inl to ↦ inl (rw (from, to) refl, ground arith, ground arith)
  ]
]

rh_nv_index_try_from-cases :
    (v : ℕ)
    → ((rh_nv_index_try_from v ≡ ok v) × (v / 2 ^ 24 ≡ 1))
      ⊎ ((rh_nv_index_try_from v ≡ err value) × (v / 2 ^ 24 ≢ 1))
unfolding rh_nv_index_try_from is_nv_index
rh_nv_index_try_from-cases v = elim (in_range-cases 0x01000000 0x01FFFFFF v) [
  | inl (inside, from, to) ↦
      inl (rw (rh_nv_index_try_from, is_nv_index, inside) refl, omega (arith, from, to))
  | inr (outside, apart) ↦
      inr (rw (rh_nv_index_try_from, is_nv_index, outside) refl, λ e. omega (arith, apart, e))
]

-- The handle of an active session, HMAC or policy, or that of a password.
abbrev pub AuthSession : ℕ → Type 0
AuthSession v =
    ((v / 2 ^ 24 ≡ 2) × (v % 2 ^ 24 < 64))
    ⊎ ((v / 2 ^ 24 ≡ 3) × (v % 2 ^ 24 < 64))
    ⊎ (v ≡ 0x40000009)

sh_auth_session_try_from-cases :
    (v : ℕ)
    → ((sh_auth_session_try_from v ≡ ok v) × AuthSession v)
      ⊎ ((sh_auth_session_try_from v ≡ err value) × (AuthSession v → ⊥))
unfolding sh_auth_session_try_from is_hmac_session is_policy_session
sh_auth_session_try_from-cases v = elim (in_range-cases 0x02000000 0x0200003F v) [
  | inl (hmac, from, to) ↦
      inl (rw (hmac) refl, inl (omega (arith, from, to), omega (arith, from, to)))
  | inr (no_hmac, apart) ↦ elim (in_range-cases 0x03000000 0x0300003F v) [
    | inl (policy, from, to) ↦
        inl
          (rw (no_hmac, policy) refl, inr (inl (omega (arith, from, to), omega (arith, from, to))))
    | inr (no_policy, apart') ↦ elim (Bool-cases (v == 0x40000009)) [
      | inl word ↦ inl (rw (no_hmac, no_policy, word) refl, inr (inr (ground (arith, word))))
      | inr other ↦ inr (
        rw (no_hmac, no_policy, other) refl,
        λ kind. elim kind [
          | inl (a, b) ↦ omega (arith, apart, a, b)
          | inr (inl (a, b)) ↦ omega (arith, apart', a, b)
          | inr (inr e) ↦ ground (arith, other, e)
        ],
      )
    ]
  ]
]

-- A number is taken for an NV index where its most significant byte is 1, and for an
-- authorization session where that byte is 2 or 3 and the rest is below 64 or the number is that
-- of a password; every other number is refused with Value.
pub handle_kinds :
    (v : ℕ)
    → (((rh_nv_index_try_from v ≡ ok v) × (v / 2 ^ 24 ≡ 1))
        ⊎ ((rh_nv_index_try_from v ≡ err value) × (v / 2 ^ 24 ≢ 1)))
      × (((sh_auth_session_try_from v ≡ ok v) × AuthSession v)
          ⊎ ((sh_auth_session_try_from v ≡ err value) × (AuthSession v → ⊥)))
handle_kinds v = (rh_nv_index_try_from-cases v, sh_auth_session_try_from-cases v)
