-- ===== src/Derive/Tagged.antt =====
-- base/src/lib.rs: the pattern of the hand-written impls of `Marshalable` for `TpmsAttest`,
-- `TpmtPublic` and `TpmtSensitive`, where the selector of an enum stands in front of the fields that
-- come before the enum.
use tpm_rs.Prelude.{ℕ, List}
use tpm_rs.Outcome.{ok, ◌>>=◌}
use tpm_rs.Marshal.Core.{Read, Written, prim}
use tpm_rs.Derive.Fields.{Fragment, write_at, continue, field, ◌then◌}
use tpm_rs.Derive.Enum.{MarshalableVariant}

module _ {ℓ κ} {R : Type ℓ} {S : Type κ} (w : ℕ) (v : MarshalableVariant S)
    (fields : Fragment R) where
  -- The selector, the fields, and then the variant.
  unfoldable pub tagged_marshal : R × S → ℕ → List ℕ → Written
  tagged_marshal x written buffer =
      continue ((field (prim w) then fields).marshal_from (v.discriminant x.1, x.0) written buffer)
        (write_at (v.try_marshal_variant x.1))

  unfoldable pub tagged_unmarshal : List ℕ → Read (R × S)
  tagged_unmarshal buffer = do
    ((s, r), rest) ← (field (prim w) then fields).unmarshal buffer
    (e, rest') ← v.try_unmarshal_variant s rest
    ok ((r, e), rest')

  abbrev pub tagged : Fragment (R × S)
  tagged = record { marshal_from = tagged_marshal; unmarshal = tagged_unmarshal }
