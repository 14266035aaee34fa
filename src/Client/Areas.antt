-- ===== src/Client/Areas.antt =====
-- client/src/sessions/authorization_area: none to three sessions.
use tpm_rs.Prelude.{Bool, true, false, Option, none, some}
use tpm_rs.Client.Session.{NoSession}

-- The traits `AuthorizationArea`, `AuthorizationArea1Plus` and `AuthorizationArea2Plus`.
pub record AuthorizationArea (X Y Z A : Type 0) : Type 0 where
  pub decompose_ref : A → Option X × Option Y × Option Z

pub record AuthorizationArea1Plus (X Y Z A : Type 0) : Type 0 where
  pub decompose_ref : A → X × Option Y × Option Z

pub record AuthorizationArea2Plus (X Y Z A : Type 0) : Type 0 where
  pub decompose_ref : A → X × Y × Option Z

abbrev pub is_none : {X : Type 0} → Option X → Bool
is_none none = true
is_none (some x) = false

-- The provided method `is_empty`
abbrev pub is_empty : {X Y Z A : Type 0} → AuthorizationArea X Y Z A → A → Bool
is_empty area a = is_none (area.decompose_ref a).0

abbrev pub area_0 : AuthorizationArea NoSession NoSession NoSession (Unit {0})
area_0 = record { decompose_ref = λ a. (none, none, none) }

module _ (X Y Z : Type 0) where
  abbrev pub area_3 : AuthorizationArea X Y Z (X × Y × Z)
  area_3 = record { decompose_ref = λ a. (some a.0, some a.1, some a.2) }

  abbrev pub area_3_1_plus : AuthorizationArea1Plus X Y Z (X × Y × Z)
  area_3_1_plus = record { decompose_ref = λ a. (a.0, some a.1, some a.2) }

  abbrev pub area_3_2_plus : AuthorizationArea2Plus X Y Z (X × Y × Z)
  area_3_2_plus = record { decompose_ref = λ a. (a.0, a.1, some a.2) }

module _ (X Y : Type 0) where
  abbrev pub area_2 : AuthorizationArea X Y NoSession (X × Y)
  area_2 = record { decompose_ref = λ a. (some a.0, some a.1, none) }

  abbrev pub area_2_1_plus : AuthorizationArea1Plus X Y NoSession (X × Y)
  area_2_1_plus = record { decompose_ref = λ a. (a.0, some a.1, none) }

  abbrev pub area_2_2_plus : AuthorizationArea2Plus X Y NoSession (X × Y)
  area_2_2_plus = record { decompose_ref = λ a. (a.0, a.1, none) }

module _ (X : Type 0) where
  abbrev pub area_1 : AuthorizationArea X NoSession NoSession X
  area_1 = record { decompose_ref = λ a. (some a, none, none) }

  abbrev pub area_1_1_plus : AuthorizationArea1Plus X NoSession NoSession X
  area_1_1_plus = record { decompose_ref = λ a. (a, none, none) }
