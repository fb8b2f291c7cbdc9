-- ===== src/Ion.antt =====
-- What ion_contacts.c uses of ION: the contact and range indexes that it reads inside a
-- transaction, and the `rfx_*` calls, as a parameter over an abstract state of ION.
-- `F` is the C type `float`.
pub mod Trace
pub mod Contacts
pub mod Ranges
pub mod Status
use dtnex_redesign.Base.{ℕ, Bool, true, false, ◌&&◌, Option, List, ◌≡◌, if◌then◌else◌}
use dtnex_redesign.Base.Int.{ℤ, pos, eqb_ℤ, ltb_ℤ}

pub data ContactType : Type 0 where
  registration scheduled predicted hypothetical discovered suppressed : ContactType

-- The fields of `IonCXref` and `IonRXref` that are read. `asserted` is `rangeElt != 0`.
pub record IonCxref (F : Type 0) : Type 0 where
  pub region_nbr : ℕ
  pub from_node : ℕ
  pub to_node : ℕ
  pub from_time : ℤ
  pub to_time : ℤ
  pub xmit_rate : ℕ
  pub confidence : F
  pub type : ContactType

pub record IonRxref : Type 0 where
  pub from_node : ℕ
  pub to_node : ℕ
  pub from_time : ℤ
  pub to_time : ℤ
  pub owlt : ℕ
  pub asserted : Bool

-- What the functions of ION return at some moment: whether `getIonsdr`, `getIonVdb` and `getIonwm`
-- give a handle, the result of `sdr_begin_xn`, the indexes in the order of `sm_rbt_next` (`none`
-- where the index is 0, and for an element without data), and the node number of the database.
pub record IonView (F : Type 0) : Type 0 where
  pub sdr : Bool
  pub begin_xn : ℤ
  pub vdb : Bool
  pub wm : Bool
  pub contact_index : Option (List (Option (IonCxref F)))
  pub range_index : Option (List (Option IonRxref))
  pub own_node_nbr : Option ℕ

-- The calls, with `announce` at 0 as the code gives it. A key is the pointer `fromTime`: `none` is
-- NULL, which ION reads as "every entry of the pair". The result is the return code.
pub record Ion (F S : Type 0) : Type 0 where
  pub view : S → IonView F
  pub rfx_insert_contact : ℕ → ℤ → ℤ → ℕ → ℕ → ℕ → F → S → ℤ × S
  pub rfx_revise_contact : ℕ → ℤ → ℕ → ℕ → ℕ → F → S → ℤ × S
  pub rfx_remove_contact : ℕ → Option ℤ → ℕ → ℕ → S → ℤ × S
  pub rfx_insert_range : ℤ → ℤ → ℕ → ℕ → ℕ → S → ℤ × S
  pub rfx_remove_range : Option ℤ → ℕ → ℕ → S → ℤ × S

-- The operations on `float` that the code uses.
pub record Float (F : Type 0) : Type 0 where
  pub of_uint : ℕ → F
  pub to_uint : F → ℕ
  pub add : F → F → F
  pub sub : F → F → F
  pub mul : F → F → F
  pub div : F → F → F
  pub less : F → F → Bool
  pub half : F
  pub hundred : F
  pub tolerance : F

pub data IoncApplyOutcome : Type 0 where
  noop revised inserted replaced lost error : IoncApplyOutcome

-- The guard that every function of the module begins with.
unfoldable pub is_reachable {ℓ} : {F : Type 0} → {A : Type ℓ} → IonView F → A → A → A
is_reachable v go fail = if v.sdr && (eqb_ℤ v.begin_xn (pos 1) && (v.vdb && v.wm)) then go else fail

-- A return code: negative, positive, or 0.
unfoldable pub by_code {ℓ} : {A : Type ℓ} → ℤ → A → A → A → A
by_code rc system_error user_error success =
    if ltb_ℤ rc (pos 0) then system_error else if ltb_ℤ (pos 0) rc then user_error else success
