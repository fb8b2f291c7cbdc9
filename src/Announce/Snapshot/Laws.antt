-- ===== src/Announce/Snapshot/Laws.antt =====
-- What the flag of a refresh says of the two snapshots.
use dtnex_redesign.Base.{
  ℕ, ◌-◌, ◌≡◌, refl, ltb, Bool, true, false, ◌&&◌, Option, List, [], ◌∷◌, arith, ◌↔◌, Bool-cases,
  Option-cases, inl, inr,
}
use dtnex_redesign.Base.Int.{eqb_ℤ→eq, eqb_ℤ_refl}
use dtnex_redesign.Types.{ContactRecord, RangeRecord}
use dtnex_redesign.Announce.Snapshot.{
  my_contacts_cache_ttl, Snapshot, same_contact_record, same_range_record, differs, refresh,
  refresh_my_contacts, refresh_my_ranges,
}

same_contact_record→eq : (a b : ContactRecord) → same_contact_record a b ≡ true → a ≡ b
unfolding same_contact_record
same_contact_record→eq a b h =
    let e : a.from_time ≡ b.from_time = eqb_ℤ→eq a.from_time b.from_time (ground arith) in
    let f : a.to_time ≡ b.to_time = eqb_ℤ→eq a.to_time b.to_time (ground arith) in
    ground (arith, e, f)

same_contact_record_refl : (a : ContactRecord) → same_contact_record a a ≡ true
unfolding same_contact_record
same_contact_record_refl a = ground (arith, eqb_ℤ_refl a.from_time, eqb_ℤ_refl a.to_time)

same_range_record→eq : (a b : RangeRecord) → same_range_record a b ≡ true → a ≡ b
unfolding same_range_record
same_range_record→eq a b h =
    let e : a.from_time ≡ b.from_time = eqb_ℤ→eq a.from_time b.from_time (ground arith) in
    let f : a.to_time ≡ b.to_time = eqb_ℤ→eq a.to_time b.to_time (ground arith) in
    ground (arith, e, f)

same_range_record_refl : (a : RangeRecord) → same_range_record a a ≡ true
unfolding same_range_record
same_range_record_refl a = ground (arith, eqb_ℤ_refl a.from_time, eqb_ℤ_refl a.to_time)

module _ {R : Type 0} (same : R → R → Bool) (sound : (a b : R) → same a b ≡ true → a ≡ b)
    (reflexive : (a : R) → same a a ≡ true) where
  differs→eq : (xs ys : List R) → differs same xs ys ≡ false → xs ≡ ys
  unfolding differs
  differs→eq [] [] h = refl
  differs→eq [] (y ∷ ys) h = cc
  differs→eq (x ∷ xs) [] h = cc
  differs→eq (x ∷ xs) (y ∷ ys) h = ground (arith, sound x y, differs→eq xs ys)

  differs_self : (xs : List R) → differs same xs xs ≡ false
  unfolding differs
  differs_self [] = refl
  differs_self (x ∷ xs) = ground (arith, reflexive x, differs_self xs)

  differs_iff : (xs ys : List R) → (differs same xs ys ≡ false) ↔ (xs ≡ ys)
  differs_iff xs ys = (differs→eq xs ys, λ e. rw e (differs_self ys))

  refresh_iff :
      (now : ℕ) (reading : Option (List R)) (snapshot : Snapshot R)
      → ((refresh same now reading snapshot).0 ≡ false)
        ↔ ((refresh same now reading snapshot).1.records ≡ snapshot.records)
  unfolding refresh
  refresh_iff now reading snapshot =
      elim (Bool-cases
        (ltb 0 snapshot.updated && ltb (now - snapshot.updated) my_contacts_cache_ttl)) [
          | inl recent ↦ rw (refresh, recent) (λ h. refl, λ h. refl)
          | inr due ↦ elim (Option-cases reading) [
            | inl failed ↦ rw (refresh, due, failed) (λ h. refl, λ h. refl)
            | inr (fresh, read) ↦ rw (refresh, due, read) (differs_iff fresh snapshot.records)
          ]
        ]

-- The contact trigger fires exactly if the refresh replaces the snapshot by a different one.
pub refresh_my_contacts_iff :
    (now : ℕ) (reading : Option (List ContactRecord)) (snapshot : Snapshot ContactRecord)
    → ((refresh_my_contacts now reading snapshot).0 ≡ false)
      ↔ ((refresh_my_contacts now reading snapshot).1.records ≡ snapshot.records)
unfolding refresh_my_contacts
refresh_my_contacts_iff now reading snapshot =
    refresh_iff same_contact_record same_contact_record→eq same_contact_record_refl now reading
      snapshot

-- The range trigger fires exactly if the refresh replaces the snapshot by a different one.
pub refresh_my_ranges_iff :
    (now : ℕ) (reading : Option (List RangeRecord)) (snapshot : Snapshot RangeRecord)
    → ((refresh_my_ranges now reading snapshot).0 ≡ false)
      ↔ ((refresh_my_ranges now reading snapshot).1.records ≡ snapshot.records)
unfolding refresh_my_ranges
refresh_my_ranges_iff now reading snapshot =
    refresh_iff same_range_record same_range_record→eq same_range_record_refl now reading snapshot
