-- ===== src/Api/Mandates/Revocation.antt =====
-- apps/api/routes/mandates.py: `revoke_mandate_cascade` and `activate_mandate` together.
use mandate_razorpay_control.Prelude.{
  ℕ, suc, ◌≡◌, refl, ap, ◌∙◌, Option, true, false, not, some, find, UniqueKeys, find_key, length,
  arith,
}
use mandate_razorpay_control.Core.Enums.{MandateStatus, is_active_mandate}
use mandate_razorpay_control.Core.Models.{Mandate, SuspensionReason, mandate_key}
use mandate_razorpay_control.Core.Database.{Db, Exception, Detail, ok, err, or_raise}
use mandate_razorpay_control.Api.Mandates.{
  cascade_mandate_status, cascade_from, reason_or, revoke_mandate_cascade, is_blocked, parent_of,
  activate_mandate,
}
use mandate_razorpay_control.Api.Mandates.Cascade.Descendants.{
  Below, cascade_mandate_status-descends,
}

revoked_inactive : (s : MandateStatus) → s ≡ MandateStatus.revoked → is_active_mandate s ≡ false
revoked_inactive s e = ground arith

module _ (db : Db) (c : ℕ) (m : Mandate) (p : ℕ) (q : Mandate) (found : find c db.mandates ≡ some m)
    (child : m.parent_mandate_id ≡ some p) (parent : find p db.mandates ≡ some q) where
  parent_is : parent_of m db.mandates ≡ some q
  parent_is = rw (child, parent_of) parent

  blocked : is_active_mandate q.status ≡ false → is_blocked (parent_of m db.mandates) ≡ true
  blocked inactive = ap is_blocked parent_is ∙ ap not inactive

  refused :
      is_active_mandate q.status ≡ false
      → activate_mandate c db ≡ err (Exception.bad_request Detail.parent_not_active)
  unfolding activate_mandate
  refused inactive = rw (found, activate_mandate) (rw (blocked inactive, activate_mandate) refl)

-- A revocation of a mandate that is there is carried out, and then no mandate with a parent below
-- the revoked one (itself included) can be activated: the attempt is refused since its parent is
-- not active.
pub revoke-activate :
    (root : ℕ) (reason : Option ℕ) (r : Mandate) (db : Db)
    → UniqueKeys db.mandates
    → find root db.mandates ≡ some r
    → (db' : Db) × (revoke_mandate_cascade (suc (length db.mandates)) root reason db ≡ ok db')
      × ((c : ℕ) (m : Mandate) (p : ℕ) (q : Mandate)
          → find c db'.mandates ≡ some m
          → m.parent_mandate_id ≡ some p
          → Below db.mandates root p
          → find p db'.mandates ≡ some q
          → activate_mandate c db' ≡ err (Exception.bad_request Detail.parent_not_active))
unfolding revoke_mandate_cascade cascade_from
revoke-activate root reason r db u found =
    let own : r.id ≡ root = find_key root r db.mandates found in
    let (db', ends, below, others) =
      cascade_mandate_status-descends root MandateStatus.revoked
        (reason_or reason SuspensionReason.parent_revoked) db u in
    (
      db',
      rw (found, cascade_from) (carried own db' ends),
      λ c m p q child_found child_of under parent_found.
          refused db' c m p q child_found child_of parent_found
            (revoked_inactive q.status (below p q under parent_found)),
    )
  where
    carried :
        r.id ≡ root
        → (db' : Db)
        → cascade_mandate_status
            (suc (length db.mandates))
            root
            MandateStatus.revoked
            (reason_or reason SuspensionReason.parent_revoked)
            db
          ≡ some db'
        → or_raise
            (cascade_mandate_status
              (suc (length db.mandates))
              r.id
              MandateStatus.revoked
              (reason_or reason SuspensionReason.parent_revoked)
              db)
            Exception.unfinished
          ≡ ok db'
    carried own db' e =
        ap
          (λ i.
            or_raise
              (cascade_mandate_status (suc (length db.mandates)) i MandateStatus.revoked
                (reason_or reason SuspensionReason.parent_revoked) db)
              Exception.unfinished)
          own
        ∙ ap (λ o. or_raise o Exception.unfinished) e
