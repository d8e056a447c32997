-- ===== src/Installations/History.antt =====
-- Final rows, which are consumed or revoked enrollments, revoked credentials and decommissioned
-- installations, and the relation of stores in which they are the same.
use pos_cloud.Common.{◌≡◌, refl, Bool, true, false, not, some}
use pos_cloud.Common.Text.{Text}
use pos_cloud.Common.JsMap.{get, set}
use pos_cloud.Common.JsMap.Kept.{IsKept, IsKept-same, IsKept-trans, IsKept-set}
use pos_cloud.Installations.Status.{decommissioned, same_status}
use pos_cloud.Installations.Installation.{Installation}
use pos_cloud.Installations.Enrollment.{InstallationEnrollment}
use pos_cloud.Installations.Credential.{InstallationCredential, is_revoked}
use pos_cloud.Installations.Store.{Db, is_open}

abbrev pub is_closed : InstallationEnrollment → Bool
is_closed e = not (is_open e)

abbrev pub is_ended : Installation → Bool
is_ended i = same_status i.status decommissioned

pub is_closed_of_open : (e : InstallationEnrollment) → is_open e ≡ true → is_closed e ≡ false
is_closed_of_open e h = rw h refl

pub record Keeps (db db' : Db) : Type 0 where
  pub closed : IsKept is_closed db.enrollments db'.enrollments
  pub revoked : IsKept (λ (c : InstallationCredential). is_revoked c) db.credentials db'.credentials
  pub ended : IsKept is_ended db.installations db'.installations

pub Keeps-same :
    (db db' : Db)
    → db'.installations ≡ db.installations
    → db'.enrollments ≡ db.enrollments
    → db'.credentials ≡ db.credentials
    → Keeps db db'
Keeps-same db db' a b c = record {
  closed = IsKept-same _ db.enrollments db'.enrollments b;
  revoked = IsKept-same _ db.credentials db'.credentials c;
  ended = IsKept-same _ db.installations db'.installations a;
}

pub Keeps-trans : (a b c : Db) → Keeps a b → Keeps b c → Keeps a c
Keeps-trans a b c f g = record {
  closed = IsKept-trans _ a.enrollments b.enrollments c.enrollments f.closed g.closed;
  revoked = IsKept-trans _ a.credentials b.credentials c.credentials f.revoked g.revoked;
  ended = IsKept-trans _ a.installations b.installations c.installations f.ended g.ended;
}

pub Keeps-enrollment :
    (db : Db) (k : Text) (e : InstallationEnrollment)
    → ((u : InstallationEnrollment) → get k db.enrollments ≡ some u → is_closed u ≡ false)
    → Keeps db (record db { enrollments = set k e db.enrollments })
Keeps-enrollment db k e h = record {
  closed = IsKept-set _ k e db.enrollments h;
  revoked = λ j v found done. found;
  ended = λ j v found done. found;
}

pub Keeps-credential :
    (db : Db) (k : Text) (c : InstallationCredential)
    → ((u : InstallationCredential) → get k db.credentials ≡ some u → is_revoked u ≡ false)
    → Keeps db (record db { credentials = set k c db.credentials })
Keeps-credential db k c h = record {
  closed = λ j v found done. found;
  revoked = IsKept-set _ k c db.credentials h;
  ended = λ j v found done. found;
}

pub Keeps-installation :
    (db : Db) (k : Text) (i : Installation)
    → ((u : Installation) → get k db.installations ≡ some u → is_ended u ≡ false)
    → Keeps db (record db { installations = set k i db.installations })
Keeps-installation db k i h = record {
  closed = λ j v found done. found;
  revoked = λ j v found done. found;
  ended = IsKept-set _ k i db.installations h;
}
