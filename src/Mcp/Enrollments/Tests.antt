-- ===== src/Mcp/Enrollments/Tests.antt =====
-- Runs of the enrollment table (connections.repository.ts) on a concrete credential.
use docker_webmail_gui.Mcp.Enrollments.{
  SetupCredential, issue_enrollment, revoke_enrollments, reserve_enrollment, record_failed_attempt,
}
use docker_webmail_gui.Mcp.Enrollments.Lockout.{record_failures, reserve_enrollment-record_failures}
use docker_webmail_gui.Common.{◌≡◌, refl, true, false, List, [], ◌∷◌}

abbrev issued : List SetupCredential
issued = issue_enrollment "en1" "c1" "user" "hash" 1_000 10 []

reserves : (reserve_enrollment "en1" "code1" 70 20 issued).0 ≡ true
unfolding issue_enrollment revoke_enrollments reserve_enrollment
reserves = refl

counts : (record_failed_attempt "en1" 20 issued).0 ≡ 1
unfolding issue_enrollment revoke_enrollments record_failed_attempt
counts = refl

reserve_enrollment-record_failures_example :
    reserve_enrollment "en1" "code1" 90 30
      (record_failures "en1" (21 ∷ 22 ∷ 23 ∷ 24 ∷ 25 ∷ []) issued)
    ≡ (false, record_failures "en1" (21 ∷ 22 ∷ 23 ∷ 24 ∷ 25 ∷ []) issued)
reserve_enrollment-record_failures_example =
    reserve_enrollment-record_failures "en1" "code1" 90 30 21 22 23 24 25 issued
