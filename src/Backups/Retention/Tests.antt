-- ===== src/Backups/Retention/Tests.antt =====
-- Runs of the retention policy (backup-retention.ts) on concrete backups.
use docker_webmail_gui.Backups.Retention.{
  RetentionCandidate, RetentionPolicy, select_backups_for_deletion, select_from, age_threshold,
}
use docker_webmail_gui.Backups.Retention.Spared.{
  IsSafe, select_backups_for_deletion-IsSafe, length-select_backups_for_deletion,
}
use docker_webmail_gui.Common.{◌≤◌, ◌≡◌, refl, none, some, List, [], ◌∷◌, length}

abbrev old_one : RetentionCandidate
old_one = record { id = "old"; created_at = 1_000 }

abbrev backups : List RetentionCandidate
backups =
    record { id = "middle"; created_at = 90_000_000 }
    ∷ record { id = "new"; created_at = 180_000_000 }
    ∷ []

abbrev by_age : RetentionPolicy
by_age = record { keep = 3; max_age_days = some 1 }

selects_old :
    select_backups_for_deletion (old_one ∷ backups) by_age 180_000_000 none ≡ "middle" ∷ "old" ∷ []
unfolding select_backups_for_deletion select_from
selects_old = refl

select_backups_for_deletion-IsSafe_example :
    IsSafe
      (old_one ∷ backups)
      (some "old")
      (age_threshold (some 1) 180_000_000)
      (select_backups_for_deletion (old_one ∷ backups) by_age 180_000_000 (some "old"))
select_backups_for_deletion-IsSafe_example =
    select_backups_for_deletion-IsSafe old_one backups by_age 180_000_000 (some "old")

length-select_backups_for_deletion_example :
    length (
      select_backups_for_deletion
        (old_one ∷ backups)
        (record { keep = 1; max_age_days = none })
        180_000_000
        none)
    ≤ 2
length-select_backups_for_deletion_example =
    length-select_backups_for_deletion (old_one ∷ backups) 1 180_000_000 none
