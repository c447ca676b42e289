-- ===== src/Auth/LastAdmin.antt =====
-- An enabled account always remains (apps/server/src/modules/auth/admins.routes.ts).
use docker_webmail_gui.Auth.Store.{
  Email, AdminRole, AdminRow, Database, find_by_id, count_enabled, is_enabled, UpdateAdminPatch,
  update, patched, patched_by, new_admin, delete_admin, delete_where,
}
use docker_webmail_gui.Auth.AdminRoutes.{
  conflict, Reply, Guard, assert_not_self, assert_not_last_enabled_admin, guarded, create_unless,
  update_found, delete_found, asks_disabled, apply_update, apply_delete,
}
use docker_webmail_gui.Common.{
  Bool, List, Option, String, and_right, ap, arith, count_where, count_where-delete,
  count_where-filter, count_where-find-none, count_where-grows, count_where-only, count_where-same,
  count_where-snoc, count_where-update_where, count_where_mono, eq_iff, false, find, find-holds,
  if_ind, if◌then◌else◌, inl, inr, leb, leb-false→lt, none, not, refl, some, sym, true,
  update_where, ℕ, ◌&&◌, ◌++◌, ◌+◌, ◌==s◌, ◌∙◌, ◌∷◌, ◌≡◌, ◌≤◌, ◌⊎◌, [],
}

abbrev pub has_id : String → AdminRow → Bool
has_id id admin = admin.id ==s id

-- The primary key.
abbrev pub HasDistinctIds : List AdminRow → Type 0
HasDistinctIds admins = (id : String) → count_where (has_id id) admins ≤ 1

abbrev pub IsManaged : List AdminRow → Type 0
IsManaged admins = HasDistinctIds admins × (1 ≤ count_where is_enabled admins)

disable_spares :
    (p : AdminRow → Bool) (f : AdminRow → AdminRow) (admins : List AdminRow) (target : AdminRow)
    → find p admins ≡ some target
    → count_where p admins ≤ 1
    → (target.disabled ≡ true) ⊎ (2 ≤ count_where is_enabled admins)
    → 1 ≤ count_where is_enabled admins
    → (1 ≤ count_where is_enabled (update_where p f admins))
      × (1 ≤ count_where is_enabled (delete_where p admins))
disable_spares p f admins target h few either some_left =
    let updated = count_where-update_where is_enabled p f admins in
    let deleted = count_where-delete is_enabled p admins in
    let lost =
      count_where_mono (λ r. is_enabled r && p r) p admins (λ r. and_right (is_enabled r) (p r)) in
    elim either [
      | inl off ↦
          let nothing = count_where-only is_enabled p admins target h few (rw off refl) in
          (omega arith, omega arith)
      | inr two ↦ (omega arith, omega arith)
    ]

enabled-patched_by :
    (d : Option Bool) (r : Option AdminRole) (now : ℕ) (admin : AdminRow)
    → elim d [ none ↦ false | some b ↦ b ] ≡ false
    → is_enabled admin ≡ true
    → is_enabled (patched_by d r now admin) ≡ true
enabled-patched_by none none now admin h e = e
enabled-patched_by none (some r) now admin h e = e
enabled-patched_by (some d) none now admin h e = rw h refl
enabled-patched_by (some d) (some r) now admin h e = rw h refl

pub id-patched_by :
    (d : Option Bool) (r : Option AdminRole) (now : ℕ) (admin : AdminRow)
    → (patched_by d r now admin).id ≡ admin.id
id-patched_by none none now admin = refl
id-patched_by none (some r) now admin = refl
id-patched_by (some d) none now admin = refl
id-patched_by (some d) (some r) now admin = refl

update-HasDistinctIds :
    (p : AdminRow → Bool) (patch : UpdateAdminPatch) (now : ℕ) (admins : List AdminRow)
    → HasDistinctIds admins
    → HasDistinctIds (update_where p (patched patch now) admins)
update-HasDistinctIds p patch now admins h id =
    rw
      (count_where-same (has_id id) p (patched patch now) admins
        (λ r. rw (id-patched_by patch.disabled patch.role now r) refl))
      (h id)

delete-HasDistinctIds :
    (p : AdminRow → Bool) (admins : List AdminRow)
    → HasDistinctIds admins
    → HasDistinctIds (delete_where p admins)
delete-HasDistinctIds p admins h id =
    let fewer = count_where-filter (has_id id) (λ r. not (p r)) admins in
    let few = h id in omega arith

-- What the guard lets through.
not_last_allows :
    (db : Database) (target : AdminRow)
    → assert_not_last_enabled_admin db target ≡ none
    → (target.disabled ≡ true) ⊎ (2 ≤ count_where is_enabled db.admins)
unfolding assert_not_last_enabled_admin count_enabled
not_last_allows db target =
    if_ind (λ g. g ≡ none → (target.disabled ≡ true) ⊎ (2 ≤ count_where is_enabled db.admins))
      target.disabled none
      (if leb (count_where is_enabled db.admins) 1 then some conflict else none) (λ off _. inl off)
      (λ on.
        if_ind (λ g. g ≡ none → (target.disabled ≡ true) ⊎ (2 ≤ count_where is_enabled db.admins))
          (leb (count_where is_enabled db.admins) 1) (some conflict) none (λ _ e. cc)
          (λ more _. inr (leb-false→lt (count_where is_enabled db.admins) 1 more)))

guarded-IsManaged :
    (first second : Guard) (db : Database) (change : Reply × Database)
    → IsManaged db.admins
    → (second ≡ none → IsManaged change.1.admins)
    → IsManaged (guarded first second db change).1.admins
guarded-IsManaged (some e) second db change m h = m
guarded-IsManaged none (some e) db change m h = m
guarded-IsManaged none none db change m h = h refl

pub create_unless-IsManaged :
    (actor : AdminRow) (email : Email) (id hash : String) (now : ℕ) (db : Database)
    (existing : Option AdminRow)
    → find_by_id db id ≡ none
    → IsManaged db.admins
    → IsManaged (create_unless actor email id hash now db existing).1.admins
unfolding find_by_id
create_unless-IsManaged actor email id hash now db (some existing) new m = m
create_unless-IsManaged actor email id hash now db none new m =
    grown (new_admin id email hash AdminRole.administrator true now) refl
  where
    distinct :
        (admin : AdminRow) (other : String)
        → admin.id ≡ id
        → count_where (has_id other) db.admins ≤ 1
        → (admin.id ==s other ≡ true → count_where (has_id other) db.admins ≡ 0)
        → count_where (has_id other) (db.admins ++ admin ∷ []) ≤ 1
    distinct admin other same few free =
        rw (count_where-snoc (has_id other) db.admins admin) (ground arith)

    free_id :
        (admin : AdminRow) (other : String)
        → admin.id ≡ id
        → admin.id ==s other ≡ true
        → count_where (has_id other) db.admins ≡ 0
    free_id admin other same e =
        rw (sym ((eq_iff admin.id other).0 e), same)
          (count_where-find-none (has_id id) db.admins new)

    grown : (admin : AdminRow) → admin.id ≡ id → IsManaged (db.admins ++ admin ∷ [])
    grown admin same = (
      λ other. distinct admin other same (m.0 other) (free_id admin other same),
      rw (count_where-snoc is_enabled db.admins admin) (enough admin),
    )
      where
        enough :
            (admin : AdminRow)
            → 1 ≤ count_where is_enabled db.admins + (if is_enabled admin then 1 else 0)
        enough admin = omega (arith, m.1)

apply_update-IsManaged :
    (actor target : AdminRow) (id : String) (patch : UpdateAdminPatch) (now : ℕ) (db : Database)
    → find_by_id db id ≡ some target
    → IsManaged db.admins
    → (asks_disabled patch ≡ false)
      ⊎ ((target.disabled ≡ true) ⊎ (2 ≤ count_where is_enabled db.admins))
    → IsManaged (apply_update actor target patch now db).1.admins
unfolding apply_update update find_by_id
apply_update-IsManaged actor target id patch now db found m either =
    let same : target.id ≡ id =
      (eq_iff target.id id).0 (find-holds (has_id id) db.admins target found) in
    let found_again : find (has_id target.id) db.admins ≡ some target =
      ap (λ i. find (has_id i) db.admins) same ∙ found in
    (
      update-HasDistinctIds (has_id target.id) patch now db.admins m.0,
      elim either [
        | inl keeps ↦
            let more =
              count_where-grows is_enabled (has_id target.id) (patched patch now) db.admins
                (λ r. enabled-patched_by patch.disabled patch.role now r keeps) in
            let some_left = m.1 in omega arith
        | inr allowed ↦
            (disable_spares (has_id target.id) (patched patch now) db.admins target found_again
              (m.0 target.id) allowed m.1).0
      ],
    )

pub update_found-IsManaged :
    (actor : AdminRow) (id : String) (patch : UpdateAdminPatch) (now : ℕ) (db : Database)
    (found : Option AdminRow)
    → find_by_id db id ≡ found
    → IsManaged db.admins
    → IsManaged (update_found actor patch now db found).1.admins
update_found-IsManaged actor id patch now db none e m = m
update_found-IsManaged actor id patch now db (some target) e m =
    if_ind (λ r. IsManaged r.1.admins) (asks_disabled patch)
      (guarded (assert_not_self actor.id target.id) (assert_not_last_enabled_admin db target) db
        (apply_update actor target patch now db))
      (apply_update actor target patch now db)
      (λ _.
        guarded-IsManaged (assert_not_self actor.id target.id)
          (assert_not_last_enabled_admin db target) db (apply_update actor target patch now db) m
          (λ allowed.
            apply_update-IsManaged actor target id patch now db e m
              (inr (not_last_allows db target allowed))))
      (λ keeps. apply_update-IsManaged actor target id patch now db e m (inl keeps))

apply_delete-IsManaged :
    (actor target : AdminRow) (id : String) (db : Database)
    → find_by_id db id ≡ some target
    → IsManaged db.admins
    → (target.disabled ≡ true) ⊎ (2 ≤ count_where is_enabled db.admins)
    → IsManaged (apply_delete actor target db).1.admins
unfolding apply_delete delete_admin find_by_id
apply_delete-IsManaged actor target id db found m allowed =
    let same : target.id ≡ id =
      (eq_iff target.id id).0 (find-holds (has_id id) db.admins target found) in
    let found_again : find (has_id target.id) db.admins ≡ some target =
      ap (λ i. find (has_id i) db.admins) same ∙ found in
    (
      delete-HasDistinctIds (has_id target.id) db.admins m.0,
      (disable_spares (has_id target.id) (λ r. r) db.admins target found_again (m.0 target.id)
          allowed m.1).1,
    )

pub delete_found-IsManaged :
    (actor : AdminRow) (id : String) (db : Database) (found : Option AdminRow)
    → find_by_id db id ≡ found
    → IsManaged db.admins
    → IsManaged (delete_found actor db found).1.admins
delete_found-IsManaged actor id db none e m = m
delete_found-IsManaged actor id db (some target) e m =
    guarded-IsManaged (assert_not_self actor.id target.id) (assert_not_last_enabled_admin db target)
      db (apply_delete actor target db) m
      (λ allowed. apply_delete-IsManaged actor target id db e m (not_last_allows db target allowed))
