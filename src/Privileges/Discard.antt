-- ===== src/Privileges/Discard.antt =====
-- src/setuid.c: the ids of a process that may lock.
use budgie_screensaver.Common.{
  ℕ, ◌≡◌, ◌≢◌, ◌⊎◌, true, false, Option, none, some, arith, inl, inr, not, ◌||◌, ◌==◌, Bool-cases,
  if◌then◌else◌, ◌&&◌,
}
use budgie_screensaver.Privileges.{
  Ids, Kernel, attempt, Reason, minus_one, valid_id, set_ids_by_number, discard, hack_uid,
}

-- The calls as they are documented: on success, setgroups changes no id; setgid sets the
-- effective group id, and the real one or nothing else; and setuid so for the user ids.
pub record IsDocumented (k : Kernel) : Type 0 where
  pub setgroups : (g : ℕ) (ids ids' : Ids) → k.setgroups g ids ≡ some ids' → ids' ≡ ids
  pub setgid :
      (g : ℕ) (ids ids' : Ids)
      → k.setgid g ids ≡ some ids'
      → (ids'.egid ≡ g)
        × ((ids'.gid ≡ g) ⊎ (ids'.gid ≡ ids.gid))
        × (ids'.uid ≡ ids.uid)
        × (ids'.euid ≡ ids.euid)
  pub setuid :
      (u : ℕ) (ids ids' : Ids)
      → k.setuid u ids ≡ some ids'
      → (ids'.euid ≡ u)
        × ((ids'.uid ≡ u) ⊎ (ids'.uid ≡ ids.uid))
        × (ids'.gid ≡ ids.gid)
        × (ids'.egid ≡ ids.egid)

valid_id_lem : (id : ℕ) → id ≢ minus_one → valid_id id ≡ id
unfolding valid_id
valid_id_lem id ne = ground arith

attempt-some :
    (call : Option Ids) (ids ids' : Ids) → attempt call ids ≡ (true, ids') → call ≡ some ids'
attempt-some none ids ids' e = ground (arith, e)
attempt-some (some i) ids ids' e = ground (arith, e)

-- The ids after the three calls, when each succeeds.
drop_all :
    (k : Kernel) (u g : ℕ) (ids ids1 ids2 ids3 : Ids)
    → IsDocumented k
    → ids1 ≡ ids
    → attempt (k.setgid g ids1) ids1 ≡ (true, ids2)
    → attempt (k.setuid u ids2) ids2 ≡ (true, ids3)
    → (ids3.euid ≡ u)
      × ((ids3.uid ≡ u) ⊎ (ids3.uid ≡ ids.uid))
      × (ids3.egid ≡ g)
      × ((ids3.gid ≡ g) ⊎ (ids3.gid ≡ ids.gid))
drop_all k u g ids ids1 ids2 ids3 doc same e2 e3 =
    let d2 = doc.setgid g ids1 ids2 (attempt-some (k.setgid g ids1) ids1 ids2 e2) in
    let d3 = doc.setuid u ids2 ids3 (attempt-some (k.setuid u ids2) ids2 ids3 e3) in
    (
      ground (arith, d3),
      ground (arith, same, d2, d3),
      ground (arith, d2, d3),
      ground (arith, same, d2, d3),
    )

setgroups-same :
    (k : Kernel) (g : ℕ) (ids ids1 : Ids)
    → IsDocumented k
    → (if k.has_bsd_source then attempt (k.setgroups g ids) ids else (true, ids)) ≡ (true, ids1)
    → ids1 ≡ ids
setgroups-same k g ids ids1 doc e = elim (Bool-cases k.has_bsd_source) [
  | inl bsd ↦ doc.setgroups g ids ids1 (attempt-some (k.setgroups g ids) ids ids1 (rw bsd at e))
  | inr not_bsd ↦ ground (arith, not_bsd, e)
]

set_ids_by_number-drop :
    (k : Kernel) (ids ids' : Ids)
    → IsDocumented k
    → ids.uid ≢ minus_one
    → ids.gid ≢ minus_one
    → set_ids_by_number k ids.uid ids.gid ids ≡ (true, ids')
    → (ids'.uid ≡ ids.uid) × (ids'.euid ≡ ids.uid) × (ids'.gid ≡ ids.gid) × (ids'.egid ≡ ids.gid)
unfolding set_ids_by_number
set_ids_by_number-drop k ids ids' doc u g e =
    let ev : valid_id ids.uid ≡ ids.uid = valid_id_lem ids.uid u in
    let eg : valid_id ids.gid ≡ ids.gid = valid_id_lem ids.gid g in
    let (groups_set, ids1) =
      (if k.has_bsd_source
        then attempt (k.setgroups (valid_id ids.gid) ids) ids
        else (true, ids)) in
    let (gid_set, ids2) = attempt (k.setgid (valid_id ids.gid) ids1) ids1 in
    let (uid_set, ids3) = attempt (k.setuid (valid_id ids.uid) ids2) ids2 in
    let all : (uid_set && gid_set && groups_set, ids3) ≡ (true, ids') = e in
    let e1 : groups_set ≡ true = ground (arith, all) in
    let e2 : gid_set ≡ true = ground (arith, all) in
    let e3 : uid_set ≡ true = ground (arith, all) in
    let e4 : ids3 ≡ ids' = ground (arith, all) in
    let same = setgroups-same k (valid_id ids.gid) ids ids1 doc (λ i. (e1 i, ids1)) in
    let dropped =
      drop_all k (valid_id ids.uid) (valid_id ids.gid) ids ids1 ids2 ids3 doc same
        (λ i. (e2 i, ids2)) (λ i. (e3 i, ids3)) in
    ground (arith, dropped, ev, eg, e4)

discard-drop :
    (k : Kernel) (ids ids' : Ids)
    → IsDocumented k
    → k.has_bsdauth ≡ false
    → ids.uid ≢ minus_one
    → ids.gid ≢ minus_one
    → discard k ids ≡ (none, ids')
    → (ids'.uid ≡ ids.uid) × (ids'.euid ≡ ids.uid) × (ids'.gid ≡ ids.gid) × (ids'.egid ≡ ids.gid)
unfolding discard
discard-drop k ids ids' doc plain u g e =
    let (ok, set) = set_ids_by_number k ids.uid ids.gid ids in
    elim (Bool-cases (not (ids.uid == ids.euid) || not (ids.gid == ids.egid))) [
      | inl differ ↦
          let good : ok ≡ true = ground (arith, plain, differ, e) in
          let same : set ≡ ids' = ground (arith, plain, differ, e) in
          set_ids_by_number-drop k ids ids' doc u g (λ i. (good i, same i))
      | inr equal ↦ ground (arith, plain, equal, e)
    ]

-- Without BSD authentication, and with a kernel whose calls do as documented: a process that may
-- lock runs with the ids of the user who started it. Its effective ids and its real ones are the
-- real ids it had, whatever its effective ids were; neither of these was -1, which is no user or
-- group. The user is not root, and no reason against locking is given.
pub hack_uid-Drops :
    (k : Kernel) (ids ids' : Ids) (reason : Option Reason)
    → IsDocumented k
    → k.has_bsdauth ≡ false
    → ids.uid ≢ minus_one
    → ids.gid ≢ minus_one
    → hack_uid k ids ≡ (true, reason, ids')
    → (ids'.uid ≡ ids.uid)
      × (ids'.euid ≡ ids.uid)
      × (ids'.gid ≡ ids.gid)
      × (ids'.egid ≡ ids.gid)
      × (ids.uid ≢ 0)
      × (reason ≡ none)
unfolding hack_uid
hack_uid-Drops k ids ids' reason doc plain u g e =
    let (why, dropped) = discard k ids in
    let unset : why ≡ none = ground (arith, e) in
    let same : dropped ≡ ids' = ground (arith, e) in
    let (a, b, c, d) = discard-drop k ids ids' doc plain u g (λ i. (unset i, same i)) in
    (a, b, c, d, λ root. ground (arith, e, a, same, root), ground (arith, e))
