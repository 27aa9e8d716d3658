-- ===== src/Privileges.antt =====
-- src/setuid.c: the dialog gives up the privileges that it was started with. The kernel's calls are
-- a parameter.
mod Discard
pub mod Tests
use budgie_screensaver.Common.{
  ℕ, ◌^◌, ◌-◌, Bool, true, false, not, ◌&&◌, ◌||◌, Option, none, some, ◌==◌, if◌then◌else◌, is_some,
}

-- The real and the effective ids of the process; -1 is 2 ^ 32 - 1.
pub record Ids : Type 0 where
  pub uid : ℕ
  pub euid : ℕ
  pub gid : ℕ
  pub egid : ℕ

-- setgroups, setgid and setuid: `none` for an error. `has_bsd_source` and `has_bsdauth` are
-- _BSD_SOURCE and HAVE_BSDAUTH; `auth_group` is the id of the group "auth".
pub record Kernel : Type 0 where
  pub setgroups : ℕ → Ids → Option Ids
  pub setgid : ℕ → Ids → Option Ids
  pub setuid : ℕ → Ids → Option Ids
  pub has_bsd_source : Bool
  pub has_bsdauth : Bool
  pub auth_group : Option ℕ

-- nolock_reason
pub data Reason : Type 0 where
  no_auth_group cannot_setgid_auth unable_to_discard running_as_root : Reason

abbrev pub minus_one : ℕ
minus_one = 2 ^ 32 - 1

-- An id that is -1 becomes -2.
unfoldable pub valid_id : ℕ → ℕ
valid_id id = if id == minus_one then 2 ^ 32 - 2 else id

-- A call leaves the ids alone if it fails; its success, and the ids.
abbrev pub attempt : (call : Option Ids) → Ids → Bool × Ids
attempt none ids = (false, ids)
attempt (some ids') ids = (true, ids')

unfoldable pub set_ids_by_number : (kernel : Kernel) (uid gid : ℕ) → Ids → Bool × Ids
unfolding valid_id
set_ids_by_number k uid gid ids =
    let gid = valid_id gid in
    let uid = valid_id uid in
    let (groups_set, ids1) =
      (if k.has_bsd_source then attempt (k.setgroups gid ids) ids else (true, ids)) in
    let (gid_set, ids2) = attempt (k.setgid gid ids1) ids1 in
    let (uid_set, ids3) = attempt (k.setuid uid ids2) ids2 in
    (uid_set && gid_set && groups_set, ids3)

-- The part that discards: the reason why it cannot, and the ids.
unfoldable pub discard : (kernel : Kernel) → Ids → Option Reason × Ids
unfolding set_ids_by_number
discard k ids =
    if k.has_bsdauth
    then elim k.auth_group [
      | none ↦ (some no_auth_group, ids)
      | some auth ↦
          let (ok, ids') = set_ids_by_number k ids.uid auth ids in
          (if ok then none else some cannot_setgid_auth, ids')
    ]
    else if not (ids.uid == ids.euid) || not (ids.gid == ids.egid)
    then (let (ok, ids') = set_ids_by_number k ids.uid ids.gid ids in
        (if ok then none else some unable_to_discard, ids'))
    else (none, ids)

-- Whether it is all right to lock, and if not, the reason; and the ids.
unfoldable pub hack_uid : (kernel : Kernel) → Ids → Bool × Option Reason × Ids
unfolding discard
hack_uid k ids =
    let (reason, ids') = discard k ids in
    if is_some reason
    then (false, reason, ids')
    else if ids'.uid == 0
    then (false, some running_as_root, ids')
    else (true, none, ids')
