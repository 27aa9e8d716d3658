-- ===== src/Privileges/Tests.antt =====
-- src/setuid.c: the theorem for a dialog that is setuid root.
use budgie_screensaver.Common.{◌≡◌, ◌≢◌, refl, true, false, Option, none, some, arith}
use budgie_screensaver.Privileges.{Ids, Kernel, Reason, hack_uid}
use budgie_screensaver.Privileges.Discard.{IsDocumented, hack_uid-Drops}

abbrev pub setuid_root : Ids
setuid_root = record { uid = 1000; euid = 0; gid = 100; egid = 100 }

abbrev pub kernel : Kernel
kernel = record {
  setgroups = λ g ids. some ids;
  setgid = λ g ids. some (record ids { gid = g; egid = g });
  setuid = λ u ids. some (record ids { uid = u; euid = u });
  has_bsd_source = true;
  has_bsdauth = false;
  auth_group = none;
}

kernel-IsDocumented : IsDocumented kernel
kernel-IsDocumented = record {
  setgroups = λ g ids ids' e. ground (arith, e);
  setgid = λ g ids ids' e. ground (arith, e);
  setuid = λ u ids ids' e. ground (arith, e);
}

abbrev user : Ids
user = record { uid = 1000; euid = 1000; gid = 100; egid = 100 }

setuid_root-hack_uid : hack_uid kernel setuid_root ≡ (true, none, user)
unfolding hack_uid
setuid_root-hack_uid = refl

hack_uid-Drops_example :
    (user.uid ≡ setuid_root.uid)
    × (user.euid ≡ setuid_root.uid)
    × (user.gid ≡ setuid_root.gid)
    × (user.egid ≡ setuid_root.gid)
    × (setuid_root.uid ≢ 0)
    × (◌≡◌ {A = Option Reason} none none)
hack_uid-Drops_example =
    hack_uid-Drops kernel setuid_root user none kernel-IsDocumented refl (omega arith) (omega arith)
      setuid_root-hack_uid
