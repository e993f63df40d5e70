-- ===== src/Tests/Locking.antt =====
-- A test of the lock of the Amesh provisioner.
use amesh.Prelude.{◌≡◌, refl, arith, [], ◌∷◌, none}
use amesh.Amesh.{PluginsResponse, new_amesh_provisioner}
use amesh.Amesh.Locks.{free, selecting, Locked, Steps, StaysConnected, IsFrozen, deadlock-Steps}
use amesh.Tests.Plugins.{parse_any}

abbrev update : PluginsResponse
update = record { error_message = none; plugins = [] }

-- Three responses have arrived at once.
abbrev busy : Locked
busy = record {
  provisioner = new_amesh_provisioner;
  holder = free;
  receivers = selecting ∷ [];
  waiting = update ∷ update ∷ update ∷ [];
  routes = 1;
  patched = 0;
}

deadlock-Steps_example :
    (d : Locked) × Steps parse_any busy d
    × (d.waiting ≡ update ∷ [])
    × ((t : Locked) (run : Steps parse_any d t)
        → StaysConnected parse_any run
        → IsFrozen parse_any d t)
    × ((e : Locked) × Steps parse_any d e × (e.holder ≡ free) × (e.provisioner ≡ d.provisioner))
deadlock-Steps_example =
    deadlock-Steps parse_any busy update update (update ∷ []) refl refl refl refl refl (omega arith)
