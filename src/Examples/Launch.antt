-- ===== src/Examples/Launch.antt =====
-- A mirror that aria2 takes, in a world without tasks.
use cpp_mirror_leech_bot.Prelude.{false, none, [], ◌∷◌}
use cpp_mirror_leech_bot.Prelude.Integers.{pos}
use cpp_mirror_leech_bot.Core.Error.{ok}
use cpp_mirror_leech_bot.Application.Registry.{empty}
use cpp_mirror_leech_bot.Application.World.{World}
use cpp_mirror_leech_bot.Application.Launch.{LaunchRequest, LaunchPorts}
use cpp_mirror_leech_bot.Examples.Cancel.{repo}

abbrev ports : LaunchPorts
ports = record {
  settings = λ calls. ok none;
  added = λ calls. ok (b'g' ∷ []);
  edited = λ calls. ok tt;
  make_task_id = λ calls. b'n' ∷ [];
}

abbrev fresh_request : LaunchRequest
fresh_request = record {
  url = b'u' ∷ [];
  user = pos 7;
  chat = pos 100;
  use_qbittorrent = false;
  override_destination = none;
}

abbrev idle : World repo
idle = record { store = []; registry = empty; calls = [] }
