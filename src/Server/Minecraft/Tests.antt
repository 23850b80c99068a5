-- ===== src/Server/Minecraft/Tests.antt =====
-- The theorems about the bridge to the game server, at concrete runs.
use km_resolv.Prelude.{
  ◌≡◌, refl, true, false, Option, none, some, List, [], ◌∷◌, ◌++◌, Text, codes, ok,
}
use km_resolv.Config.{MinecraftConfig, pos, defaults}
use km_resolv.Server.Verdict.{decimal, decimal_from}
use km_resolv.Server.Minecraft.{
  Bridge, Host, new_minecraft_server, running, start, stop, already, java_args, decimal_int, begin,
  exit, reap,
}
use km_resolv.Server.Minecraft.Lifecycle.{
  Move, start_move, begin_move, exit_move, reap_move, clear_move, step, Reach, here, next, IsSound,
  Reach-IsSound,
}
use km_resolv.Server.Minecraft.Races.{run, run-start_failed, run-start_early}

-- the jar is in place, and java starts or not
abbrev host : Option Text → Host
host e = record {
  executable = ok (codes "/opt/k");
  beside = λ exe name. codes "/opt/" ++ name;
  exists = λ path. true;
  launch = λ name args. e;
}

abbrev cfg : MinecraftConfig
cfg = defaults.minecraft

abbrev api : Text
api = codes "http://127.0.0.1:8080"

args_test :
    java_args
      (record cfg {
        min_ram = codes "1G";
        max_ram = codes "2G";
        listen = codes "::";
        port = pos 25565;
      })
      api
      (codes "k.jar")
    ≡ codes "-Xms1G"
      ∷ codes "-Xmx2G"
      ∷ codes "-jar"
      ∷ codes "k.jar"
      ∷ codes "--addr"
      ∷ codes "::"
      ∷ codes "--port"
      ∷ codes "25565"
      ∷ codes "--api"
      ∷ api
      ∷ []
unfolding java_args decimal_int decimal decimal_from
args_test = refl

-- a game server that is started, watched, stops and is started again
abbrev moves : List Move
moves = start_move (host none) ∷ begin_move ∷ exit_move 0 ∷ reap_move 0 ∷ []

moves-Reach :
    Reach cfg api (run cfg api (start_move (host none) ∷ begin_move ∷ []) new_minecraft_server)
unfolding run new_minecraft_server
moves-Reach = next begin_move tt (next (start_move (host none)) refl here)

Reach-IsSound_example :
    IsSound cfg api (run cfg api (start_move (host none) ∷ begin_move ∷ []) new_minecraft_server)
Reach-IsSound_example = Reach-IsSound cfg api moves-Reach

run-start_failed_example :
    let failed = (start cfg api (host (some (codes "no java"))) new_minecraft_server).0 in
    let b = run cfg api moves failed in
    (b.alive ≡ []) × (running b ≡ true) × (start cfg api (host none) b ≡ (b, some already))
unfolding new_minecraft_server running
run-start_failed_example =
    run-start_failed cfg api (host (some (codes "no java"))) (host none) (codes "/opt/k")
      (codes "no java") new_minecraft_server moves refl refl refl refl refl refl (refl, refl) refl

abbrev over : Bridge
over = record {
  cmd = some (record { id = 0; launched = true });
  fresh = 1;
  waited = 0 ∷ [];
  alive = [];
  spawned = 0;
  waiting = [];
  returned = 1;
  crashed = false;
}

moves-over : run cfg api moves new_minecraft_server ≡ over
unfolding run step start running begin exit reap new_minecraft_server
moves-over = refl

run-start_early_example :
    let lost = run cfg api (start_move (host none) ∷ begin_move ∷ clear_move ∷ []) over in
    let dead = run cfg api (start_move (host none) ∷ clear_move ∷ begin_move ∷ []) over in
    (lost.alive ≡ 1 ∷ [])
    × (running lost ≡ false)
    × (stop (λ id. none) (λ id. none) lost ≡ none)
    × (dead.crashed ≡ true)
unfolding running
run-start_early_example =
    run-start_early cfg api (host none) (codes "/opt/k") over 0 (λ id. none) (λ id. none) refl refl
      refl refl (refl, refl) refl
