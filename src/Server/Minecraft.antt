-- ===== src/Server/Minecraft.antt =====
-- internal/server/minecraft.go, with the calls of it in internal/server/server.go. The commands that
-- have been created are numbered; the goroutine that Start leaves behind is cut where another
-- goroutine can run in between: before it reads m.cmd, in Wait, and before it takes the lock.
pub mod Lifecycle
pub mod Races
mod Tests
use km_resolv.Prelude.{
  ℕ, zero, suc, ◌+◌, Bool, true, false, not, ◌&&◌, Option, none, some, List, [], ◌∷◌, ◌++◌, Text,
  codes, Result, ok, err, ◌==◌, nat_eq, any, select, if◌then◌else◌,
}
use km_resolv.Config.{ℤ, pos, negsuc, MinecraftConfig}
use km_resolv.Server.Verdict.{decimal}

-- an exec.Cmd: its number, and whether its Start has set Process
pub record Cmd : Type 0 where
  pub id : ℕ
  pub launched : Bool

pub record Bridge : Type 0 where
  pub cmd : Option Cmd
  -- the number of commands created so far
  pub fresh : ℕ
  -- the commands whose ProcessState is set
  pub waited : List ℕ
  -- the commands whose process runs
  pub alive : List ℕ
  -- the goroutines that have not read m.cmd yet, those in Wait, and those that Wait has returned to
  pub spawned : ℕ
  pub waiting : List ℕ
  pub returned : ℕ
  -- a goroutine has called Wait of a nil pointer, which ends the program
  pub crashed : Bool

unfoldable pub new_minecraft_server : Bridge
new_minecraft_server = record {
  cmd = none;
  fresh = 0;
  waited = [];
  alive = [];
  spawned = 0;
  waiting = [];
  returned = 0;
  crashed = false;
}

-- What Start asks of the operating system: os.Executable, filepath.Join with the folder of a
-- path, os.Stat, and the error of starting a program with arguments.
pub record Host : Type 0 where
  pub executable : Result Text
  pub beside : Text → Text → Text
  pub exists : Text → Bool
  pub launch : Text → List Text → Option Text

-- %d of an int
unfoldable pub decimal_int : ℤ → Text
decimal_int (pos n) = decimal n
decimal_int (negsuc n) = codes "-" ++ decimal (n + 1)

abbrev pub jar_name : Text
jar_name = codes "kmresolv-1.0.0-SNAPSHOT.jar"

abbrev pub java : Text
java = codes "java"

unfoldable pub java_args : MinecraftConfig → Text → Text → List Text
java_args cfg api_url jar =
    (codes "-Xms" ++ cfg.min_ram)
    ∷ (codes "-Xmx" ++ cfg.max_ram)
    ∷ codes "-jar"
    ∷ jar
    ∷ codes "--addr"
    ∷ cfg.listen
    ∷ codes "--port"
    ∷ decimal_int cfg.port
    ∷ codes "--api"
    ∷ api_url
    ∷ []

-- m.cmd != nil && m.cmd.ProcessState == nil
unfoldable pub running : Bridge → Bool
running b = elim b.cmd [ none ↦ false | some c ↦ not (any (λ i. i == c.id) b.waited) ]

abbrev pub already : Text
already = codes "minecraft server already running"

-- a new command in m.cmd, and started or not
abbrev pub with_cmd : Bool → Bridge → Bridge
with_cmd launched b = record b {
  cmd = some (record { id = b.fresh; launched = launched });
  fresh = b.fresh + 1;
}

-- the command in m.cmd is started: its process runs, and a goroutine is left behind for it
abbrev pub launch_cmd : Bridge → Bridge
launch_cmd b = record (with_cmd true b) { alive = b.fresh ∷ b.alive; spawned = b.spawned + 1 }

module _ (cfg : MinecraftConfig) (api_url : Text) where
  abbrev pub start_jar : Host → Text → Bridge → Bridge × Option Text
  start_jar host jar b =
      if not (host.exists jar)
      then (b, some (codes "minecraft jar not found at " ++ jar))
      else elim (host.launch java (java_args cfg api_url jar)) [
        | some e ↦ (with_cmd false b, some (codes "failed to start minecraft server: " ++ e))
        | none ↦ (launch_cmd b, none)
      ]

  unfoldable pub start : Host → Bridge → Bridge × Option Text
  start host b = if running b then (b, some already) else elim host.executable [
    | err e ↦ (b, some (codes "could not find executable path: " ++ e))
    | ok exe ↦ start_jar host (host.beside exe jar_name) b
  ]

  -- StartMinecraft of the server, which has a bridge if it is configured
  unfoldable pub start_minecraft : Host → Option Bridge → Option Bridge × Option Text
  start_minecraft host none = (none, some (codes "minecraft not configured"))
  start_minecraft host (some b) = let (b', e) = start host b in (some b', e)

-- The error of Stop, which changes nothing here: `signal` and `kill` are the errors of the calls on
-- the process of a command, and what they do to it is its end.
unfoldable pub stop : (ℕ → Option Text) → (ℕ → Option Text) → Bridge → Option Text
stop signal kill b = elim b.cmd [
  | none ↦ none
  | some c ↦
      if not c.launched then none else elim (signal c.id) [ none ↦ none | some e ↦ kill c.id ]
]

unfoldable pub stop_minecraft : (ℕ → Option Text) → (ℕ → Option Text) → Option Bridge → Option Text
stop_minecraft signal kill none = none
stop_minecraft signal kill (some b) = stop signal kill b

unfoldable pub minecraft_running : Option Bridge → Bool
minecraft_running none = false
minecraft_running (some b) = running b

-- A goroutine calls m.cmd.Wait, which is an error at once for a command that has not been started
-- or has been waited for.
abbrev pub wait_for : Cmd → Bridge → Bridge
wait_for c b =
    if c.launched && not (any (λ i. i == c.id) b.waited)
    then record b { waiting = c.id ∷ b.waiting }
    else record b { returned = b.returned + 1 }

unfoldable pub begin : Bridge → Bridge
begin b = elim b.spawned [
  | zero ↦ b
  | suc n ↦ elim b.cmd [
    | none ↦ record b { spawned = n; crashed = true }
    | some c ↦ wait_for c (record b { spawned = n })
  ]
]

-- the process of a command ends
unfoldable pub exit : ℕ → Bridge → Bridge
exit id b = record b { alive = select (λ i. not (i == id)) b.alive }

abbrev pub drop_one : ℕ → List ℕ → List ℕ
drop_one id [] = []
drop_one id (i ∷ ids) = let rest = drop_one id ids in if i == id then ids else i ∷ rest

-- Wait returns to a goroutine, the process being over
unfoldable pub reap : ℕ → Bridge → Bridge
reap id b =
    if any (λ i. i == id) b.waiting && not (any (λ i. i == id) b.alive)
    then record b {
      waited = id ∷ b.waited;
      waiting = drop_one id b.waiting;
      returned = b.returned + 1;
    }
    else b

-- m.cmd = nil, with which a goroutine ends
unfoldable pub clear : Bridge → Bridge
clear b = elim b.returned [ zero ↦ b | suc n ↦ record b { cmd = none; returned = n } ]
