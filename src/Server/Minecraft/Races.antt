-- ===== src/Server/Minecraft/Races.antt =====
-- Where the bridge loses its game server: a start that fails, and a start between the return of Wait
-- and the lock of the goroutine that called it.
use km_resolv.Prelude.{
  ℕ, suc, ◌≡◌, refl, ◌∙◌, ap, true, false, Option, none, some, List, [], ◌∷◌, Text, ok, ◌==◌,
  nat_eq, any, arith,
}
use km_resolv.Config.{MinecraftConfig}
use km_resolv.Server.Minecraft.{
  Bridge, Host, running, start, stop, already, java, java_args, jar_name, begin, exit, reap, clear,
  launch_cmd, with_cmd,
}
use km_resolv.Server.Minecraft.Lifecycle.{
  Move, start_move, begin_move, exit_move, reap_move, clear_move, step,
}

module _ (cfg : MinecraftConfig) (api_url : Text) where
  unfoldable pub run : List Move → Bridge → Bridge
  run [] b = b
  run (m ∷ moves) b = run moves (step cfg api_url m b)

  -- The jar is there; whether java starts.
  abbrev pub Finds : Host → Text → Type 0
  Finds host exe = (host.executable ≡ ok exe) × (host.exists (host.beside exe jar_name) ≡ true)

  abbrev pub launches : Host → Text → Option Text
  launches host exe = host.launch java (java_args cfg api_url (host.beside exe jar_name))

  -- Only a failed command, and nobody that could clear it.
  abbrev IsDead : Bridge → Type 0
  IsDead b =
      (running b ≡ true) × (b.alive ≡ []) × (b.spawned ≡ 0) × (b.waiting ≡ []) × (b.returned ≡ 0)

  start-busy :
      (host : Host) (b : Bridge) → running b ≡ true → start cfg api_url host b ≡ (b, some already)
  unfolding start
  start-busy host b h = rw h refl

  start-failed :
      (host : Host) (b : Bridge) (exe e : Text)
      → running b ≡ false
      → Finds host exe
      → launches host exe ≡ some e
      → (start cfg api_url host b).0 ≡ with_cmd false b
  unfolding start
  start-failed host b exe e r (x, j) l = rw (r, x, j, l) refl

  start-launched :
      (host : Host) (b : Bridge) (exe : Text)
      → running b ≡ false
      → Finds host exe
      → launches host exe ≡ none
      → (start cfg api_url host b).0 ≡ launch_cmd b
  unfolding start
  start-launched host b exe r (x, j) l = rw (r, x, j, l) refl

  step-dead : (m : Move) (b : Bridge) → IsDead b → step cfg api_url m b ≡ b
  unfolding step begin exit reap clear
  step-dead (start_move host) b (r, a, s, w, t) = ap (λ x. x.0) (start-busy host b r)
  step-dead begin_move b (r, a, s, w, t) = ground (arith, s)
  step-dead (exit_move k) b (r, a, s, w, t) = ground (arith, a)
  step-dead (reap_move k) b (r, a, s, w, t) = ground (arith, w)
  step-dead clear_move b (r, a, s, w, t) = ground (arith, t)

  run-dead : (moves : List Move) (b : Bridge) → IsDead b → run moves b ≡ b
  unfolding run
  run-dead [] b d = refl
  run-dead (m ∷ moves) b d = ap (run moves) (step-dead m b d) ∙ run-dead moves b d

  -- Where no game server runs and no goroutine is left, a start that java refuses leaves the bridge
  -- as it is for ever, whatever is called and whatever goroutines and processes do: it says that a
  -- server is running, and each later Start is an error.
  pub run-start_failed :
      (host later : Host) (exe e : Text) (b : Bridge) (moves : List Move)
      → b.alive ≡ []
      → b.spawned ≡ 0
      → b.waiting ≡ []
      → b.returned ≡ 0
      → any (λ i. i == b.fresh) b.waited ≡ false
      → running b ≡ false
      → Finds host exe
      → launches host exe ≡ some e
      → let b' = run moves (start cfg api_url host b).0 in
        (b'.alive ≡ []) × (running b' ≡ true) × (start cfg api_url later b' ≡ (b', some already))
  unfolding running
  run-start_failed host later exe e b moves a s w t new r f l =
      let failed = start-failed host b exe e r f l in
      let busy : running (with_cmd false b) ≡ true = rw new refl in
      let same = ap (run moves) failed ∙ run-dead moves (with_cmd false b) (busy, a, s, w, t) in
      rw same (a, busy, start-busy later (with_cmd false b) busy)

  -- If Start is called between the return of Wait and the lock of the goroutine that called it, two
  -- orders follow. Either the new goroutine waits first: then the new game server runs with nobody
  -- to know of it, Running says no, and Stop does nothing. Or the old goroutine clears m.cmd first:
  -- then the new one calls Wait of nil, which ends the program.
  pub run-start_early :
      (host : Host) (exe : Text) (b : Bridge) (n : ℕ) (signal kill : ℕ → Option Text)
      → b.returned ≡ suc n
      → b.spawned ≡ 0
      → any (λ i. i == b.fresh) b.waited ≡ false
      → running b ≡ false
      → Finds host exe
      → launches host exe ≡ none
      → let lost = run (start_move host ∷ begin_move ∷ clear_move ∷ []) b in
        let dead = run (start_move host ∷ clear_move ∷ begin_move ∷ []) b in
        (lost.alive ≡ b.fresh ∷ b.alive)
        × (running lost ≡ false)
        × (stop signal kill lost ≡ none)
        × (dead.crashed ≡ true)
  unfolding run step running begin clear stop
  run-start_early host exe b n signal kill t s new r f l =
      let up = start-launched host b exe r f l in
      rw up (
        ground (arith, s, t, new),
        ground (arith, s, t, new),
        ground (arith, s, t, new),
        ground (arith, s, t, new),
      )
