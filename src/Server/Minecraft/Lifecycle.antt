-- ===== src/Server/Minecraft/Lifecycle.antt =====
-- The bridge over all orders of its calls and goroutines, with one condition on them.
use km_resolv.Prelude.{
  ℕ, ◌+◌, ◌<◌, ◌≡◌, ◌⊎◌, refl, sym, subst, inl, inr, Bool, true, false, not, ◌&&◌, Bool-cases,
  Option-cases, Result-cases, none, some, List, [], ◌∷◌, Text, ◌==◌, nat_eq, any, select, All,
  arith,
}
use km_resolv.Config.{MinecraftConfig}
use km_resolv.Server.Minecraft.{
  Bridge, Host, new_minecraft_server, running, start, java, java_args, jar_name, begin, exit, reap,
  clear,
}

-- What can happen next: a call of Start, or a step of a goroutine or a process. Stop and Running
-- change nothing.
pub data Move : Type 0 where
  start_move : Host → Move
  begin_move : Move
  exit_move : ℕ → Move
  reap_move : ℕ → Move
  clear_move : Move

module _ (cfg : MinecraftConfig) (api_url : Text) where
  unfoldable pub step : Move → Bridge → Bridge
  step (start_move host) b = (start cfg api_url host b).0
  step begin_move b = begin b
  step (exit_move id) b = exit id b
  step (reap_move id) b = reap id b
  step clear_move b = clear b

  -- Start is not called between the return of Wait and the lock of the goroutine that called it.
  abbrev pub IsPrompt : Move → Bridge → Type 0
  IsPrompt (start_move host) b = b.returned ≡ 0
  IsPrompt m b = Unit

  pub data Reach : Bridge → Type 0 where
    here : Reach new_minecraft_server
    next : {b : Bridge} (m : Move) → IsPrompt m b → Reach b → Reach (step m b)

-- The commands that were waited for are older than a number.
abbrev Older : ℕ → List ℕ → Type 0
Older n ids = All (λ i. i < n) ids

Older-suc : (n : ℕ) (ids : List ℕ) → Older n ids → Older (n + 1) ids
Older-suc n [] h = tt
Older-suc n (i ∷ ids) h = (omega arith, Older-suc n ids h.1)

Older-any : (n : ℕ) (ids : List ℕ) → Older n ids → any (λ i. i == n) ids ≡ false
Older-any n [] h = refl
Older-any n (i ∷ ids) h = ground (arith, Older-any n ids h.1)

-- Whether the process of the last command runs.
abbrev lives : Bool → ℕ → List ℕ
lives true id = id ∷ []
lives false id = []

select-lives :
    (l : Bool) (id k : ℕ) → select (λ i. not (i == k)) (lives l id) ≡ lives (l && not (id == k)) id
select-lives true id k = elim (Bool-cases (id == k)) [ inl e ↦ rw e refl | inr e ↦ rw e refl ]
select-lives false id k = refl

-- the five conditions that the bridge can be in
data Phase : Bridge → Type 0 where
  idle :
      (n : ℕ) (w : List ℕ)
      → Older n w
      → Phase (record {
        cmd = none;
        fresh = n;
        waited = w;
        alive = [];
        spawned = 0;
        waiting = [];
        returned = 0;
        crashed = false;
      })
  stuck :
      (n id : ℕ) (w : List ℕ)
      → any (λ i. i == id) w ≡ false
      → Older n w
      → Phase (record {
        cmd = some (record { id = id; launched = false });
        fresh = n;
        waited = w;
        alive = [];
        spawned = 0;
        waiting = [];
        returned = 0;
        crashed = false;
      })
  launched :
      (n id : ℕ) (w : List ℕ) (lively : Bool)
      → any (λ i. i == id) w ≡ false
      → Older n w
      → id < n
      → Phase (record {
        cmd = some (record { id = id; launched = true });
        fresh = n;
        waited = w;
        alive = lives lively id;
        spawned = 1;
        waiting = [];
        returned = 0;
        crashed = false;
      })
  watched :
      (n id : ℕ) (w : List ℕ) (lively : Bool)
      → any (λ i. i == id) w ≡ false
      → Older n w
      → id < n
      → Phase (record {
        cmd = some (record { id = id; launched = true });
        fresh = n;
        waited = w;
        alive = lives lively id;
        spawned = 0;
        waiting = id ∷ [];
        returned = 0;
        crashed = false;
      })
  over :
      (n id : ℕ) (w : List ℕ)
      → Older n w
      → Phase (record {
        cmd = some (record { id = id; launched = true });
        fresh = n;
        waited = w;
        alive = [];
        spawned = 0;
        waiting = [];
        returned = 1;
        crashed = false;
      })

module _ (cfg : MinecraftConfig) (api_url : Text) where
  busy-start : (host : Host) (b : Bridge) → running b ≡ true → (start cfg api_url host b).0 ≡ b
  unfolding start
  busy-start host b h = rw (start, h) refl

  idle-start :
      (host : Host) (n : ℕ) (w : List ℕ)
      → Older n w
      → Phase
          (start cfg api_url host (record {
            cmd = none;
            fresh = n;
            waited = w;
            alive = [];
            spawned = 0;
            waiting = [];
            returned = 0;
            crashed = false;
          })).0
  unfolding start running
  idle-start host n w o = elim (Result-cases host.executable) [
    | inl (e, f) ↦ rw f (idle n w o)
    | inr (exe, f) ↦ elim (Bool-cases (host.exists (host.beside exe jar_name))) [
      | inr g ↦ rw (f, g) (idle n w o)
      | inl g ↦
          elim (Option-cases
            (host.launch java (java_args cfg api_url (host.beside exe jar_name)))) [
              | inr (e, k) ↦ rw (f, g, k) (stuck (n + 1) n w (Older-any n w o) (Older-suc n w o))
              | inl k ↦
                  rw (f, g, k)
                    (launched (n + 1) n w true (Older-any n w o) (Older-suc n w o) (omega arith))
            ]
    ]
  ]

  busy-Phase :
      (host : Host) (b : Bridge) → running b ≡ true → Phase b → Phase (start cfg api_url host b).0
  busy-Phase host b h p = subst Phase (sym (busy-start host b h)) p

  step-Phase :
      {b : Bridge} (m : Move) → IsPrompt cfg api_url m b → Phase b → Phase (step cfg api_url m b)
  unfolding step running begin exit reap clear
  step-Phase (start_move host) p (idle n w o) = idle-start host n w o
  step-Phase (start_move host) p (stuck n id w h o) =
      busy-Phase host _ (rw h refl) (stuck n id w h o)
  step-Phase (start_move host) p (launched n id w l h o lt) =
      busy-Phase host _ (rw h refl) (launched n id w l h o lt)
  step-Phase (start_move host) p (watched n id w l h o lt) =
      busy-Phase host _ (rw h refl) (watched n id w l h o lt)
  step-Phase (start_move host) p (over n id w o) = absurd (omega arith)
  step-Phase begin_move p (launched n id w l h o lt) = rw h (watched n id w l h o lt)
  step-Phase begin_move p (idle n w o) = idle n w o
  step-Phase begin_move p (stuck n id w h o) = stuck n id w h o
  step-Phase begin_move p (watched n id w l h o lt) = watched n id w l h o lt
  step-Phase begin_move p (over n id w o) = over n id w o
  step-Phase (exit_move k) p (idle n w o) = idle n w o
  step-Phase (exit_move k) p (stuck n id w h o) = stuck n id w h o
  step-Phase (exit_move k) p (launched n id w l h o lt) =
      rw (select-lives l id k) (launched n id w (l && not (id == k)) h o lt)
  step-Phase (exit_move k) p (watched n id w l h o lt) =
      rw (select-lives l id k) (watched n id w (l && not (id == k)) h o lt)
  step-Phase (exit_move k) p (over n id w o) = over n id w o
  step-Phase (reap_move k) p (idle n w o) = idle n w o
  step-Phase (reap_move k) p (stuck n id w h o) = stuck n id w h o
  step-Phase (reap_move k) p (launched n id w l h o lt) = launched n id w l h o lt
  step-Phase (reap_move k) p (watched n id w true h o lt) = elim (Bool-cases (id == k)) [
    | inl e ↦ rw e (watched n id w true h o lt)
    | inr e ↦ rw e (watched n id w true h o lt)
  ]
  step-Phase (reap_move k) p (watched n id w false h o lt) = elim (Bool-cases (id == k)) [
    | inl e ↦ rw e (over n id (k ∷ w) (ground arith, o))
    | inr e ↦ rw e (watched n id w false h o lt)
  ]
  step-Phase (reap_move k) p (over n id w o) = over n id w o
  step-Phase clear_move p (idle n w o) = idle n w o
  step-Phase clear_move p (stuck n id w h o) = stuck n id w h o
  step-Phase clear_move p (launched n id w l h o lt) = launched n id w l h o lt
  step-Phase clear_move p (watched n id w l h o lt) = watched n id w l h o lt
  step-Phase clear_move p (over n id w o) = idle n w o

  Reach-Phase : {b : Bridge} → Reach cfg api_url b → Phase b
  unfolding new_minecraft_server
  Reach-Phase here = idle 0 [] tt
  Reach-Phase (next m p r) = step-Phase m p (Reach-Phase r)

  -- What is known of a bridge from its processes.
  pub record IsSound (b : Bridge) : Type 0 where
    pub crashed : b.crashed ≡ false
    pub known :
        (b.alive ≡ [])
        ⊎ ((id : ℕ) × (b.alive ≡ id ∷ [])
            × (b.cmd ≡ some (record { id = id; launched = true }))
            × (running b ≡ true))

  Phase-IsSound : {b : Bridge} → Phase b → IsSound b
  unfolding running
  Phase-IsSound (idle n w o) = record { crashed = refl; known = inl refl }
  Phase-IsSound (stuck n id w h o) = record { crashed = refl; known = inl refl }
  Phase-IsSound (launched n id w true h o lt) = record {
    crashed = refl;
    known = inr (id, refl, refl, rw h refl);
  }
  Phase-IsSound (launched n id w false h o lt) = record { crashed = refl; known = inl refl }
  Phase-IsSound (watched n id w true h o lt) = record {
    crashed = refl;
    known = inr (id, refl, refl, rw h refl);
  }
  Phase-IsSound (watched n id w false h o lt) = record { crashed = refl; known = inl refl }
  Phase-IsSound (over n id w o) = record { crashed = refl; known = inl refl }

  -- In every order of calls of Start and steps of the goroutines and processes, where Start is not
  -- called between the return of Wait and the lock of the goroutine that called it: the program does
  -- not end by a Wait of nil, at most one game server runs, and the one that runs is the one that
  -- Stop signals and Running reports.
  pub Reach-IsSound : {b : Bridge} → Reach cfg api_url b → IsSound b
  Reach-IsSound r = Phase-IsSound (Reach-Phase r)
