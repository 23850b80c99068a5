-- ===== src/Server/QueryLog.antt =====
-- internal/server/querylog.go: the last queries in a ring. `marshal` is json.Marshal, of the
-- standard library, on an entry: the text of a line, or none for its error.
use km_resolv.Prelude.{
  ℕ, ◌+◌, ◌-◌, ◌%◌, ◌≤◌, ◌<◌, ◌≡◌, refl, ap, ◌∙◌, sym, Option, none, some, List, [], ◌∷◌, ◌++◌,
  append-nil, append_assoc, Text, arith, ltb, min, length, set, drop, replicate, length-append,
  length-replicate, if◌then◌else◌,
}
use native.Mathlib.Nat.{mod-add-mod, add-mod_right, zero-mod}
use km_resolv.Server.Ring.{Rolled, Rolled-write, read_round, read_round-eq-drop}

pub record QueryEntry : Type 0 where
  pub time : ℕ
  pub domain : Text
  pub type : Text
  pub client : Text
  pub status : Text
  pub latency : ℕ

-- The file is the lines that have been appended to it; none where no file is open.
pub record QueryLog : Type 0 where
  pub entries : List QueryEntry
  pub head : ℕ
  pub count : ℕ
  pub max : ℕ
  pub file : Option (List Text)

abbrev pub zero_entry : QueryEntry
zero_entry = record { time = 0; domain = []; type = []; client = []; status = []; latency = 0 }

unfoldable pub new_query_log : ℕ → Option (List Text) → QueryLog
new_query_log max file = record {
  entries = replicate max zero_entry;
  head = 0;
  count = 0;
  max = max;
  file = file;
}

-- l.file.Write(append(line, '\n')), where there is a file and a line
abbrev append_line : Option (List Text) → Option Text → Option (List Text)
append_line none line = none
append_line (some lines) none = some lines
append_line (some lines) (some line) = some (lines ++ line ∷ [])

module _ (marshal : QueryEntry → Option Text) where
  unfoldable pub add : QueryEntry → QueryLog → QueryLog
  add e l = record l {
    entries = set l.entries l.head e;
    head = (l.head + 1) % l.max;
    count = if ltb l.count l.max then l.count + 1 else l.count;
    file = append_line l.file (marshal e);
  }

  unfoldable pub add_all : List QueryEntry → QueryLog → QueryLog
  add_all [] l = l
  add_all (e ∷ es) l = add_all es (add e l)

-- The read of Recent, at an `n` that is not negative: out[i] is entries[(head - n + i + max) % max].
unfoldable pub recent : ℕ → QueryLog → List QueryEntry
recent n l =
    let n' = if ltb l.count n then l.count else n in
    read_round l.entries l.max zero_entry (l.head + l.max - n') n'

record Logs (l : QueryLog) (max : ℕ) (h : List QueryEntry) : Type 0 where
  slots : Rolled l.entries max zero_entry h
  size : l.max ≡ max
  next : l.head ≡ length h % max
  counted : l.count ≡ min (length h) max

module _ (marshal : QueryEntry → Option Text) where
  Logs-add :
      (e : QueryEntry) (l : QueryLog) (max : ℕ) (h : List QueryEntry)
      → 0 < max
      → Logs l max h
      → Logs (add marshal e l) max (h ++ e ∷ [])
  unfolding add
  Logs-add e l max h pos v = record {
    slots = rw v.next (Rolled-write l.entries max zero_entry h e pos v.slots);
    size = v.size;
    next =
        rw (v.size, v.next)
          (mod-add-mod (length h) max 1 ∙ ap (λ (k : ℕ). k % max) (sym (length-append h (e ∷ []))));
    counted = ground (arith, v.counted, v.size, length-append h (e ∷ []));
  }

  Logs-add_all :
      (es : List QueryEntry) (l : QueryLog) (max : ℕ) (h : List QueryEntry)
      → 0 < max
      → Logs l max h
      → Logs (add_all marshal es l) max (h ++ es)
  unfolding add_all
  Logs-add_all [] l max h pos v = rw (append-nil h) v
  Logs-add_all (e ∷ es) l max h pos v =
      rw (← append_assoc h (e ∷ []) es)
        (Logs-add_all es (add marshal e l) max (h ++ e ∷ []) pos (Logs-add e l max h pos v))

Logs-new : (max : ℕ) (file : Option (List Text)) → Logs (new_query_log max file) max []
unfolding new_query_log
Logs-new max file = record {
  slots = record {
    slots_length = length-replicate max zero_entry;
    at = λ i h. absurd (omega arith);
  };
  size = refl;
  next = sym (zero-mod max);
  counted = omega arith;
}

round_start : (l max k : ℕ) → k ≤ l → k ≤ max → (l % max + max - k) % max ≡ (l - k) % max
round_start l max k below fits =
    ap (λ (i : ℕ). i % max) {x = l % max + max - k} {y = l % max + (max - k)} (omega arith)
    ∙ mod-add-mod l max (max - k)
    ∙ ap (λ (i : ℕ). i % max) {x = l + (max - k)} {y = l - k + max} (omega arith)
    ∙ add-mod_right (l - k) max

recent-eq-drop :
    (n : ℕ) (l : QueryLog) (max : ℕ) (h : List QueryEntry)
    → 0 < max
    → Logs l max h
    → recent n l ≡ drop (length h - min n max) h
unfolding recent
recent-eq-drop n l max h pos v =
    let k = min n (min (length h) max) in
    let asked : (if ltb l.count n then l.count else n) ≡ k = ground (arith, v.counted) in
    rw (asked, v.size, v.next)
      (read_round-eq-drop l.entries max zero_entry h k (length h - k) (length h % max + max - k)
          v.slots (omega arith) (omega arith)
          (round_start (length h) max k (omega arith) (omega arith))
        ∙ ap (λ (i : ℕ). drop i h) (omega arith))

-- Whatever has been logged, Recent(n) returns the last `n` entries, or the last `max` where `n` is
-- more, or all where there are fewer, with the oldest first.
pub recent-add_all :
    (marshal : QueryEntry → Option Text) (es : List QueryEntry) (max : ℕ)
    (file : Option (List Text)) (n : ℕ)
    → 0 < max
    → recent n (add_all marshal es (new_query_log max file)) ≡ drop (length es - min n max) es
recent-add_all marshal es max file n pos =
    let start = new_query_log max file in
    recent-eq-drop n (add_all marshal es start) max es pos
      (Logs-add_all marshal es start max [] pos (Logs-new max file))
