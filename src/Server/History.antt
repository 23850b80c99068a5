-- ===== src/Server/History.antt =====
-- internal/server/statshistory.go, and sampleHistory of internal/server/server.go: the counters'
-- differences of the last 300 seconds.
use km_resolv.Prelude.{
  ℕ, suc, ◌+◌, ◌-◌, ◌%◌, ◌^◌, ◌≤◌, ◌<◌, ◌≡◌, refl, ap, sym, ◌∙◌, List, [], ◌∷◌, ◌++◌, append_assoc,
  arith, append-nil, subst, get_or, length, set, drop, replicate, length-append,
}
use native.Mathlib.Nat.{mod-add-mod, mod-eq_of_lt}
use km_resolv.Server.Ring.{Rolled, Rolled-write, read_round, read_round-eq-drop}

abbrev pub history_window : ℕ
history_window = 300

pub record HistoryBucket : Type 0 where
  pub queries : ℕ
  pub hits : ℕ
  pub blocked : ℕ

pub record StatsHistory : Type 0 where
  pub buckets : List HistoryBucket
  pub head : ℕ

abbrev pub zero_bucket : HistoryBucket
zero_bucket = record { queries = 0; hits = 0; blocked = 0 }

unfoldable pub new_stats_history : StatsHistory
new_stats_history = record { buckets = replicate history_window zero_bucket; head = 0 }

-- `record` of the source, whose name is reserved here
unfoldable pub record_bucket : HistoryBucket → StatsHistory → StatsHistory
record_bucket b h = record {
  buckets = set h.buckets h.head b;
  head = (h.head + 1) % history_window;
}

unfoldable pub snapshot : StatsHistory → List HistoryBucket
snapshot h = read_round h.buckets history_window zero_bucket h.head history_window

-- uint64 subtraction
abbrev pub sub64 : ℕ → ℕ → ℕ
sub64 a b = (a + 2 ^ 64 - b) % 2 ^ 64

-- A tick of sampleHistory: `prev` and the counters as they are read, each the number of queries,
-- of hits and of blocked ones. The new `prev` are the counters.
unfoldable pub sample : HistoryBucket → HistoryBucket → StatsHistory → StatsHistory
sample prev now h =
    record_bucket
      (record {
        queries = sub64 now.queries prev.queries;
        hits = sub64 now.hits prev.hits;
        blocked = sub64 now.blocked prev.blocked;
      })
      h

-- The ticks of sampleHistory, at the readings of the counters in order.
unfoldable pub sample_all : HistoryBucket → List HistoryBucket → StatsHistory → StatsHistory
sample_all prev [] h = h
sample_all prev (now ∷ readings) h = sample_all now readings (sample prev now h)

-- What was written, with the zeros of a new array before it.
record Records (h : StatsHistory) (written : List HistoryBucket) : Type 0 where
  slots : Rolled h.buckets history_window zero_bucket written
  next : h.head ≡ length written % history_window
  full : history_window ≤ length written

Records-record :
    (b : HistoryBucket) (h : StatsHistory) (written : List HistoryBucket)
    → Records h written
    → Records (record_bucket b h) (written ++ b ∷ [])
unfolding record_bucket
Records-record b h written v = record {
  slots = ap_slots;
  next = rw v.next (
      mod-add-mod (length written) 300 1
      ∙ ap (λ (k : ℕ). k % 300) (sym (length-append written (b ∷ []))));
  full = omega (arith, v.full, length-append written (b ∷ []));
}
  where
    ap_slots : Rolled (set h.buckets h.head b) history_window zero_bucket (written ++ b ∷ [])
    ap_slots = rw v.next (Rolled-write h.buckets 300 zero_bucket written b (omega arith) v.slots)

Records-new : Records new_stats_history (replicate history_window zero_bucket)
unfolding new_stats_history
Records-new = record {
  slots = record {
    slots_length = refl;
    at = λ i h _.
        ap (λ (k : ℕ). get_or (replicate history_window zero_bucket) k zero_bucket)
          (mod-eq_of_lt h);
  };
  next = refl;
  full = omega arith;
}

snapshot-eq-drop :
    (h : StatsHistory) (written : List HistoryBucket)
    → Records h written
    → snapshot h ≡ drop (length written - history_window) written
unfolding snapshot
snapshot-eq-drop h written v =
    read_round-eq-drop h.buckets 300 zero_bucket written 300 (length written - 300) h.head v.slots
      (omega arith) (omega (arith, v.full))
      (ap (λ (k : ℕ). k % 300) v.next ∙ round (length written) v.full)
  where
    round : (l : ℕ) → 300 ≤ l → (l % 300) % 300 ≡ (l - 300) % 300
    round l h = omega arith

-- The counters only grow, and stay below 2 ^ 64.
abbrev pub Rises : HistoryBucket → List HistoryBucket → Type 0
Rises prev [] = Unit
Rises prev (now ∷ readings) =
    (prev.queries ≤ now.queries)
    × (now.queries < 2 ^ 64)
    × (prev.hits ≤ now.hits)
    × (now.hits < 2 ^ 64)
    × (prev.blocked ≤ now.blocked)
    × (now.blocked < 2 ^ 64)
    × Rises now readings

-- What was counted in each second.
abbrev pub per_second : HistoryBucket → List HistoryBucket → List HistoryBucket
per_second prev [] = []
per_second prev (now ∷ readings) =
    record {
      queries = now.queries - prev.queries;
      hits = now.hits - prev.hits;
      blocked = now.blocked - prev.blocked;
    }
    ∷ per_second now readings

sub64-eq-sub : (a b : ℕ) → b ≤ a → a < 2 ^ 64 → sub64 a b ≡ a - b
sub64-eq-sub a b le lt = omega arith

exact :
    (prev now : HistoryBucket)
    → prev.queries ≤ now.queries
    → now.queries < 2 ^ 64
    → prev.hits ≤ now.hits
    → now.hits < 2 ^ 64
    → prev.blocked ≤ now.blocked
    → now.blocked < 2 ^ 64
    → ◌≡◌ {A = HistoryBucket}
        (record {
          queries = sub64 now.queries prev.queries;
          hits = sub64 now.hits prev.hits;
          blocked = sub64 now.blocked prev.blocked;
        })
        (record {
          queries = now.queries - prev.queries;
          hits = now.hits - prev.hits;
          blocked = now.blocked - prev.blocked;
        })
exact prev now a b c d e f = λ i. record {
  queries = sub64-eq-sub now.queries prev.queries a b i;
  hits = sub64-eq-sub now.hits prev.hits c d i;
  blocked = sub64-eq-sub now.blocked prev.blocked e f i;
}

length-per_second :
    (prev : HistoryBucket) (readings : List HistoryBucket)
    → length (per_second prev readings) ≡ length readings
length-per_second prev [] = refl
length-per_second prev (now ∷ readings) = ap suc (length-per_second now readings)

sample_all-Records :
    (prev : HistoryBucket) (readings : List HistoryBucket) (h : StatsHistory)
    (written : List HistoryBucket)
    → Rises prev readings
    → Records h written
    → Records (sample_all prev readings h) (written ++ per_second prev readings)
unfolding sample_all sample
sample_all-Records prev [] h written rises v = rw (append-nil written) v
sample_all-Records prev (now ∷ readings) h written rises v =
    let b : HistoryBucket = record {
      queries = now.queries - prev.queries;
      hits = now.hits - prev.hits;
      blocked = now.blocked - prev.blocked;
    } in
    rw (← append_assoc written (b ∷ []) (per_second now readings)) (
      sample_all-Records now readings _ (written ++ b ∷ []) rises.6 (
        subst (λ x. Records (record_bucket x h) (written ++ b ∷ []))
          (sym (exact prev now rises.0 rises.1 rises.2 rises.3 rises.4 rises.5))
          (Records-record b h written v)))

-- After any number of ticks the snapshot is the last 300 seconds, the oldest first: what each of
-- them has counted, and zeros for the seconds before the server has started.
pub snapshot-sample_all :
    (prev : HistoryBucket) (readings : List HistoryBucket)
    → Rises prev readings
    → snapshot (sample_all prev readings new_stats_history)
      ≡ drop (length readings) (replicate history_window zero_bucket ++ per_second prev readings)
snapshot-sample_all prev readings rises =
    let zeros = replicate history_window zero_bucket in
    let seconds = per_second prev readings in
    let v = sample_all-Records prev readings new_stats_history zeros rises Records-new in
    snapshot-eq-drop (sample_all prev readings new_stats_history) (zeros ++ seconds) v
    ∙ ap (λ (k : ℕ). drop k (zeros ++ seconds)) {x = length (zeros ++ seconds) - 300}
        {y = length readings}
        (omega (arith, length-append zeros seconds, length-per_second prev readings))
