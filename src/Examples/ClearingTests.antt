-- ===== src/Examples/ClearingTests.antt =====
-- Clear on the etcd of Examples.EtcdLog.
use newtbig.Prelude.{
  ℕ, ◌≡◌, ◌≢◌, refl, ◌∙◌, List, [], ◌∷◌, ◌++◌, some, ok, codes, Bytes, arith, nat_eq, bytes_eq,
  bytes_beq, bytes_beq_iff, if◌then◌else◌, none, Bool, true, length, ◌+◌, ◌<◌, ◌^◌, ap, ◌&&◌,
}
use newtbig.Strings.FilePath.{dir}
use newtbig.Ring.Histories.{nobody, alter}
use newtbig.Etcd.History.{held, held_after, IsHistory, under, has_prefix}
use newtbig.Dispatcher.{Event, init, get_proxy, service_name}
use newtbig.Dispatcher.Tracking.{Named}
use newtbig.Dispatcher.Clearing.{clear, mentions, Deletes, deletions, clear_unroutes}
use newtbig.Dispatcher.Discovery.{Reading, Discovers, discovers}
use newtbig.Examples.Keys.{list_keys}
use newtbig.Examples.ServiceTests.{test_options}
use newtbig.Examples.EtcdLog.{
  gate_one, gate_two, root, gates, log, both, both-Apart, starts, later_keys, later_listed,
  later-IsUnique, nothing-Elsewhere, routed, etcd_of, one_by_one,
}

-- The keys that etcd holds at the end of the log, and its Delete with WithPrefix.
abbrev all_keys : List Bytes
all_keys = gate_two ∷ codes "app/login/l1" ∷ gate_one ∷ codes "shop/gate/g1" ∷ []

with_prefix : Bytes → List Bytes → List Bytes
with_prefix prefix [] = []
with_prefix prefix (k ∷ ks) =
    let rest = with_prefix prefix ks in if has_prefix prefix k then k ∷ rest else rest

-- A store is its log; this one is asked where it has the log above.
abbrev delete_prefix : ℕ → Bytes → List Event → List Event × Bool
delete_prefix client prefix store = (store ++ deletions (with_prefix prefix all_keys), true)

mentions-with_prefix :
    (prefix : Bytes) (ks : List Bytes) (k : Bytes)
    → mentions k (with_prefix prefix ks) ≡ (has_prefix prefix k && mentions k ks)
unfolding with_prefix
mentions-with_prefix prefix [] k = ground arith
mentions-with_prefix prefix (j ∷ ks) k =
    ground (arith, mentions-with_prefix prefix ks k, bytes_beq_iff j k)

mentions-all_keys : (k : Bytes) → mentions k all_keys ≡ held nobody log k
unfolding held held_after alter bytes_beq
mentions-all_keys k = ground (
  arith,
  bytes_beq_iff gate_one k,
  bytes_beq_iff gate_two k,
  bytes_beq_iff (codes "app/login/l1") k,
  bytes_beq_iff (codes "shop/gate/g1") k,
)

log-Deletes : Deletes (delete_prefix 0) (λ store. store) log
log-Deletes prefix e = (
  with_prefix prefix all_keys,
  refl,
  λ k.
      mentions-with_prefix prefix all_keys k
      ∙ ap (λ b. has_prefix prefix k && b) (mentions-all_keys k),
)

abbrev cleared : List Bytes
cleared = gate_two ∷ codes "app/login/l1" ∷ gate_one ∷ []

abbrev log_cleared : List Event
log_cleared = log ++ deletions cleared

clears : clear delete_prefix (init list_keys test_options) (some 0) log ≡ (log_cleared, none)
unfolding clear with_prefix has_prefix init
clears = refl

cleared-Named : Named gates both (under root log_cleared)
unfolding bytes_beq service_name dir under has_prefix
cleared-Named = (refl, (refl, (refl, (refl, (refl, (refl, (refl, (refl, tt))))))))

cleared-IsHistory : IsHistory nobody (under root log_cleared)
unfolding held_after alter bytes_beq under has_prefix
cleared-IsHistory = (refl, (refl, (refl, (refl, tt))))

-- A server that reads all before the keys are cleared; the deletions are one revision.
abbrev cleared_reading : Reading root gates log_cleared
cleared_reading = record {
  etcd = etcd_of (one_by_one log ++ deletions cleared ∷ []);
  kvs = later_keys;
  early = log;
  between = [];
  late = deletions cleared;
  before = one_by_one log;
  after = deletions cleared ∷ [];
  cut = refl;
  until = refl;
  since = refl;
  unique = later-IsUnique;
  listed = later_listed;
  still = nothing-Elsewhere;
}

cleared_few : length later_keys + length (under root (deletions cleared)) < 2 ^ 32
unfolding under has_prefix
cleared_few = omega arith

abbrev left_behind :
    Discovers root gates both 3 both-Apart log_cleared cleared-Named cleared-IsHistory list_keys
      test_options
left_behind = record {
  reading = cleared_reading;
  rooted = refl;
  starts = starts;
  few = cleared_few;
}

clear_unroutes_example :
    get_proxy (discovers list_keys test_options cleared_reading) gates 7 ≢ ok routed.0
unfolding clear with_prefix has_prefix init
clear_unroutes_example =
    clear_unroutes delete_prefix (λ store. store) 0 log log-Deletes (init list_keys test_options)
      refl gates both 3 both-Apart cleared-Named cleared-IsHistory list_keys test_options
      left_behind 7 routed.0
