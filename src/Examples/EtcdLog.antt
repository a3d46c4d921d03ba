-- ===== src/Examples/EtcdLog.antt =====
-- A log of etcd with two gates of `app`, and readings of it by the login server and, later, by an
-- application.
use newtbig.Prelude.{
  ◌++◌, ℕ, ◌≡◌, ◌≢◌, refl, sym, ◌∙◌, true, List, [], ◌∷◌, none, ok, codes, Bytes, lookup, insert,
  arith, nat_eq, ◌==◌, bytes_eq, bytes_beq, bytes_beq_iff, if◌then◌else◌, ◌⊎◌, inl, inr, IsUnique,
  length, ◌+◌, ◌<◌, ◌^◌, ◌-◌, drop, map, ap,
}
use newtbig.Strings.Decimal.{atoi, to_int8, itoa}
use newtbig.Strings.Split.{split_on, trim_space}
use newtbig.Strings.FilePath.{dir, path2}
use newtbig.Ring.{hash_key, elt_key}
use newtbig.Ring.Crc32.{checksum_ieee}
use newtbig.Ring.Points.{is_point, contains, points_from}
use newtbig.Ring.Histories.{Members, Apart, nobody, alter}
use newtbig.Ring.Agreement.{Serves}
use newtbig.Etcd.History.{
  held, held_after, IsHistory, Elsewhere, Watches, events_of, under, has_prefix,
}
use newtbig.Etcd.Values.{last_value, value_after}
use newtbig.Dispatcher.Proxy.{Proxy}
use newtbig.Dispatcher.{
  Event, put, delete, init, get_proxy, service_name, name_from, add_name, add_names,
}
use newtbig.Dispatcher.Tracking.{Named}
use newtbig.Dispatcher.Agreement.{Starts}
use newtbig.Dispatcher.Discovery.{Reading, Discovers, discovers, final, discovery_routes}
use newtbig.Examples.Keys.{list_keys}
use newtbig.Examples.ServiceTests.{test_options}

abbrev pub gate_one : Bytes
gate_one = codes "app/gate/g1"

abbrev pub gate_two : Bytes
gate_two = codes "app/gate/g2"

abbrev up : Bytes
up = codes "up"

abbrev pub root : Bytes
root = codes "app"

abbrev pub gates : Bytes
gates = path2 root (codes "gate")

-- Another application's key, and then the gates, one of which goes and comes again.
abbrev pub log : List Event
log =
    put (codes "shop/gate/g1") up
    ∷ put gate_one up
    ∷ put (codes "app/login/l1") up
    ∷ put gate_two up
    ∷ delete gate_two
    ∷ put gate_two up
    ∷ []

abbrev pub both : Members
both k = if gate_one == k then true else gate_two == k

points_apart : (j : ℕ) → is_point 3 gate_one j ≡ true → ¬ (is_point 3 gate_two j ≡ true)
unfolding elt_key hash_key checksum_ieee itoa contains points_from
points_apart j a b = ground arith

both-cases : (m : Bytes) → both m ≡ true → (gate_one ≡ m) ⊎ (gate_two ≡ m)
both-cases m h = ground (arith, bytes_beq_iff gate_one m, bytes_beq_iff gate_two m)

pub both-Apart : Apart 3 both
both-Apart j m n s t = elim (both-cases m s.0) [
  | inl e ↦ elim (both-cases n t.0) [
    | inl f ↦ sym e ∙ f
    | inr f ↦ absurd (points_apart j (rw e s.1) (rw f t.1))
  ]
  | inr e ↦ elim (both-cases n t.0) [
    | inl f ↦ absurd (points_apart j (rw f t.1) (rw e s.1))
    | inr f ↦ sym e ∙ f
  ]
]

pub starts : Starts list_keys test_options 3 gates
unfolding init add_names add_name name_from split_on trim_space atoi insert lookup bytes_beq to_int8
starts = (refl, refl)

pub log-Named : Named gates both (under root log)
unfolding bytes_beq service_name dir under has_prefix
log-Named = (refl, (refl, (refl, (refl, (refl, tt)))))

pub log-IsHistory : IsHistory nobody (under root log)
unfolding held_after alter bytes_beq under has_prefix
log-IsHistory = (refl, tt)

-- An etcd whose first event makes revision 2, and which makes one revision of each event.
abbrev pub one_by_one : List Event → List (List Event)
one_by_one = map (λ e. e ∷ [])

abbrev pub etcd_of : (revisions : List (List Event)) → Watches (events_of revisions)
etcd_of revisions = record {
  base = 1;
  revisions = revisions;
  logged = refl;
  sent = λ prefix revision. under prefix (events_of (drop (revision - 2) revisions));
  sends = λ prefix n. ap (λ m. under prefix (events_of (drop m revisions))) (omega arith);
}

abbrev etcd : Watches log
etcd = etcd_of (one_by_one log)

abbrev first_keys : List (Bytes × Bytes)
first_keys = (gate_one, up) ∷ []

abbrev first_early : List Event
first_early = put (codes "shop/gate/g1") up ∷ put gate_one up ∷ []

abbrev login_came : List Event
login_came = put (codes "app/login/l1") up ∷ []

pub first_listed : (k : Bytes) → lookup k first_keys ≡ last_value k none (under root first_early)
unfolding last_value value_after bytes_beq under has_prefix lookup
first_listed k = ground arith

pub first-IsUnique : IsUnique first_keys
unfolding lookup
first-IsUnique = (refl, tt)

pub login-Elsewhere : Elsewhere gates (under root login_came)
unfolding bytes_beq under has_prefix service_name dir
login-Elsewhere = (refl, tt)

-- The login server reads the first gate alone, and watches the second come, go and come.
abbrev pub first_reading : Reading root gates log
first_reading = record {
  etcd = etcd;
  kvs = first_keys;
  early = first_early;
  between = login_came;
  late = put gate_two up ∷ delete gate_two ∷ put gate_two up ∷ [];
  before = one_by_one (first_early ++ login_came);
  after = one_by_one (put gate_two up ∷ delete gate_two ∷ put gate_two up ∷ []);
  cut = refl;
  until = refl;
  since = refl;
  unique = first-IsUnique;
  listed = first_listed;
  still = login-Elsewhere;
}

abbrev pub later_keys : List (Bytes × Bytes)
later_keys = (gate_two, up) ∷ (codes "app/login/l1", up) ∷ (gate_one, up) ∷ []

pub later_listed : (k : Bytes) → lookup k later_keys ≡ last_value k none (under root log)
unfolding last_value value_after bytes_beq under has_prefix lookup
later_listed k = ground (
  arith,
  bytes_beq_iff gate_one k,
  bytes_beq_iff gate_two k,
  bytes_beq_iff (codes "app/login/l1") k,
)

pub later-IsUnique : IsUnique later_keys
unfolding lookup bytes_beq
later-IsUnique = (refl, (refl, (refl, tt)))

pub nothing-Elsewhere : Elsewhere gates (under root [])
unfolding under
nothing-Elsewhere = tt

-- The application reads both gates at the end.
abbrev pub later_reading : Reading root gates log
later_reading = record {
  etcd = etcd;
  kvs = later_keys;
  early = log;
  between = [];
  late = [];
  before = one_by_one log;
  after = [];
  cut = refl;
  until = refl;
  since = refl;
  unique = later-IsUnique;
  listed = later_listed;
  still = nothing-Elsewhere;
}

pub first_few : length first_keys + length (under root first_reading.late) < 2 ^ 32
unfolding under has_prefix
first_few = omega arith

pub later_few : length later_keys + length (under root []) < 2 ^ 32
unfolding under
later_few = omega arith

abbrev pub login_server :
    Discovers root gates both 3 both-Apart log log-Named log-IsHistory list_keys test_options
login_server = record { reading = first_reading; rooted = refl; starts = starts; few = first_few }

abbrev pub application :
    Discovers root gates both 3 both-Apart log log-Named log-IsHistory list_keys test_options
application = record { reading = later_reading; rooted = refl; starts = starts; few = later_few }

abbrev pub gates_held : Members
gates_held = final root gates both 3 both-Apart log log-Named log-IsHistory

pub one_held : gates_held gate_one ≡ true
unfolding held held_after alter bytes_beq under has_prefix service_name dir
one_held = refl

pub gates-ne : gates ≢ []
gates-ne e = cc e

abbrev pub routed :
    (p : Proxy) × (get_proxy (discovers list_keys test_options first_reading) gates 7 ≡ ok p)
    × Serves 3 gates_held (itoa 7) p.key
routed =
    discovery_routes root gates both 3 both-Apart log log-Named log-IsHistory list_keys test_options
      login_server (omega arith) gates-ne gate_one one_held 7 (λ e. omega (arith, e))
