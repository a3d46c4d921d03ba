-- ===== src/Dispatcher/Discovery.antt =====
-- A dispatcher against the history of etcd: it reads the keys at one revision and watches from a
-- later one, and routes by the keys that etcd holds in the end.
use newtbig.Prelude.{
  ℕ, suc, none, IsUnique, ◌+◌, ◌<◌, ◌^◌, ◌≡◌, ◌≢◌, refl, sym, ◌∙◌, ap, subst, fun_ext, true, false,
  List, [], ◌∷◌, ◌++◌, some, arith, nat_eq, ◌==◌, bytes_eq, if◌then◌else◌, Bytes, lookup, length,
  length-append, ok, is_some, Bool-cases, inl, inr, All-append, All-left, All-right, nat_eq,
}
use newtbig.Options.{Options}
use newtbig.Strings.Decimal.{itoa}
use newtbig.Ring.Interface.{SortedKeys}
use newtbig.Ring.Histories.{Members, nobody, Apart}
use newtbig.Ring.Agreement.{Serves, Serves-unique}
use newtbig.Etcd.{watch}
use newtbig.Etcd.History.{
  held, IsHistory, Lists, puts, Part, alive-Part, Elsewhere, under, events_of, events_of-append,
  Watches, watched, held-append, held-Elsewhere, alive-append, watched-watch, under-append,
  held-puts, IsHistory-right,
}
use newtbig.Etcd.Values.{last_value, is_some-last_value}
use newtbig.Etcd.Directories.{puts-Named, puts-Proper, IsHistory-Proper, Named-among}
use newtbig.Dispatcher.Proxy.{Proxy}
use newtbig.Dispatcher.{Dispatcher, Event, get_proxy, service_name}
use newtbig.Dispatcher.Tracking.{alive, Named, started}
use newtbig.Dispatcher.Agreement.{Starts}
use newtbig.Dispatcher.Counting.{Proper, get_proxy_finds}

-- A reading of etcd: what it sends, what its log was when the dispatcher read the keys, what came between that
-- and the Get of Watch, and what came after.
pub record Reading (root name : Bytes) (log : List Event) : Type 0 where
  pub etcd : Watches log
  pub kvs : List (Bytes × Bytes)
  pub early : List Event
  pub between : List Event
  pub late : List Event
  -- The revisions up to that of the Get of Watch, and those behind it.
  pub before : List (List Event)
  pub after : List (List Event)
  pub cut : etcd.revisions ≡ before ++ after
  pub until : events_of before ≡ early ++ between
  pub since : events_of after ≡ late
  pub unique : IsUnique kvs
  pub listed : (k : Bytes) → lookup k kvs ≡ last_value k none (under root early)
  pub still : Elsewhere name (under root between)

-- What it takes from the channel: the Get of Watch stands between the early events and the late.
abbrev pub takes :
    {root name : Bytes} {log : List Event} → Reading root name log → Bytes → List Event
takes r app = watched r.etcd app (watch (some (r.etcd.base + length r.before)))

-- The dispatcher that reads the keys and then watches.
abbrev pub discovers :
    {root name : Bytes} {log : List Event} (S : SortedKeys)
    → Options
    → Reading root name log
    → Dispatcher S
discovers {root} {log} S opts r = started S opts (some r.kvs) (takes r opts.app_name)

whole :
    {root name : Bytes} {log : List Event} (r : Reading root name log)
    → log ≡ (r.early ++ r.between) ++ r.late
whole r =
    r.etcd.logged
    ∙ ap events_of r.cut
    ∙ events_of-append r.before r.after
    ∙ ap (λ es. es ++ events_of r.after) r.until
    ∙ ap (λ es. (r.early ++ r.between) ++ es) r.since

pub parts :
    {root name : Bytes} {log : List Event} (r : Reading root name log)
    → under root log ≡ under root (r.early ++ r.between) ++ under root r.late
parts {root} r = ap (under root) (whole r) ∙ under-append root (r.early ++ r.between) r.late

module _ (root name : Bytes) (among : Members) (log : List Event)
    (named : Named name among (under root log)) (history : IsHistory nobody (under root log))
    (r : Reading root name log) where
  -- What was read and watched.
  abbrev seen : List Event
  seen = puts r.kvs ++ under root r.late

  lists : Lists (held nobody (under root r.early)) r.kvs
  lists k = ap is_some (r.listed k) ∙ is_some-last_value k none nobody (under root r.early) refl

  -- What was read is the directory's part of what etcd holds when the watch begins.
  read-Part :
      Part name (held nobody (under root (r.early ++ r.between))) (alive name nobody (puts r.kvs))
  read-Part k =
      let read = alive-Part name nobody nobody (puts r.kvs) (λ j. ground arith) k in
      let whole =
        ap (λ es. held nobody es k) (under-append root r.early r.between)
        ∙ ap (λ h. h k) (held-append nobody (under root r.early) (under root r.between)) in
      elim (Bool-cases (service_name k == name)) [
        | inr out ↦ ground (arith, read)
        | inl within ↦
            let same =
              held-Elsewhere name (held nobody (under root r.early)) (under root r.between) k
                r.still within in
            ground (arith, read, held-puts nobody r.kvs k, lists k, whole, same)
      ]

  seen-Part : Part name (held nobody (under root log)) (alive name nobody seen)
  seen-Part =
      rw
        (
          parts r,
          held-append nobody (under root (r.early ++ r.between)) (under root r.late),
          alive-append name nobody (puts r.kvs) (under root r.late),
        )
        (alive-Part name (held nobody (under root (r.early ++ r.between)))
          (alive name nobody (puts r.kvs)) (under root r.late) read-Part)

  seen-Named : Named name among seen
  seen-Named =
      let before =
        All-left _ (under root (r.early ++ r.between)) (under root r.late)
          (subst (Named name among) (parts r) named) in
      let early =
        All-left _ (under root r.early) (under root r.between)
          (subst (Named name among) (under-append root r.early r.between) before) in
      All-append _ (puts r.kvs) (under root r.late)
        (puts-Named name among r.kvs (λ k e i.
          Named-among name among nobody (under root r.early) k early i (λ now. cc)
            (sym (lists k) ∙ e)))
        (All-right _ (under root (r.early ++ r.between)) (under root r.late)
          (subst (Named name among) (parts r) named))

  seen-Proper : Proper name nobody seen
  seen-Proper = puts-Proper name nobody r.kvs (under root r.late) (
      IsHistory-Proper name (held nobody (under root (r.early ++ r.between)))
        (alive name nobody (puts r.kvs)) (under root r.late) read-Part
        (IsHistory-right nobody (under root (r.early ++ r.between)) (under root r.late)
          (subst (IsHistory nobody) (parts r) history)))

length-puts : (kvs : List (Bytes × Bytes)) → length (puts kvs) ≡ length kvs
length-puts [] = refl
length-puts (kv ∷ kvs) = ap suc (length-puts kvs)

-- The keys of a directory that are held.
abbrev pub in_directory : Bytes → Members → Members
in_directory name h k = if service_name k == name then h k else false

-- What the dispatcher watches.
pub watched_late :
    {root name : Bytes} {log : List Event} (r : Reading root name log) (opts : Options)
    → opts.app_name ≡ root
    → takes r opts.app_name ≡ under root r.late
watched_late {root} r opts e =
    ap (takes r) e ∙ watched-watch r.etcd root r.before r.after r.cut ∙ ap (under root) r.since

module _ (root name : Bytes) (among : Members) (rep : ℕ) (apart : Apart rep among)
    (log : List Event) (named : Named name among (under root log))
    (history : IsHistory nobody (under root log)) where
  -- The keys of the directory that etcd holds in the end.
  abbrev pub final : Members
  final = in_directory name (held nobody (under root log))

  -- A dispatcher that reads this log, with few enough registrations to count them.
  pub record Discovers (S : SortedKeys) (opts : Options) : Type 0 where
    pub reading : Reading root name log
    pub rooted : opts.app_name ≡ root
    pub starts : Starts S opts rep name
    pub few : length reading.kvs + length (under root reading.late) < 2 ^ 32

  -- For a history of etcd that deletes a key only while it is held, and whose keys in the service's
  -- directory lie in a set of keys that share no replica id, and a dispatcher that configures the
  -- service as Hash, reads the keys at some point of the history when nothing more happens in the
  -- directory before the Get of its Watch, watches from there, and reads and sees fewer than 2 ^ 32
  -- keys and events, with at least one replica and a service name that is not empty: as soon as
  -- etcd holds a key of the directory in the end, GetProxy finds a proxy for every id other than
  -- zero, whose key is one that etcd holds there and has the first replica id from the hash of the
  -- id on, going round, among all of these.
  pub discovery_routes :
      (S : SortedKeys) (opts : Options) (r : Discovers S opts)
      → 0 < rep
      → name ≢ []
      → (key : Bytes) → final key ≡ true
      → (id : ℕ) → id ≢ 0
      → (p : Proxy) × (get_proxy (discovers S opts r.reading) name id ≡ ok p)
        × Serves rep final (itoa id) p.key
  discovery_routes S opts d replicas some_name key there id some_id =
      let r = d.reading in
      let late = watched_late r opts d.rooted in
      let same : alive name nobody (seen root name among log named history r) ≡ final =
        fun_ext (seen-Part root name among log named history r) in
      let (p, g, s) =
        get_proxy_finds among rep apart name S opts (some r.kvs) (under root r.late) d.starts
          (seen-Named root name among log named history r)
          (seen-Proper root name among log named history r)
          (omega (arith, d.few, length-append (puts r.kvs) (under root r.late), length-puts r.kvs))
          replicas some_name key (ap (λ m. m key) same ∙ there) id some_id in
      (
        p,
        subst (λ es. get_proxy (started S opts (some r.kvs) es) name id ≡ ok p) (sym late) g,
        subst (λ m. Serves rep m (itoa id) p.key) same s,
      )

  final-among : (k : Bytes) → final k ≡ true → among k ≡ true
  final-among k e = elim (Bool-cases (service_name k == name)) [
    | inr out ↦ absurd (ground arith)
    | inl within ↦
        Named-among name among nobody (under root log) k named within (λ now. cc) (ground arith)
  ]

  pub watchers_agree :
      (S T : SortedKeys) (opts others : Options) (r : Discovers S opts) (q : Discovers T others)
      → 0 < rep
      → name ≢ []
      → (key : Bytes) → final key ≡ true
      → (id : ℕ) → id ≢ 0
      → (p : Proxy) × (p' : Proxy) × (get_proxy (discovers S opts r.reading) name id ≡ ok p)
        × (get_proxy (discovers T others q.reading) name id ≡ ok p')
        × (p.key ≡ p'.key)
  watchers_agree S T opts others r q replicas some_name key there id some_id =
      let (p, g, s) = discovery_routes S opts r replicas some_name key there id some_id in
      let (p', g', s') = discovery_routes T others q replicas some_name key there id some_id in
      (p, p', g, g', Serves-unique among final rep apart final-among (itoa id) p.key p'.key s s')
