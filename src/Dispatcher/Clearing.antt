-- ===== src/Dispatcher/Clearing.antt =====
-- Clear of dispatcher/dispatcher.go: it asks etcd to delete the keys that begin with the root.
use newtbig.Prelude.{
  ℕ, ◌≡◌, ◌≢◌, refl, sym, subst, ◌∙◌, ap, Bool, ◌&&◌, Bool-cases, inl, inr, bytes_eq, bytes_beq_iff,
  true, false, List, [], ◌∷◌, ◌++◌, Option, none, some, is_some, arith, ◌==◌, nat_eq, if◌then◌else◌,
  Bytes, ok, map,
}
use newtbig.Options.{Options}
use newtbig.Strings.FilePath.{path3}
use newtbig.Ring.Interface.{SortedKeys}
use newtbig.Ring.Histories.{Members, nobody, Apart, alter}
use newtbig.Etcd.History.{has_prefix, held, held_after, under, under-append, held-append, IsHistory}
use newtbig.Etcd.Values.{is_some-last_value}
use newtbig.Dispatcher.Proxy.{Proxy}
use newtbig.Dispatcher.{Dispatcher, Event, put, delete, get_proxy}
use newtbig.Dispatcher.Tracking.{Named}
use newtbig.Dispatcher.Discovery.{Discovers, discovers}
use newtbig.Dispatcher.Registered.{routed_registered}
use mathlib.Core.List.{append_assoc}

pub data ClearError : Type 0 where
  api_is_nil not_deleted : ClearError

-- Clear on a store, given the client and its Delete with WithPrefix: the store behind the request, and
-- whether it succeeded. The previous keys of the response are logged only.
unfoldable pub clear {ℓ κ} :
    {S : SortedKeys} {Client : Type ℓ} {Store : Type κ}
    → (Client → Bytes → Store → Store × Bool)
    → Dispatcher S
    → Option Client
    → Store
    → Store × Option ClearError
clear delete_prefix d none store = (store, some api_is_nil)
clear delete_prefix d (some client) store =
    let (store', deletes) = delete_prefix client d.root store in
    (store', if deletes then none else some not_deleted)

abbrev pub mentions : Bytes → List Bytes → Bool
mentions k [] = false
mentions k (j ∷ ks) = if j == k then true else mentions k ks

-- The events of the deletion.
abbrev pub deletions : List Bytes → List Event
deletions = map delete

-- What etcd promises of a Delete with WithPrefix that succeeds on a store: the store's log goes on
-- with the deletions of the keys that it held under the prefix, and of no others.
abbrev pub Deletes {κ} :
    {Store : Type κ} → (Bytes → Store → Store × Bool) → (Store → List Event) → Store → Type 0
Deletes delete_prefix log store =
    (prefix : Bytes)
    → (delete_prefix prefix store).1 ≡ true
    → (gone : List Bytes) × (log (delete_prefix prefix store).0 ≡ log store ++ deletions gone)
      × ((k : Bytes) → mentions k gone ≡ (has_prefix prefix k && held nobody (log store) k))

has_prefix-append : (root more : Bytes) → has_prefix root (root ++ more) ≡ true
unfolding has_prefix
has_prefix-append [] more = refl
has_prefix-append (b ∷ root) more = ground (arith, has_prefix-append root more)

-- The keys of an application whose name begins with the root are among those that are deleted.
pub has_prefix_others :
    (root more kind name : Bytes) → has_prefix root (path3 (root ++ more) kind name) ≡ true
has_prefix_others root more kind name =
    rw append_assoc (has_prefix-append root (more ++ b'/' ∷ (kind ++ b'/' ∷ name)))

held-deletions :
    (root : Bytes) (gone : List Bytes) (p : Members) (k : Bytes)
    → held p (under root (deletions gone)) k
      ≡ (if has_prefix root k && mentions k gone then false else p k)
unfolding under held held_after alter
held-deletions root [] p k = ground arith
held-deletions root (j ∷ gone) p k = elim (Bool-cases (has_prefix root j)) [
  | inl e ↦
      ground (arith, e, held-deletions root gone (held_after p (delete j)) k, bytes_beq_iff j k)
  | inr e ↦ ground (arith, e, held-deletions root gone p k, bytes_beq_iff j k)
]

-- What a watch of a prefix sees held is what etcd holds under it.
held-under :
    (root : Bytes) (p q : Members) (events : List Event) (k : Bytes)
    → q k ≡ (has_prefix root k && p k)
    → held q (under root events) k ≡ (has_prefix root k && held p events k)
unfolding under held held_after alter
held-under root p q [] k e = e
held-under root p q (put key value ∷ events) k e = elim (Bool-cases (has_prefix root key)) [
  | inl h ↦
      let rest =
        held-under root (held_after p (put key value)) (held_after q (put key value)) events k
          (ground (arith, e, bytes_beq_iff key k)) in
      ground (arith, h, rest)
  | inr h ↦
      let rest =
        held-under root (held_after p (put key value)) q events k
          (ground (arith, e, bytes_beq_iff key k)) in
      ground (arith, h, rest)
]
held-under root p q (delete key ∷ events) k e = elim (Bool-cases (has_prefix root key)) [
  | inl h ↦
      let rest =
        held-under root (held_after p (delete key)) (held_after q (delete key)) events k
          (ground (arith, e, bytes_beq_iff key k)) in
      ground (arith, h, rest)
  | inr h ↦
      let rest =
        held-under root (held_after p (delete key)) q events k
          (ground (arith, e, bytes_beq_iff key k)) in
      ground (arith, h, rest)
]

-- Nothing under a root is held any more when the keys that were held there are deleted.
held_cleared :
    (root : Bytes) (log : List Event) (gone : List Bytes)
    → ((k : Bytes) → mentions k gone ≡ (has_prefix root k && held nobody log k))
    → (k : Bytes) → held nobody (under root (log ++ deletions gone)) k ≡ false
held_cleared root log gone lists k =
    let whole =
      ap (λ es. held nobody es k) (under-append root log (deletions gone))
      ∙ ap (λ h. h k) (held-append nobody (under root log) (under root (deletions gone)))
      ∙ held-deletions root gone (held nobody (under root log)) k in
    ground (arith, whole, lists k, held-under root nobody nobody log k (ground arith))

module _ {ℓ κ} {S : SortedKeys} {Client : Type ℓ} {Store : Type κ}
    (delete_prefix : Client → Bytes → Store → Store × Bool) (log : Store → List Event)
    (client : Client) (store : Store) (deletes : Deletes (delete_prefix client) log store)
    (cleaner : Dispatcher S)
    (cleared : (clear delete_prefix cleaner (some client) store).1 ≡ none) where
  -- The log behind Clear.
  abbrev pub log_after : List Event
  log_after = log (clear delete_prefix cleaner (some client) store).0

  unheld : (k : Bytes) → held nobody (under cleaner.root log_after) k ≡ false
  unfolding clear
  unheld k =
      let (gone, same, lists) = deletes cleaner.root (ground (arith, cleared)) in
      subst (λ es. held nobody (under cleaner.root es) k ≡ false) (sym same)
        (held_cleared cleaner.root (log store) gone lists k)

  -- Where Clear of a dispatcher returns no error on an etcd whose Delete, when it succeeds, deletes
  -- the keys that are held under the prefix and no others; and the history of etcd behind it
  -- deletes a key only while it is held, and its keys in a service's directory lie in a set of keys
  -- that share no replica id: a dispatcher with that root that configures the service as Hash,
  -- reads the keys at some point of the history when nothing more happens in the directory before
  -- the Get of its Watch, watches from there, and reads and sees fewer than 2 ^ 32 keys and events,
  -- finds no proxy of the service for any id, though no server has stopped.
  pub clear_unroutes :
      (name : Bytes) (among : Members) (rep : ℕ) (apart : Apart rep among)
      → (named : Named name among (under cleaner.root log_after))
      → (history : IsHistory nobody (under cleaner.root log_after))
      → (T : SortedKeys) (opts : Options)
      → (d : Discovers cleaner.root name among rep apart log_after named history T opts)
      → (id : ℕ) (p : Proxy) → get_proxy (discovers T opts d.reading) name id ≢ ok p
  clear_unroutes name among rep apart named history T opts d id p g =
      let status =
        routed_registered cleaner.root name among rep apart log_after named history T opts d id p
          g in
      let held_there = is_some-last_value p.key none nobody (under cleaner.root log_after) refl in
      absurd (ground (arith, ap is_some status, held_there, unheld p.key))
