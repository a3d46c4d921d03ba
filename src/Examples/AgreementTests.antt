-- ===== src/Examples/AgreementTests.antt =====
-- Two dispatchers: one watches two login servers come, the other reads them at its start, and then
-- one of them goes and comes again.
use newtbig.Prelude.{
  ℕ, ◌≡◌, ◌≢◌, refl, sym, ◌∙◌, true, false, List, [], ◌∷◌, none, some, ok, codes, Bytes, lookup,
  insert, arith, nat_eq, ◌==◌, bytes_eq, bytes_beq, bytes_beq_iff, if◌then◌else◌, ◌⊎◌, inl, inr,
}
use newtbig.Strings.Decimal.{atoi, to_int8, itoa}
use newtbig.Strings.Split.{split_on, trim_space}
use newtbig.Strings.FilePath.{dir}
use newtbig.Ring
use newtbig.Ring.{hash_key, elt_key}
use newtbig.Ring.Crc32.{checksum_ieee}
use newtbig.Ring.Points.{is_point, contains, points_from}
use newtbig.Ring.Histories.{Members, Apart, nobody, alter}
use newtbig.Ring.Agreement.{Serves}
use newtbig.Dispatcher.Proxy
use newtbig.Dispatcher.Proxy.{Proxy}
use newtbig.Dispatcher.Service
use newtbig.Dispatcher.Service.{Service}
use newtbig.Dispatcher.{
  Event, put, delete, init, watcher, handle, get_proxy, add_service, remove_service, register_in,
  service_name, name_from, add_name, add_names, connect_all,
}
use newtbig.Dispatcher
use newtbig.Dispatcher.Tracking.{alive, alive_after, Named, seen_after, started}
use newtbig.Dispatcher.Agreement.{Starts, get_proxy-Serves, dispatchers_agree}
use newtbig.Dispatcher.Counting.{Proper, get_proxy_finds}
use newtbig.Examples.Keys.{list_keys}
use newtbig.Examples.ServiceTests.{test_options, first_key, second_key}

abbrev login : Bytes
login = codes "app/login"

abbrev in_order : List Event
in_order = put first_key (codes "up") ∷ put second_key (codes "up") ∷ []

abbrev found : List (Bytes × Bytes)
found = (second_key, codes "up") ∷ (first_key, codes "up") ∷ []

abbrev later : List Event
later = delete second_key ∷ put second_key (codes "up") ∷ []

abbrev both : Members
both k = if first_key == k then true else second_key == k

points_apart : (j : ℕ) → is_point 3 first_key j ≡ true → ¬ (is_point 3 second_key j ≡ true)
unfolding elt_key hash_key checksum_ieee itoa contains points_from
points_apart j a b = ground arith

both-cases : (m : Bytes) → both m ≡ true → (first_key ≡ m) ⊎ (second_key ≡ m)
both-cases m h = ground (arith, bytes_beq_iff first_key m, bytes_beq_iff second_key m)

both-Apart : Apart 3 both
both-Apart j m n s t = elim (both-cases m s.0) [
  | inl e ↦ elim (both-cases n t.0) [
    | inl f ↦ sym e ∙ f
    | inr f ↦ absurd (points_apart j (rw e s.1) (rw f t.1))
  ]
  | inr e ↦ elim (both-cases n t.0) [
    | inl f ↦ absurd (points_apart j (rw f t.1) (rw e s.1))
    | inr f ↦ sym e ∙ f
  ]
]

starts : Starts list_keys test_options 3 login
unfolding init add_names add_name name_from split_on trim_space atoi insert lookup bytes_beq to_int8
starts = (refl, refl)

in_order-Named : Named login both in_order
unfolding bytes_beq service_name dir
in_order-Named = (refl, (refl, tt))

later-Named : Named login both (seen_after (some found) later)
unfolding bytes_beq service_name dir
later-Named = (refl, (refl, (refl, (refl, tt))))

same_alive :
    (k : Bytes)
    → alive login nobody in_order k ≡ alive login nobody (seen_after (some found) later) k
unfolding alive alive_after alter bytes_beq service_name dir
same_alive k = ground (arith, bytes_beq_iff first_key k, bytes_beq_iff second_key k)

abbrev second_proxy : Proxy
second_proxy = Proxy.init login second_key test_options (codes "up")

abbrev seen_service : Service list_keys
seen_service =
    let s = Service.init list_keys login test_options 1 in
    let up = codes "up" in
    register_in
      (Service.del_proxy (register_in (register_in s second_key up) first_key up) second_key)
      second_key up

seen_stands :
    lookup login (started list_keys test_options (some found) later).services ≡ some seen_service
unfolding started Dispatcher.start connect_all watcher handle init add_service remove_service
    service_name add_names add_name name_from split_on trim_space atoi dir insert lookup bytes_beq
    to_int8
seen_stands = refl

counted_two : seen_service.count ≡ 2
unfolding register_in Service.create_proxy Service.add_proxy Service.init Service.get_proxy
    Service.del_proxy lookup insert bytes_beq Proxy.init newtbig.Prelude.erase
counted_two = refl

seen_counted : seen_service.count ≢ 0
seen_counted e = omega (arith, sym counted_two ∙ e)

routed : get_proxy (started list_keys test_options none in_order) login 2 ≡ ok second_proxy
unfolding started Dispatcher.start get_proxy watcher handle init add_service service_name add_names
    add_name name_from split_on trim_space atoi dir insert lookup bytes_beq to_int8 register_in
    Service.create_proxy Service.add_proxy Service.init Service.get_proxy Service.route_by_id
    Service.route_index Service.proxy_at Ring.add Ring.add_loop Ring.new_hash_ring Ring.get
    Ring.owner_at elt_key hash_key checksum_ieee itoa Proxy.init
routed = refl

get_proxy-Serves_example : Serves 3 (alive login nobody in_order) (itoa 2) second_key
unfolding Proxy.init
get_proxy-Serves_example =
    get_proxy-Serves both 3 both-Apart login list_keys test_options none in_order starts
      in_order-Named 2 second_proxy routed

dispatchers_agree_example :
    (q : Proxy) × (q.key ≡ second_proxy.key)
    × (get_proxy (started list_keys test_options (some found) later) login 2 ≡ ok q)
dispatchers_agree_example =
    dispatchers_agree both 3 both-Apart login list_keys list_keys test_options test_options none
      (some found) in_order later starts starts in_order-Named later-Named same_alive 2 second_proxy
      seen_service routed seen_stands seen_counted

later-Proper : Proper login nobody (seen_after (some found) later)
unfolding alive_after alter bytes_beq service_name dir
later-Proper = (refl, (refl, (refl, (refl, tt))))

first_there : alive login nobody (seen_after (some found) later) first_key ≡ true
unfolding alive alive_after alter bytes_beq service_name dir
first_there = refl

login_named : login ≢ []
login_named e = cc e

get_proxy_finds_example :
    (p : Proxy) × (get_proxy (started list_keys test_options (some found) later) login 2 ≡ ok p)
    × Serves 3 (alive login nobody (seen_after (some found) later)) (itoa 2) p.key
get_proxy_finds_example =
    get_proxy_finds both 3 both-Apart login list_keys test_options (some found) later starts
      later-Named later-Proper (omega arith) (omega arith) login_named first_key first_there 2
      (λ e. omega (arith, e))
