-- ===== src/Examples/DispatcherTests.antt =====
-- A dispatcher that sees two login servers come, one chat server, and one login server go.
use newtbig.Prelude.{
  ◌≡◌, ◌≢◌, refl, true, false, List, [], ◌∷◌, some, codes, lookup, insert, ok, nat_eq, bytes_eq,
  bytes_beq,
}
use newtbig.Strings.Decimal.{atoi, to_int8}
use newtbig.Strings.Split.{split_on, trim_space}
use newtbig.Strings.FilePath.{dir}
use newtbig.Dispatcher.Proxy
use newtbig.Dispatcher.Proxy.{Proxy}
use newtbig.Dispatcher.Service
use newtbig.Dispatcher.Service.{Service, is_hash, route_by_id}
use newtbig.Dispatcher.{
  Dispatcher, Event, put, delete, init, watcher, handle, check_route, add_service, remove_service,
  register_in, service_name, name_from, add_name, add_names,
}
use newtbig.Dispatcher.Invariant.{IsDispatcher, init-IsDispatcher, watcher-IsDispatcher}
use newtbig.Dispatcher.Routes.{check_route_never, direct_service_never_routes}
use newtbig.Examples.Keys.{list_keys}
use newtbig.Examples.ServiceTests.{test_options}

abbrev history : List Event
history =
    put (codes "app/login/l1") (codes "up")
    ∷ put (codes "app/login/l2") (codes "up")
    ∷ put (codes "app/chat/c1") (codes "up")
    ∷ put (codes "app/other/o1") (codes "up")
    ∷ delete (codes "app/login/l1")
    ∷ []

abbrev start : Dispatcher list_keys
start = init list_keys test_options

watcher-IsDispatcher_example : IsDispatcher (watcher start history)
watcher-IsDispatcher_example = watcher-IsDispatcher start history (init-IsDispatcher test_options)

check_route_never_example : check_route (watcher start history) 2 ≡ false
check_route_never_example = check_route_never list_keys test_options history 2

abbrev chat_service : Service list_keys
chat_service =
    register_in (Service.init list_keys (codes "app/chat") test_options 2) (codes "app/chat/c1")
      (codes "up")

chat_stands : lookup (codes "app/chat") (watcher start history).services ≡ some chat_service
unfolding watcher handle init add_service remove_service service_name add_names add_name name_from
    split_on trim_space atoi dir insert lookup bytes_beq register_in to_int8
chat_stands = refl

abbrev chat_proxy : Proxy
chat_proxy = Proxy.init (codes "app/chat") (codes "app/chat/c1") test_options (codes "up")

names_are_given : start.names_provided ≡ true
unfolding init
names_are_given = refl

chat_is_direct : is_hash chat_service.route_type ≡ false
unfolding register_in Service.create_proxy Service.add_proxy Service.init Service.get_proxy lookup
chat_is_direct = refl

direct_service_never_routes_example : route_by_id chat_service 2 ≢ ok chat_proxy
direct_service_never_routes_example =
    direct_service_never_routes list_keys test_options history (codes "app/chat") chat_service 2
      chat_proxy names_are_given chat_stands chat_is_direct
