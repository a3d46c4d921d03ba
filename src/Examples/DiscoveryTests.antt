-- ===== src/Examples/DiscoveryTests.antt =====
-- Dispatchers that read the log of Examples.EtcdLog.
use newtbig.Prelude.{
  ◌≡◌, refl, false, [], ◌∷◌, none, some, ok, codes, Bytes, arith, nat_eq, bytes_eq, Option,
}
use newtbig.Common.{Msg}
use newtbig.Registry.{Registration}
use newtbig.Strings.Decimal.{atoi, itoa}
use newtbig.Ring.Agreement.{Serves}
use newtbig.Etcd.History.{under}
use newtbig.Etcd.Values.{last_value}
use newtbig.Dispatcher.Proxy
use newtbig.Dispatcher.Proxy.{Proxy}
use newtbig.Dispatcher.{get_proxy, dispatch}
use newtbig.Dispatcher.Registered.{routed_registered}
use newtbig.Dispatcher.Discovery.{discovers, discovery_routes}
use newtbig.Demo.Apps.{handle_login_req}
use newtbig.Demo.Login.{gate_page, handle_login}
use newtbig.Demo.Meeting.{app_discovers, login_meets_replies}
use newtbig.Examples.Keys.{list_keys}
use newtbig.Examples.ServiceTests.{test_options}
use newtbig.Examples.EtcdLog.{
  gate_one, root, gates, log, both, both-Apart, log-Named, log-IsHistory, first_reading,
  later_reading, login_server, application, gates_held, one_held, routed,
}

discovery_routes_example :
    (p : Proxy) × (get_proxy (discovers list_keys test_options first_reading) gates 7 ≡ ok p)
    × Serves 3 gates_held (itoa 7) p.key
discovery_routes_example =
    discovery_routes root gates both 3 both-Apart log log-Named log-IsHistory list_keys test_options
      login_server (omega arith) (λ e. cc e) gate_one one_held 7 (λ e. omega (arith, e))

routed_registered_example : last_value routed.0.key none (under root log) ≡ some routed.0.ser_status
routed_registered_example =
    routed_registered root gates both 3 both-Apart log log-Named log-IsHistory list_keys
      test_options login_server 7 routed.0 routed.1

-- User 7 logs in.
abbrev login_request : Msg
login_request = record { seq = 4; id = 20001; body = []; key = 1; uid = 7 }

abbrev no_status : Bytes → Option Registration
no_status bytes = none

seven : atoi (codes "7") ≡ some (false, 7)
unfolding atoi
seven = refl

login_meets_replies_example :
    let rst = (handle_login_req login_request).0 in
    (p : Proxy) × (p' : Proxy) × (p.key ≡ p'.key)
    × (last_value p.key none (under root log) ≡ some p.ser_status)
    × (handle_login
          (λ b. b)
          no_status
          (discovers list_keys test_options first_reading)
          (some (codes "7" ∷ []))
        ≡ gate_page (λ b. b) no_status p.ser_status)
    × (dispatch
          (app_discovers root both 3 both-Apart log log-Named log-IsHistory list_keys test_options
            later_reading)
          (some rst)
        ≡ ok (Proxy.publish_on p' rst))
login_meets_replies_example =
    login_meets_replies root both 3 both-Apart log log-Named log-IsHistory (λ b. b) no_status
      list_keys list_keys test_options test_options login_server application
      (codes "login|1" ∷ codes "chat|2" ∷ []) refl (omega arith) gate_one one_held (codes "7")
      (false, 7) seven login_request refl (λ e. omega (arith, e))
